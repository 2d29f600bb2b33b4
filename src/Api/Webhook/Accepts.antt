-- ===== src/Api/Webhook/Accepts.antt =====
-- What an accepted webhook address is.
use idem_ledger.Base.{
  ◌^◌, ◌<◌, ◌≡◌, ◌≢◌, ◌↔◌, ◌⊎◌, inl, inr, refl, arith, String, false, Option, none, some, List, [],
  ◌∷◌, All, eq_iff, exists_row, Bool-cases, Option-cases,
}
use idem_ledger.Api.Webhook.{Ip, Url, Resolver, is_blocked, hits, check_url, validate_webhook_url}
use idem_ledger.Api.Webhook.Ranges.{IsPrivate, is_blocked-IsPrivate}

-- An address that is no IP, or one that the listed ranges leave out. Addresses such as 0.0.0.0 and
-- fe80::1, which no public server has, are left out too.
abbrev pub IsUnlisted : Option Ip → Type 0
IsUnlisted none = Unit
IsUnlisted (some ip) = ¬ IsPrivate ip

-- The URL has the scheme http or https and a hostname, which resolves to addresses outside the listed
-- ranges.
pub record IsAccepted (net : Resolver) (raw : String) : Type 0 where
  pub url : Url
  pub parsed : net.parse raw ≡ some url
  pub scheme : (url.scheme ≡ "http") ⊎ (url.scheme ≡ "https")
  pub hostname : url.hostname ≢ ""
  pub addrs : List String
  pub found : net.lookup url.hostname ≡ some addrs
  pub unlisted : All (λ addr. IsUnlisted (net.parse_ip addr)) addrs

module _ (net : Resolver)
    (sized : (text : String) (ip : Ip) → net.parse_ip text ≡ some ip → ip < 2 ^ 128) where
  hits-IsUnlisted :
      (addr : String) (o : Option Ip) → net.parse_ip addr ≡ o → (hits net o ≡ false) ↔ IsUnlisted o
  hits-IsUnlisted addr none e = ((λ _. tt), (λ _. refl))
  hits-IsUnlisted addr (some ip) e =
      let iff = is_blocked-IsPrivate ip (sized addr ip e) in
      (
        λ h p. absurd (let yes_blocked = iff.1 p in ground arith),
        λ h. elim (Bool-cases (is_blocked ip)) [ inl b ↦ absurd (h (iff.0 b)) | inr b ↦ b ],
      )

  none_hit :
      (addrs : List String)
      → (exists_row (λ addr. hits net (net.parse_ip addr)) addrs ≡ false)
        ↔ All (λ addr. IsUnlisted (net.parse_ip addr)) addrs
  unfolding exists_row
  none_hit [] = ((λ _. tt), (λ _. refl))
  none_hit (addr ∷ addrs) =
      let one = hits-IsUnlisted addr (net.parse_ip addr) refl in
      let rest = none_hit addrs in
      (
        λ h. (one.0 (ground arith), rest.0 (ground arith)),
        λ h. let a = one.1 h.0 in let b = rest.1 h.1 in ground arith,
      )

  -- Where a parsed address has 16 bytes: `validateWebhookURL` accepts a URL exactly if it parses, has the
  -- scheme http or https and a hostname, and the hostname resolves to addresses none of which is an IP
  -- address of the private ranges (by its bytes), loopback, or of fc00::/7.
  pub validate_webhook_url-IsAccepted :
      (raw : String) → (validate_webhook_url net raw ≡ none) ↔ IsAccepted net raw
  unfolding validate_webhook_url
  validate_webhook_url-IsAccepted raw = (accepted, passes)
    where
      accepted : check_url net (net.parse raw) ≡ none → IsAccepted net raw
      accepted h = elim (Option-cases (net.parse raw)) [
        | inl e ↦ absurd (ground arith)
        | inr (u, e) ↦ elim (Option-cases (net.lookup u.hostname)) [
          | inl e' ↦ absurd (ground arith)
          | inr (addrs, e') ↦ record {
            url = u;
            parsed = e;
            scheme = ground (arith, eq_iff u.scheme "http", eq_iff u.scheme "https");
            hostname = ground (arith, eq_iff u.hostname "");
            addrs = addrs;
            found = e';
            unlisted = (none_hit addrs).0 (ground arith);
          }
        ]
      ]

      passes : IsAccepted net raw → check_url net (net.parse raw) ≡ none
      passes a =
          let parsed = a.parsed in
          let found = a.found in
          let scheme = a.scheme in
          let hostname = a.hostname in
          let clean = (none_hit a.addrs).1 a.unlisted in
          ground (
            arith,
            eq_iff a.url.scheme "http",
            eq_iff a.url.scheme "https",
            eq_iff a.url.hostname "",
          )
