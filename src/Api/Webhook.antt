-- ===== src/Api/Webhook.antt =====
-- cmd/api/main.go, validateWebhookURL: which addresses a webhook may have.
pub mod Ranges
pub mod Accepts
use idem_ledger.Base.{
  ℕ, ◌-◌, ◌*◌, ◌+◌, ◌/◌, ◌%◌, ◌^◌, String, Bool, true, false, not, ◌&&◌, ◌||◌, Option, none, some,
  List, [], ◌∷◌, ◌==◌, if◌then◌else◌, str_eq, exists_row,
}

-- net.IP: the 16 bytes of an address as one number. An IPv4 address is ::ffff:a.b.c.d.
abbrev pub Ip : Type 0
Ip = ℕ

-- IP.To4
abbrev pub to4 : Ip → Option ℕ
to4 ip = if ip / 2 ^ 32 == 0xffff then some (ip % 2 ^ 32) else none

-- net.IPNet, with 4 bytes or 16: the address and the length of the prefix.
pub data Net : Type 0 where
  net4 net6 : ℕ → ℕ → Net

abbrev pub same_prefix : ℕ → ℕ → ℕ → Bool
same_prefix bits a b = a / 2 ^ bits == b / 2 ^ bits

contains_as : Net → Ip → Option ℕ → Bool
contains_as (net4 base len) ip (some a) = same_prefix (32 - len) a base
contains_as (net4 base len) ip none = false
contains_as (net6 base len) ip (some a) = false
contains_as (net6 base len) ip none = same_prefix (128 - len) ip base

-- IPNet.Contains: an address of the other length is not in the net.
unfoldable pub contains : Net → Ip → Bool
unfolding contains_as
contains n ip = contains_as n ip (to4 ip)

abbrev pub dotted : ℕ → ℕ → ℕ → ℕ → ℕ
dotted a b c d = a * 2 ^ 24 + b * 2 ^ 16 + c * 2 ^ 8 + d

-- privateRanges
abbrev pub blocked_nets : List Net
blocked_nets =
    net4 (dotted 127 0 0 0) 8
    ∷ net4 (dotted 10 0 0 0) 8
    ∷ net4 (dotted 172 16 0 0) 12
    ∷ net4 (dotted 192 168 0 0) 16
    ∷ net4 (dotted 169 254 0 0) 16
    ∷ net6 1 128
    ∷ net6 (0xfc00 * 2 ^ 112) 7
    ∷ []

unfoldable pub is_blocked : Ip → Bool
unfolding contains
is_blocked ip = exists_row (λ n. contains n ip) blocked_nets

-- What url.Parse gives of an address.
pub record Url : Type 0 where
  pub scheme : String
  pub hostname : String

-- url.Parse, net.LookupHost and net.ParseIP.
pub record Resolver : Type 0 where
  pub parse : String → Option Url
  pub lookup : String → Option (List String)
  pub parse_ip : String → Option Ip

module _ (net : Resolver) where
  -- An address that is no IP is passed over.
  abbrev pub hits : Option Ip → Bool
  hits none = false
  hits (some ip) = is_blocked ip

  abbrev pub resolved : Option (List String) → Option String
  resolved none = some "webhook_url hostname could not be resolved"
  resolved (some addrs) =
      if exists_row (λ addr. hits (net.parse_ip addr)) addrs
      then some "webhook_url resolves to a private or reserved IP address"
      else none

  abbrev pub check_url : Option Url → Option String
  check_url none = some "webhook_url is not a valid URL"
  check_url (some u) =
      if not (str_eq u.scheme "http") && not (str_eq u.scheme "https")
      then some "webhook_url must use http or https scheme"
      else if str_eq u.hostname ""
      then some "webhook_url must have a hostname"
      else resolved (net.lookup u.hostname)

  -- validateWebhookURL: the text of the error, or none.
  unfoldable pub validate_webhook_url : String → Option String
  unfolding is_blocked
  validate_webhook_url raw = check_url (net.parse raw)
