-- ===== src/Api/Accounts/Succeeds.antt =====
-- A POST /accounts that the handler accepts, in a session whose calls are answered.
use idem_ledger.Base.{
  ◌+◌, ◌^◌, ◌<◌, ◌≡◌, ◌≢◌, ◌⊎◌, ◌∙◌, inl, inr, refl, ap, arith, String, len, false, not, Option,
  none, some, [], ◌∷◌, ◌==◌, if◌then◌else◌, ltb, count, count-len, str_eq, eq_iff, Bool-cases,
}
use idem_ledger.Db.{Account}
use idem_ledger.Server.{World}
use idem_ledger.Server.Fine.{on_pool-calm}
use idem_ledger.Store.Accounts.{account_row, insert_account, create_account}
use idem_ledger.Api.{Content}
use idem_ledger.Api.Webhook.{Ip, Resolver}
use idem_ledger.Api.Webhook.Accepts.{IsAccepted, validate_webhook_url-IsAccepted}
use idem_ledger.Api.Accounts.{
  success, AccountBody, reply_created, open_account, check_account, decoded_account, post_accounts,
}

-- The address that is stored: none for the empty text.
abbrev pub stored_url : String → Option String
stored_url raw = if str_eq raw "" then none else some raw

module _ (w : World) (calm : w.tape ≡ []) where
  -- The tables and the session after an account is opened.
  abbrev pub opened_by : Account → World
  opened_by row =
      let d = record w.committed {
        accounts = row ∷ w.committed.accounts;
        next_account = w.committed.next_account + 1;
      } in
      record w { db = d; committed = d }

  open_account-run :
      (name currency : String) (url : Option String)
      → len currency ≡ 3
      → let row = account_row w.committed.next_account name currency url w.now in
        open_account name currency url w ≡ (success 201 (Content.one_account row), opened_by row)
  unfolding open_account create_account insert_account
  open_account-run name currency url three =
      let few = count-len currency in
      let short : ltb 3 (count currency) ≡ false = ground arith in
      ap (λ x. (reply_created x.0, x.1))
        (on_pool-calm w calm (insert_account name currency url) (rw short refl))

module _ (net : Resolver)
    (sized : (text : String) (ip : Ip) → net.parse_ip text ≡ some ip → ip < 2 ^ 128)
    (decode : String → Option AccountBody) (trim to_upper : String → String) (w : World)
    (calm : w.tape ≡ []) where
  -- The account that a body asks for.
  abbrev pub asked : AccountBody → Account
  asked t =
      account_row w.committed.next_account (trim t.name) (to_upper (trim t.currency))
        (stored_url t.webhook_url) w.now

  check_account-run :
      (name currency raw : String)
      → name ≢ ""
      → len currency ≡ 3
      → (raw ≡ "") ⊎ IsAccepted net raw
      → let row = account_row w.committed.next_account name currency (stored_url raw) w.now in
        check_account net decode trim to_upper name currency raw w
        ≡ (success 201 (Content.one_account row), opened_by w calm row)
  unfolding check_account
  check_account-run name currency raw named three allowed =
      let n : str_eq name "" ≡ false = ground (arith, eq_iff name "") in
      let c : not (len currency == 3) ≡ false = ground arith in
      rw (n, c)
        (elim (Bool-cases (str_eq raw "")) [
          | inl e ↦ rw e (open_account-run w calm name currency none three)
          | inr e ↦
              let accepted : IsAccepted net raw = elim allowed [
                | inl empty ↦ absurd (ground (arith, eq_iff raw ""))
                | inr a ↦ a
              ] in
              let valid = (validate_webhook_url-IsAccepted net sized raw).1 accepted in
              rw (e, valid) (open_account-run w calm name currency (some raw) three)
        ])

  -- Where a parsed address has 16 bytes and the server answers: POST /accounts with a body that decodes, a
  -- name that is not blank, a currency of three bytes once trimmed, and a webhook address that is empty or
  -- accepted, answers 201 with the account asked for, which it has added to the tables, and nothing else.
  pub post_accounts_succeeds :
      (body : String) (t : AccountBody)
      → decode body ≡ some t
      → trim t.name ≢ ""
      → len (to_upper (trim t.currency)) ≡ 3
      → (t.webhook_url ≡ "") ⊎ IsAccepted net t.webhook_url
      → post_accounts net decode trim to_upper body w
        ≡ (success 201 (Content.one_account (asked t)), opened_by w calm (asked t))
  unfolding post_accounts
  post_accounts_succeeds body t e named three allowed =
      ap (λ o. decoded_account net decode trim to_upper o w) e
      ∙ check_account-run (trim t.name) (to_upper (trim t.currency)) t.webhook_url named three
          allowed
