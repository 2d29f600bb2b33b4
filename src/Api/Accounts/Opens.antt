-- ===== src/Api/Accounts/Opens.antt =====
-- What POST /accounts does to the tables.
use idem_ledger.Base.{
  ℕ, ◌≤◌, ◌^◌, ◌<◌, ◌≡◌, ◌≢◌, refl, arith, String, len, Bool, true, false, not, Option, none, some,
  ◌==◌, if◌then◌else◌, str_eq, eq_iff,
}
use idem_ledger.Db.{Db, Account, Result, ok}
use idem_ledger.Server.{World}
use idem_ledger.Server.Laws.{Alone, on_pool-Alone}
use idem_ledger.Store.Accounts.{insert_account, create_account}
use idem_ledger.Api.{Response, Content, failure}
use idem_ledger.Api.Webhook.{Ip, Resolver, validate_webhook_url}
use idem_ledger.Api.Webhook.Accepts.{IsAccepted, validate_webhook_url-IsAccepted}
use idem_ledger.Api.Accounts.{
  success, AccountBody, reply_created, open_account, if_accepted, check_account, decoded_account,
  post_accounts,
}

abbrev pub IsWebhook : Resolver → Option String → Type 0
IsWebhook net none = Unit
IsWebhook net (some raw) = IsAccepted net raw

-- A new row, with a name, a currency of three bytes, no money, and a webhook address that was accepted.
pub record IsOpened (net : Resolver) (d d' : Db) (row : Account) : Type 0 where
  pub name : row.name ≢ ""
  pub currency : len row.currency ≡ 3
  pub webhook : IsWebhook net row.webhook_url
  pub now : ℕ
  pub made : insert_account row.name row.currency row.webhook_url now d ≡ ok (row, d')

-- Refused; or opened and answered with the row; or opened, and the answer to the program was lost.
pub data Opens (net : Resolver) (d : Db) : Response × World → Type 0 where
  refused : (r : Response) (w : World) → 400 ≤ r.status → w.committed ≡ d → Opens net d (r, w)
  opens :
      (row : Account) (w : World)
      → IsOpened net d w.committed row
      → Opens net d (success 201 (Content.one_account row), w)
  unheard :
      (row : Account) (w : World)
      → IsOpened net d w.committed row
      → Opens net d (failure 500 "internal server error", w)

module _ (net : Resolver)
    (sized : (text : String) (ip : Ip) → net.parse_ip text ≡ some ip → ip < 2 ^ 128) where
  module _ (name currency : String) (url : Option String) (named : name ≢ "")
      (three : len currency ≡ 3) (webhook : IsWebhook net url) where
    inserted-IsOpened :
        (now : ℕ) (d d' : Db) (row : Account)
        → insert_account name currency url now d ≡ ok (row, d')
        → IsOpened net d d' row
    unfolding insert_account
    inserted-IsOpened now d d' row h =
        let n : row.name ≡ name = ground arith in
        let c : row.currency ≡ currency = ground arith in
        let u : row.webhook_url ≡ url = ground arith in
        record {
          name = rw n named;
          currency = rw c three;
          webhook = rw u webhook;
          now = now;
          made = ground arith;
        }

    Alone-Opens :
        (now : ℕ) (d : Db) {y : Result Account × World}
        → Alone d (insert_account name currency url now d) y
        → Opens net d (reply_created y.0, y.1)
    Alone-Opens now d (Alone.refused e w c) = refused _ w (omega arith) c
    Alone-Opens now d (Alone.done row w h) = opens row w (inserted-IsOpened now d w.committed row h)
    Alone-Opens now d (Alone.unheard row w h) =
        unheard row w (inserted-IsOpened now d w.committed row h)

    open_account-Opens : (w : World) → Opens net w.committed (open_account name currency url w)
    unfolding open_account create_account
    open_account-Opens w =
        let (now, x) = on_pool-Alone (insert_account name currency url) w in
        Alone-Opens now w.committed x

  if_accepted-Opens :
      (decode : String → Option AccountBody) (trim to_upper : String → String)
      (name currency raw : String) (w : World) (o : Option String)
      → name ≢ ""
      → len currency ≡ 3
      → validate_webhook_url net raw ≡ o
      → Opens net w.committed (if_accepted net decode trim to_upper name currency raw o w)
  if_accepted-Opens decode trim to_upper name currency raw w none named three e =
      open_account-Opens name currency (some raw) named three
        ((validate_webhook_url-IsAccepted net sized raw).0 e) w
  if_accepted-Opens decode trim to_upper name currency raw w (some text) named three e =
      refused _ w (omega arith) refl

  -- A guard that answers with 422.
  guard-Opens :
      (w : World) (b : Bool) (text : String) (y : Response × World)
      → (b ≡ false → Opens net w.committed y)
      → Opens net w.committed (if b then (failure 422 text, w) else y)
  guard-Opens w true text y h = refused _ w (omega arith) refl
  guard-Opens w false text y h = h refl

  choice :
      (P : Response × World → Type 0) (b : Bool) (x y : Response × World)
      → P x
      → P y
      → P (if b then x else y)
  choice P true x y p q = p
  choice P false x y p q = q

  module _ (decode : String → Option AccountBody) (trim to_upper : String → String) where
    check_account-Opens :
        (name currency raw : String) (w : World)
        → Opens net w.committed (check_account net decode trim to_upper name currency raw w)
    unfolding check_account
    check_account-Opens name currency raw w = guard-Opens w (str_eq name "") _ _ (λ n.
        guard-Opens w (not (len currency == 3)) _ _ (λ c.
          let named : name ≢ "" = ground (arith, eq_iff name "") in
          let three : len currency ≡ 3 = ground arith in
          choice (Opens net w.committed) (str_eq raw "") _ _
            (open_account-Opens name currency none named three tt w)
            (if_accepted-Opens decode trim to_upper name currency raw w _ named three refl)))

    decoded_account-Opens :
        (t : Option AccountBody) (w : World)
        → Opens net w.committed (decoded_account net decode trim to_upper t w)
    decoded_account-Opens none w = refused _ w (omega arith) refl
    decoded_account-Opens (some t) w = check_account-Opens _ _ _ w

    -- Where a parsed address has 16 bytes: whatever its body and the server's answers, POST /accounts
    -- leaves the tables alone and answers with a status of 400 or more, or it adds one account and no
    -- other row, whose name is not empty, whose currency has three bytes, and whose webhook address, if
    -- there is one, is accepted; then it answers 201 with the new row, or 500 if the server's answer is lost.
    pub post_accounts-Opens :
        (body : String) (w : World)
        → Opens net w.committed (post_accounts net decode trim to_upper body w)
    unfolding post_accounts
    post_accounts-Opens body w = decoded_account-Opens (decode body) w
