-- ===== src/Store/Accounts.antt =====
-- internal/store/accounts.go: accounts and their webhook addresses.
pub mod Unique
use idem_ledger.Base.{
  ℕ, ◌+◌, String, Bool, Option, none, some, List, [], ◌∷◌, ◌==◌, select, update, count_rows, count,
  ltb, if◌then◌else◌,
}
use idem_ledger.Base.Int.{pos, ℤ, eqb_ℤ}
use idem_ledger.Db.{Db, Account, Result, ok, err, Error, not_found, pg, too_long}
use idem_ledger.Server.{World, Action, Sql, pure, raise, ◌>>=◌, ◌>>◌, in_tx, on_pool}

abbrev pub by_id : ℕ → Account → Bool
by_id i a = a.id == i

-- DEFAULT 0 for balance and version.
abbrev pub account_row : ℕ → String → String → Option String → ℕ → Account
account_row id name currency webhook_url now = record {
  id = id;
  name = name;
  currency = currency;
  balance = pos 0;
  version = 0;
  webhook_url = webhook_url;
  created_at = now;
}

-- INSERT INTO accounts … RETURNING: the identity column numbers the accounts from 1. The currency is
-- CHAR(3), and a longer one is an error.
unfoldable pub insert_account : String → String → Option String → Sql Account
insert_account name currency webhook_url now d =
    let row = account_row d.next_account name currency webhook_url now in
    if ltb 3 (count currency)
    then err (pg too_long)
    else ok (row, record d { accounts = row ∷ d.accounts; next_account = d.next_account + 1 })

-- CreateAccount
unfoldable pub create_account : String → String → Option String → Action Account
unfolding insert_account
create_account name currency webhook_url = on_pool (insert_account name currency webhook_url)

unfoldable pub select_account : ℕ → Sql (Option Account)
select_account id now d = ok (select (by_id id) d.accounts, d)

abbrev pub or_raise : {A : Type 0} → Option A → Error → Action A
or_raise none e = raise e
or_raise (some a) e = pure a

-- An id as a client writes it, which may be negative.
abbrev pub has_id : ℤ → Account → Bool
has_id id a = eqb_ℤ (pos a.id) id

unfoldable pub find_account : ℤ → Sql (Option Account)
find_account id now d = ok (select (has_id id) d.accounts, d)

-- GetAccount
unfoldable pub get_account : ℤ → Action Account
unfolding find_account
get_account id = do row ← on_pool (find_account id); or_raise row not_found

abbrev pub webhook_row : String → Account → Account
webhook_row url a = record a { webhook_url = some url }

unfoldable pub update_webhook : ℕ → String → Sql ℕ
update_webhook id url now d = ok (
  count_rows (by_id id) d.accounts,
  record d { accounts = update (by_id id) (webhook_row url) d.accounts },
)

-- SetWebhookURL
unfoldable pub set_webhook_url : ℕ → String → Action (Unit {0})
unfolding update_webhook
set_webhook_url id url = do on_pool (update_webhook id url); pure tt

abbrev pub webhook_of : Option Account → Option String
webhook_of none = none
webhook_of (some a) = a.webhook_url

-- GetWebhookURLInTx
unfoldable pub get_webhook_url_in_tx : ℕ → Action (Option String)
unfolding select_account
get_webhook_url_in_tx id = do row ← in_tx (select_account id); pure (webhook_of row)
