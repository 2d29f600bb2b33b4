-- ===== src/Ledger/Rows.antt =====
-- The SQL statements of internal/ledger on accounts, transfers and postings, with the constraints
-- of the tables that they meet (migrations/000001, 000002).
pub mod Success
use idem_ledger.Base.{
  ℕ, ◌+◌, ◌-◌, ◌*◌, ◌^◌, String, Bool, not, ◌&&◌, ◌||◌, Option, none, some, List, [], ◌∷◌, ◌==◌,
  if◌then◌else◌, str_eq, ltb, count, select, exists_row, update, count_rows,
}
use idem_ledger.Base.Int.{ℤ, pos, negsuc, ◌+ℤ◌, ◌-ℤ◌, ltb_ℤ, leb_ℤ}
use idem_ledger.Db.{
  Db, Account, Transfer, TransferStatus, posted, Posting, Result, ok, err, pg, check, unique,
  foreign_key, out_of_range, too_long,
}
use idem_ledger.Server.{Sql}
use idem_ledger.Store.Accounts.{by_id}

-- The range of BIGINT.
unfoldable pub fits_bigint : ℤ → Bool
fits_bigint x = leb_ℤ (negsuc (2 ^ 63 - 1)) x && leb_ℤ x (pos (2 ^ 63 - 1))

pair_currencies : Option Account → Option Account → Option (String × String)
pair_currencies (some a) (some b) = some (a.currency, b.currency)
pair_currencies _ _ = none

-- SELECT a1.currency, a2.currency …; no row if either account is missing.
unfoldable pub select_currencies : ℕ → ℕ → Sql (Option (String × String))
unfolding pair_currencies
select_currencies from to now d =
    ok (pair_currencies (select (by_id from) d.accounts) (select (by_id to) d.accounts), d)

abbrev pub debit_row : ℤ → Account → Account
debit_row amount a = record a { balance = a.balance -ℤ amount }

abbrev pub credit_row : ℤ → Account → Account
credit_row amount a = record a { balance = a.balance +ℤ amount }

-- UPDATE accounts: a balance out of BIGINT or below 0 (CHECK (balance >= 0)) undoes the statement.
unfoldable pub update_accounts : (Account → Bool) → (Account → Account) → Sql ℕ
update_accounts p f now d =
    if exists_row (λ a. p a && not (fits_bigint (f a).balance)) d.accounts
    then err (pg out_of_range)
    else if exists_row (λ a. p a && ltb_ℤ (f a).balance (pos 0)) d.accounts
    then err (pg check)
    else ok (count_rows p d.accounts, record d { accounts = update p f d.accounts })

abbrev pub transfer_row : ℕ → String → ℤ → String → ℕ → ℕ → ℕ → Transfer
transfer_row id key amount currency from to now = record {
  id = id;
  idempotency_key = key;
  status = posted;
  amount = amount;
  currency = currency;
  from_account = from;
  to_account = to;
  created_at = now;
}

-- INSERT INTO transfers … 'posted' … RETURNING: the length of CHAR(3), the checks of the row, the two
-- unique indexes, then the references to accounts.
unfoldable pub insert_transfer : ℕ → String → ℤ → String → ℕ → ℕ → Sql Transfer
insert_transfer id key amount currency from to now d =
    let row = transfer_row id key amount currency from to now in
    if ltb 3 (count currency)
    then err (pg too_long)
    else if leb_ℤ amount (pos 0) || from == to
    then err (pg check)
    else if exists_row (λ t. t.id == id || str_eq t.idempotency_key key) d.transfers
    then err (pg unique)
    else if not (exists_row (by_id from) d.accounts && exists_row (by_id to) d.accounts)
    then err (pg foreign_key)
    else ok (row, record d { transfers = row ∷ d.transfers })

abbrev pub posting_row : ℕ → ℕ → ℕ → ℤ → ℕ → Posting
posting_row id transfer_id account amount now = record {
  id = id;
  transfer_id = transfer_id;
  account_id = account;
  amount = amount;
  created_at = now;
}

-- INSERT INTO postings … VALUES ($1,$2,$3),($1,$4,$5)
unfoldable pub insert_postings : ℕ → ℕ → ℤ → ℕ → ℤ → Sql (Unit {0})
insert_postings transfer_id account₁ amount₁ account₂ amount₂ now d =
    let first = posting_row d.next_posting transfer_id account₁ amount₁ now in
    let second = posting_row (d.next_posting + 1) transfer_id account₂ amount₂ now in
    if exists_row (λ t. t.id == transfer_id) d.transfers
      && exists_row (by_id account₁) d.accounts
      && exists_row (by_id account₂) d.accounts
    then ok
        (tt, record d { postings = second ∷ first ∷ d.postings; next_posting = d.next_posting + 2 })
    else err (pg foreign_key)
