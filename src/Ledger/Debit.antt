-- ===== src/Ledger/Debit.antt =====
-- The debit strategies of internal/ledger/strategies.go: Fix A and Fix B.
pub mod Covered
use idem_ledger.Base.{
  ℕ, Bool, not, ◌&&◌, Option, none, some, ◌==◌, if◌then◌else◌, select, exists_row,
}
use idem_ledger.Base.Int.{ℤ, leb_ℤ, ltb_ℤ}
use idem_ledger.Db.{Account, Result, ok, insufficient_funds, account_not_found}
use idem_ledger.Server.{World, Action, Sql, pure, raise, raise_if, ◌>>=◌, ◌>>◌, in_tx}
use idem_ledger.Store.Accounts.{by_id, or_raise, select_account}
use idem_ledger.Ledger.Rows.{debit_row, update_accounts}

-- debitFn: the account, the amount.
abbrev pub DebitFn : Type 0
DebitFn = ℕ → ℤ → Action (Unit {0})

abbrev pub is_covered : ℕ → ℤ → Account → Bool
is_covered from amount a = by_id from a && leb_ℤ amount a.balance

unfoldable pub account_exists : ℕ → Sql Bool
account_exists id now d = ok (exists_row (by_id id) d.accounts, d)

why_not_debited : ℕ → Action (Unit {0})
unfolding account_exists
why_not_debited from = do
  known ← in_tx (account_exists from)
  raise (if known then insufficient_funds else account_not_found)

-- Fix A, debitConditionalUpdate: UPDATE … WHERE id = $2 AND balance >= $1
unfoldable pub debit_conditional_update : DebitFn
unfolding why_not_debited
debit_conditional_update from amount = do
  n ← in_tx (update_accounts (is_covered from amount) (debit_row amount))
  if n == 0 then why_not_debited from else pure tt

-- Fix B, debitSelectForUpdate: the row is read (and locked), checked, and written.
unfoldable pub debit_select_for_update : DebitFn
debit_select_for_update from amount = do
  row ← in_tx (select_account from)
  a ← or_raise row account_not_found
  raise_if (ltb_ℤ a.balance amount) insufficient_funds
  in_tx (update_accounts (by_id from) (debit_row amount))
  pure tt
