-- ===== src/Tests/Currencies.antt =====
-- The optimistic strategy between accounts of different currencies.
use idem_ledger.Base.{◌≡◌, refl, some, select, exists_row, arith, [], ◌∷◌}
use idem_ledger.Base.Int.{pos, ◌+ℤ◌}
use idem_ledger.Db.{Db, Account, Transfer, ok}
use idem_ledger.Server.{World}
use idem_ledger.Store.Accounts.{by_id}
use idem_ledger.Ledger.Attempt.{Commits}
use idem_ledger.Ledger.Execute.{HasIds}
use idem_ledger.Ledger.Movable.{IsMovable}
use idem_ledger.Ledger.OptimisticSucceeds.{execute_optimistic_succeeds}
use idem_ledger.Ledger.Strategies.{debit_versioned_row, execute_optimistic}
use idem_ledger.Tests.Data.{env, account, world, request, two_accounts}

abbrev dollars : Account
dollars = record (account 2 (pos 0)) { currency = "USD" }

abbrev mixed : Db
mixed = record two_accounts { accounts = dollars ∷ account 1 (pos 500) ∷ [] }

mixed-HasIds : HasIds mixed
mixed-HasIds = (omega arith, (omega arith, tt))

finds_rupees : select (by_id 1) mixed.accounts ≡ some (account 1 (pos 500))
unfolding select
finds_rupees = refl

finds_dollars : select (by_id 2) mixed.accounts ≡ some dollars
unfolding select
finds_dollars = refl

request-IsMovable : IsMovable env (request (pos 500) "") 0 mixed
unfolding exists_row ◌+ℤ◌
request-IsMovable = record {
  valid = record { positive = omega arith; distinct = omega arith; code = refl };
  unkeyed = refl;
  from_row = account 1 (pos 500);
  to_row = dollars;
  from_found = finds_rupees;
  to_found = finds_dollars;
  covered = omega arith;
  balances = ((omega arith, omega arith), ((omega arith, omega arith), tt));
  room = ((λ _. omega arith), ((λ _. omega arith), tt));
  fresh_transfer = refl;
  fresh_event = refl;
  text = λ t. ("{a transfer}", refl);
}

-- 500 rupees become 500 dollars.
execute_optimistic_succeeds_example :
    (t : Transfer) × (w' : World) × (execute_optimistic env (request (pos 500) "") (world mixed [])
      ≡ (ok t, w'))
    × Commits env debit_versioned_row (request (pos 500) "") t mixed w'.committed
execute_optimistic_succeeds_example =
    execute_optimistic_succeeds env (request (pos 500) "") (world mixed []) refl mixed-HasIds
      request-IsMovable
