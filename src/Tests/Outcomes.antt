-- ===== src/Tests/Outcomes.antt =====
-- A transfer that can be made and one that cannot, where every call is answered.
use idem_ledger.Base.{◌≡◌, refl, false, some, select, exists_row, arith, [], ◌∷◌}
use idem_ledger.Base.Int.{pos, ◌+ℤ◌}
use idem_ledger.Db.{Transfer, ok, insufficient_funds, deadlock}
use idem_ledger.Server.{World, Outcome, Fault}
use idem_ledger.Ledger.Ends.{EndsWithin, transfers_end}
use idem_ledger.Idempotency.{has_key}
use idem_ledger.Store.Accounts.{by_id}
use idem_ledger.Ledger.{created, execute}
use idem_ledger.Ledger.Rows.{debit_row}
use idem_ledger.Ledger.Attempt.{Commits}
use idem_ledger.Ledger.Execute.{HasIds}
use idem_ledger.Ledger.Ready.{IsValid, IsReady}
use idem_ledger.Ledger.Succeeds.{execute_succeeds}
use idem_ledger.Ledger.LockedSucceeds.{execute_with_for_update_succeeds}
use idem_ledger.Ledger.Strategies.{execute_with_for_update, execute_optimistic}
use idem_ledger.Ledger.Refuses.{Refuses, Refused, too_little, execute-Refuses}
use idem_ledger.Tests.Data.{env, account, world, start, request, two_accounts}

two_accounts-HasIds : HasIds two_accounts
two_accounts-HasIds = (omega arith, (omega arith, tt))

finds_from : select (by_id 1) two_accounts.accounts ≡ some (account 1 (pos 500))
unfolding select
finds_from = refl

finds_to : select (by_id 2) two_accounts.accounts ≡ some (account 2 (pos 0))
unfolding select
finds_to = refl

is_new : exists_row (has_key "k") two_accounts.keys ≡ false
unfolding exists_row
is_new = refl

request-IsValid : IsValid (request (pos 500) "k")
request-IsValid = record { positive = omega arith; distinct = omega arith; code = refl }

request-IsReady : IsReady env (request (pos 500) "k") 0 two_accounts
unfolding exists_row ◌+ℤ◌
request-IsReady = record {
  valid = request-IsValid;
  keyed = refl;
  from_row = account 1 (pos 500);
  to_row = account 2 (pos 0);
  from_found = finds_from;
  to_found = finds_to;
  from_currency = refl;
  to_currency = refl;
  covered = omega arith;
  balances = ((omega arith, omega arith), ((omega arith, omega arith), tt));
  room = ((λ _. omega arith), ((λ _. omega arith), tt));
  fresh_transfer = refl;
  fresh_event = refl;
  text = λ t. ("{a transfer}", refl);
}

-- The whole balance can be moved.
execute_succeeds_example :
    (t : Transfer) × (w' : World) × (execute env (request (pos 500) "k") start
      ≡ (ok (created t), w'))
    × Commits env debit_row (request (pos 500) "k") t two_accounts w'.committed
execute_succeeds_example =
    execute_succeeds env (request (pos 500) "k") start refl two_accounts-HasIds request-IsReady
      is_new

dear-IsValid : IsValid (request (pos 501) "k")
dear-IsValid = record { positive = omega arith; distinct = omega arith; code = refl }

dear-Refused : Refused (request (pos 501) "k") two_accounts insufficient_funds
dear-Refused =
    too_little (account 1 (pos 500)) (account 2 (pos 0)) dear-IsValid finds_from finds_to refl refl
      refl

-- One unit more cannot.
execute-Refuses_example : Refuses env (request (pos 501) "k") insufficient_funds start
execute-Refuses_example =
    execute-Refuses env (request (pos 501) "k") start insufficient_funds refl two_accounts-HasIds
      (λ _. is_new) dear-Refused

execute_with_for_update_succeeds_example :
    (t : Transfer) × (w' : World) × (execute_with_for_update env (request (pos 500) "k") start
      ≡ (ok (created t), w'))
    × Commits env debit_row (request (pos 500) "k") t two_accounts w'.committed
execute_with_for_update_succeeds_example =
    execute_with_for_update_succeeds env (request (pos 500) "k") start refl two_accounts-HasIds
      request-IsReady is_new

-- Two attempts of Fix A meet a deadlock.
abbrev deadlocks : World
deadlocks = world two_accounts (
    record { outcome = Outcome.fails (Fault.server deadlock); now = 1000; wall = 1000 }
    ∷ record { outcome = Outcome.fine; now = 1000; wall = 1000 }
    ∷ record { outcome = Outcome.fails (Fault.server deadlock); now = 1000; wall = 1000 }
    ∷ [])

transfers_end_example :
    EndsWithin 70 deadlocks (execute env (request (pos 500) "k") deadlocks)
    × EndsWithin 75 deadlocks (execute_with_for_update env (request (pos 500) "k") deadlocks)
    × EndsWithin 45 deadlocks (execute_optimistic env (request (pos 500) "k") deadlocks)
transfers_end_example = transfers_end env (request (pos 500) "k") deadlocks
