-- ===== src/Tests/Rivals.antt =====
-- The theorems on transfers that fall between the statements of another session.
use idem_ledger.Base.{◌≡◌, refl, some, arith, select, exists_row, update, count_rows, []}
use idem_ledger.Base.Int.{pos, ◌+ℤ◌, ◌-ℤ◌}
use idem_ledger.Db.{err, pg, check}
use idem_ledger.Server.{World, ◌>>=◌, in_tx, begin, commit, draw, map_error, in_transaction}
use idem_ledger.Store.Accounts.{by_id, select_account, get_webhook_url_in_tx}
use idem_ledger.Store.Outbox.{insert_outbox_event_in_tx}
use idem_ledger.Ledger.Rows.{fits_bigint, update_accounts, insert_transfer, insert_postings}
use idem_ledger.Ledger.{Request}
use idem_ledger.Ledger.Attempt.{Ended-Commits}
use idem_ledger.Ledger.Execute.{execute-Ended}
use idem_ledger.Ledger.Strategies.{execute_optimistic, optimistic_update}
use idem_ledger.Guarantees.{executes_optimistic}
use idem_ledger.Guarantees.Rivals.{alone, joined}
use idem_ledger.Guarantees.Rivals.Debits.{DebitsCovered, versioned_debit-DebitsCovered}
use idem_ledger.Guarantees.Rivals.Refused.{optimistic_update-eq-err}
use idem_ledger.Tests.Data.{env, account, world, start, request, two_accounts}
use idem_ledger.Tests.Transfers.{keyed, once, once-created, new_transfer, two_accounts-HasIds}

payer : select (by_id 1) two_accounts.accounts ≡ some (account 1 (pos 500))
unfolding select
payer = refl

abbrev unkeyed : Request
unkeyed = request (pos 200) ""

-- The ledger after a rival that took the same way.
abbrev rival : World
rival = (execute_optimistic env unkeyed start).1

versioned_debit-DebitsCovered_example :
    DebitsCovered (request (pos 400) "") (account 1 (pos 500)) 1000 rival.committed
unfolding execute_optimistic ◌>>=◌ in_tx begin commit draw map_error in_transaction select
    exists_row update count_rows fits_bigint ◌+ℤ◌ ◌-ℤ◌ update_accounts insert_transfer
    insert_postings select_account get_webhook_url_in_tx insert_outbox_event_in_tx
versioned_debit-DebitsCovered_example =
    versioned_debit-DebitsCovered env (request (pos 400) "") (account 1 (pos 500)) 1000 two_accounts
      rival.committed two_accounts-HasIds (omega arith) payer refl
      (joined alone (executes_optimistic unkeyed start refl refl) tt)
      ((omega arith, omega arith), ((omega arith, omega arith), tt))

-- The account was read with 500, a rival has taken 200 of it, and 400 are to be debited.
optimistic_update-eq-err_example :
    optimistic_update env (request (pos 400) "") (account 1 (pos 500)) (world once.committed [])
    ≡ (err (pg check), world once.committed [])
unfolding ◌-ℤ◌
optimistic_update-eq-err_example =
    optimistic_update-eq-err env (request (pos 400) "") keyed new_transfer (account 1 (pos 500))
      two_accounts (world once.committed []) two_accounts-HasIds payer (omega arith, omega arith)
      refl refl refl
      (Ended-Commits env _ keyed two_accounts new_transfer once once-created
        (execute-Ended env keyed start two_accounts-HasIds))
      refl
