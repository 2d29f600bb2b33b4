-- ===== src/Tests/Transfers.antt =====
-- The theorems on transfers, at a funded ledger.
use idem_ledger.Base.{
  ℕ, ◌≡◌, refl, String, some, arith, select, exists_row, update, count_rows, ◌<◌, [], ◌∷◌, true,
}
use idem_ledger.Base.Int.{pos, ◌+ℤ◌, ◌-ℤ◌}
use idem_ledger.Db.{Transfer, KeyRow, done, ok}
use idem_ledger.Server.{World, ◌>>=◌, in_tx, begin, commit, draw, map_error, in_transaction}
use idem_ledger.Idempotency.{claim_in_tx, complete}
use idem_ledger.Ledger.Rows.{
  fits_bigint, select_currencies, update_accounts, insert_transfer, insert_postings, transfer_row,
}
use idem_ledger.Store.Accounts.{get_webhook_url_in_tx}
use idem_ledger.Store.Outbox.{insert_outbox_event_in_tx}
use idem_ledger.Ledger.{created, execute, Request}
use idem_ledger.Store.Accounts.{by_id}
use idem_ledger.Api.{conditional_update, post_transfers}
use idem_ledger.Api.Replays.{OnlyReplays, post_transfers-OnlyReplays}
use idem_ledger.Ledger.LockOrder.{lock_accounts-lock_order}
use idem_ledger.Ledger.Strategies.{
  execute_with_for_update, execute_optimistic, lock_accounts, lock_order,
}
use idem_ledger.Ledger.Attempt.{IsStored}
use idem_ledger.Ledger.Execute.{HasIds, Outcomes, execute-Ended}
use idem_ledger.Ledger.ForUpdate.{execute_with_for_update-Ended}
use idem_ledger.Ledger.Optimistic.{OptimisticOutcomes, execute_optimistic-Ended}
use idem_ledger.Guarantees.Replay.{IsDone, Replays, transfers-Replays, execute-IsStored}
use idem_ledger.Tests.Data.{env, start, request, two_accounts}

pub two_accounts-HasIds : HasIds two_accounts
two_accounts-HasIds = (omega arith, (omega arith, tt))

abbrev pub keyed : Request
keyed = request (pos 200) "k"

-- The ledger that a call with the key leaves.
abbrev pub once : World
once = (execute env keyed start).1

once-HasIds : HasIds once.committed
unfolding execute ◌>>=◌ in_tx begin commit draw map_error in_transaction select exists_row update
    count_rows fits_bigint ◌+ℤ◌ ◌-ℤ◌ claim_in_tx select_currencies update_accounts insert_transfer
    insert_postings get_webhook_url_in_tx insert_outbox_event_in_tx complete
once-HasIds = (omega arith, (omega arith, tt))

abbrev stored_row : KeyRow
stored_row = record {
  key = "k";
  request_hash = "hash";
  status = done;
  response_code = some 201;
  response_body = "{a transfer}";
  claimed_at = 1000;
}

once-IsDone : IsDone "k" once.committed
unfolding execute ◌>>=◌ in_tx begin commit draw map_error in_transaction select exists_row update
    count_rows fits_bigint ◌+ℤ◌ ◌-ℤ◌ claim_in_tx select_currencies update_accounts insert_transfer
    insert_postings get_webhook_url_in_tx insert_outbox_event_in_tx complete
once-IsDone = (stored_row, refl, refl)

execute-Ended_example : Outcomes env keyed two_accounts (execute env keyed start)
execute-Ended_example = execute-Ended env keyed start two_accounts-HasIds

execute_with_for_update-Ended_example :
    Outcomes env keyed two_accounts (execute_with_for_update env keyed start)
execute_with_for_update-Ended_example =
    execute_with_for_update-Ended env keyed start two_accounts-HasIds

execute_optimistic-Ended_example :
    OptimisticOutcomes env
      (request (pos 200) "")
      two_accounts
      (execute_optimistic env (request (pos 200) "") start)
execute_optimistic-Ended_example =
    execute_optimistic-Ended env (request (pos 200) "") start two_accounts-HasIds

transfers-Replays_example :
    Replays keyed once.committed (execute env keyed once)
    × Replays keyed once.committed (execute_with_for_update env keyed once)
transfers-Replays_example = transfers-Replays env keyed once once-HasIds refl once-IsDone

abbrev pub new_transfer : Transfer
new_transfer = transfer_row 100 "k" (pos 200) "INR" 1 2 1000

pub once-created : execute env keyed start ≡ (ok (created new_transfer), once)
unfolding execute ◌>>=◌ in_tx begin commit draw map_error in_transaction select exists_row update
    count_rows fits_bigint ◌+ℤ◌ ◌-ℤ◌ claim_in_tx select_currencies update_accounts insert_transfer
    insert_postings get_webhook_url_in_tx insert_outbox_event_in_tx complete
once-created = refl

execute-IsStored_example :
    (body : String) × (env.marshal new_transfer ≡ some body)
    × IsStored keyed (record { code = 201; body = env.jsonb body }) once.committed
execute-IsStored_example =
    execute-IsStored env keyed start new_transfer once two_accounts-HasIds refl once-created

knows_two : exists_row (by_id 2) two_accounts.accounts ≡ true
unfolding exists_row
knows_two = refl

knows_one : exists_row (by_id 1) two_accounts.accounts ≡ true
unfolding exists_row
knows_one = refl

lock_accounts-lock_order_example :
    (lo hi : ℕ) × (lo < hi)
    × (lock_accounts (lock_order 2 1) 0 two_accounts ≡ ok (lo ∷ hi ∷ [], two_accounts))
    × (lock_accounts (lock_order 1 2) 0 two_accounts ≡ ok (lo ∷ hi ∷ [], two_accounts))
lock_accounts-lock_order_example =
    lock_accounts-lock_order 2 1 0 two_accounts two_accounts-HasIds (λ h. absurd (cc)) knows_two
      knows_one

-- A retry of the request whose key is done, by a client that sends another body.
post_transfers-OnlyReplays_example : OnlyReplays once.committed (
    post_transfers
      (λ text. some text)
      (λ text. some text)
      (λ text. text)
      (λ text.
        some (record { from_account = 1; to_account = 2; amount = pos 200; currency = "inr" }))
      (λ text. "INR")
      env
      conditional_update
      "k"
      (some "hash")
      once)
post_transfers-OnlyReplays_example =
    post_transfers-OnlyReplays (λ text. some text) (λ text. some text) (λ text. text)
      (λ text.
        some (record { from_account = 1; to_account = 2; amount = pos 200; currency = "inr" }))
      (λ text. "INR") env conditional_update "k" once once-HasIds refl once-IsDone (some "hash")
