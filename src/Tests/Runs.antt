-- ===== src/Tests/Runs.antt =====
-- Runs of Execute and ExecuteWithForUpdate.
use idem_ledger.Base.{◌≡◌, refl, List, [], ◌∷◌, select, exists_row, update, count_rows, map}
use idem_ledger.Base.Int.{ℤ, pos, negsuc, ◌+ℤ◌, ◌-ℤ◌}
use idem_ledger.Db.{ok, err, insufficient_funds, duplicate_request, deadlock}
use idem_ledger.Server.{
  World, Reply, fine, fails, server, ◌>>=◌, in_tx, begin, commit, draw, map_error, in_transaction,
}
use idem_ledger.Idempotency.{claim_in_tx, complete}
use idem_ledger.Ledger.Rows.{
  fits_bigint, select_currencies, update_accounts, insert_transfer, insert_postings,
}
use idem_ledger.Store.Accounts.{get_webhook_url_in_tx}
use idem_ledger.Store.Outbox.{insert_outbox_event_in_tx}
use idem_ledger.Ledger.Debit.{debit_conditional_update, account_exists}
use idem_ledger.Ledger.{replayed, execute}
use idem_ledger.Ledger.Strategies.{execute_with_for_update, execute_optimistic}
use idem_ledger.Tests.Data.{env, start, request, world, two_accounts}

abbrev balances : World → List ℤ
balances w = map (λ a. a.balance) w.committed.accounts

abbrev amounts : World → List ℤ
amounts w = map (λ p. p.amount) w.committed.postings

-- The first call moves the money, and posts both sides.
moves_money :
    let w = (execute env (request (pos 200) "k") start).1 in
    (balances w ≡ pos 200 ∷ pos 300 ∷ []) × (amounts w ≡ pos 200 ∷ negsuc 199 ∷ [])
unfolding execute ◌>>=◌ in_tx begin commit draw map_error in_transaction select exists_row update
    count_rows fits_bigint ◌+ℤ◌ ◌-ℤ◌ claim_in_tx select_currencies update_accounts insert_transfer
    insert_postings get_webhook_url_in_tx insert_outbox_event_in_tx complete
moves_money = (refl, refl)

-- The second call with its key gives the stored response, and moves nothing.
abbrev once : World
once = (execute env (request (pos 200) "k") start).1

answers_again :
    (execute env (request (pos 200) "k") once).0
    ≡ ok (replayed (record { code = 201; body = "{a transfer}" }))
unfolding execute ◌>>=◌ in_tx begin commit draw map_error in_transaction select exists_row update
    count_rows fits_bigint ◌+ℤ◌ ◌-ℤ◌ claim_in_tx select_currencies update_accounts insert_transfer
    insert_postings get_webhook_url_in_tx insert_outbox_event_in_tx complete
answers_again = refl

refuses_other_hash :
    (execute env (record (request (pos 200) "k") { request_hash = "other" }) once).0
    ≡ err duplicate_request
unfolding execute ◌>>=◌ in_tx begin commit draw map_error in_transaction select exists_row update
    count_rows fits_bigint ◌+ℤ◌ ◌-ℤ◌ claim_in_tx select_currencies update_accounts insert_transfer
    insert_postings get_webhook_url_in_tx insert_outbox_event_in_tx complete
refuses_other_hash = refl

refuses_overdraft : (execute env (request (pos 501) "k") start).0 ≡ err insufficient_funds
unfolding execute ◌>>=◌ in_tx begin commit draw map_error in_transaction select exists_row update
    count_rows fits_bigint ◌+ℤ◌ ◌-ℤ◌ claim_in_tx select_currencies update_accounts insert_transfer
    insert_postings get_webhook_url_in_tx insert_outbox_event_in_tx complete
    debit_conditional_update account_exists
refuses_overdraft = refl

abbrev answers : List Reply
answers =
    record { outcome = fine; now = 5; wall = 5 }
    ∷ record { outcome = fine; now = 5; wall = 5 }
    ∷ record { outcome = fails (server deadlock); now = 5; wall = 5 }
    ∷ []

-- A deadlock at the third call is retried.
retries_deadlock :
    balances (execute env (request (pos 200) "k") (world two_accounts answers)).1
    ≡ pos 200 ∷ pos 300 ∷ []
unfolding execute ◌>>=◌ in_tx begin commit draw map_error in_transaction select exists_row update
    count_rows fits_bigint ◌+ℤ◌ ◌-ℤ◌ claim_in_tx select_currencies update_accounts insert_transfer
    insert_postings get_webhook_url_in_tx insert_outbox_event_in_tx complete
retries_deadlock = refl

locks_and_moves :
    balances (execute_with_for_update env (request (pos 200) "k") start).1 ≡ pos 200 ∷ pos 300 ∷ []
unfolding execute ◌>>=◌ in_tx begin commit draw map_error in_transaction select exists_row update
    count_rows fits_bigint ◌+ℤ◌ ◌-ℤ◌ claim_in_tx select_currencies update_accounts insert_transfer
    insert_postings get_webhook_url_in_tx insert_outbox_event_in_tx complete execute_with_for_update
locks_and_moves = refl

-- A transfer in a currency that neither account has.
skips_currency :
    balances (execute_optimistic env (record (request (pos 200) "") { currency = "USD" }) start).1
    ≡ pos 200 ∷ pos 300 ∷ []
unfolding ◌>>=◌ in_tx begin commit draw map_error in_transaction select exists_row update count_rows
    fits_bigint ◌+ℤ◌ ◌-ℤ◌ claim_in_tx select_currencies update_accounts insert_transfer
    insert_postings get_webhook_url_in_tx insert_outbox_event_in_tx complete execute_optimistic
skips_currency = refl
