-- ===== src/Ledger/Calls.antt =====
-- How many calls of the server a transfer makes (internal/ledger, internal/idempotency).
use idem_ledger.Base.{ℕ, Option, none, some, String, arith}
use idem_ledger.Base.Int.{ℤ}
use idem_ledger.Db.{Account, Error, Transfer}
use idem_ledger.Server.Calls.{
  Calls, pure-Calls, raise-Calls, raise_if-Calls, in_tx-Calls, draw-Calls, begin-Calls,
  commit-Calls, at_most, map_error-Calls, in_transaction-Calls, if-Calls, >>=-Calls,
}
use idem_ledger.Idempotency.{Claim, won, replay}
use idem_ledger.Idempotency.Calls.{claim_in_tx-Calls, complete-Calls}
use idem_ledger.Store.Accounts.{or_raise, get_webhook_url_in_tx}
use idem_ledger.Store.Outbox.{insert_outbox_event_in_tx}
use idem_ledger.Ledger.Debit.{DebitFn, debit_conditional_update, debit_select_for_update}
use idem_ledger.Ledger.Strategies.{
  for_update_work, for_update_once, optimistic_update, optimistic_transfer, optimistic_work,
  optimistic_once,
}
use idem_ledger.Ledger.{
  Env, Request, insert_transfer_and_postings, transfer_key, announce, credit, exec_tx_with_debit,
  claim_request, record_response, store_response, finish_once, execute_once,
}

or_raise-Calls : {A : Type 0} (o : Option A) (e : Error) → Calls 0 (or_raise o e)
or_raise-Calls none e = raise-Calls e
or_raise-Calls (some a) e = pure-Calls a

debit_conditional_update-Calls :
    (from : ℕ) (amount : ℤ) → Calls 2 (debit_conditional_update from amount)
unfolding debit_conditional_update
debit_conditional_update-Calls from amount = >>=-Calls 1 1 _ _ (in_tx-Calls _) (λ n.
    if-Calls 1 _ _ _ (>>=-Calls 1 0 _ _ (in_tx-Calls _) (λ k. raise-Calls _))
      (at_most 1 0 _ (omega arith) (pure-Calls _)))

debit_select_for_update-Calls :
    (from : ℕ) (amount : ℤ) → Calls 2 (debit_select_for_update from amount)
unfolding debit_select_for_update
debit_select_for_update-Calls from amount = >>=-Calls 1 1 _ _ (in_tx-Calls _) (λ row.
    >>=-Calls 0 1 _ _ (or_raise-Calls row _) (λ a.
      >>=-Calls 0 1 _ _ (raise_if-Calls _ _)
        (λ _. >>=-Calls 1 0 _ _ (in_tx-Calls _) (λ _. pure-Calls _))))

get_webhook_url_in_tx-Calls : (id : ℕ) → Calls 1 (get_webhook_url_in_tx id)
unfolding get_webhook_url_in_tx
get_webhook_url_in_tx-Calls id = >>=-Calls 1 0 _ _ (in_tx-Calls _) (λ _. pure-Calls _)

insert_outbox_event_in_tx-Calls :
    (uuid : ℕ → ℕ) (kind payload : String) (url : Option String)
    → Calls 1 (insert_outbox_event_in_tx uuid kind payload url)
unfolding insert_outbox_event_in_tx
insert_outbox_event_in_tx-Calls uuid kind payload url =
    >>=-Calls 0 1 _ _ (draw-Calls uuid) (λ id. in_tx-Calls _)

module _ (env : Env) (req : Request) where
  transfer_key-Calls : Calls 0 (transfer_key env req)
  unfolding transfer_key
  transfer_key-Calls = record { spent = λ w. ground arith }

  announce-Calls : (t : Transfer) → Calls 2 (announce env req t)
  unfolding announce
  announce-Calls t = >>=-Calls 1 1 _ _ (get_webhook_url_in_tx-Calls _) (λ url.
      >>=-Calls 0 1 _ _ (or_raise-Calls _ _) (λ body. insert_outbox_event_in_tx-Calls _ _ _ _))

  insert_transfer_and_postings-Calls : Calls 4 (insert_transfer_and_postings env req)
  unfolding insert_transfer_and_postings
  insert_transfer_and_postings-Calls = >>=-Calls 0 4 _ _ transfer_key-Calls (λ key.
      >>=-Calls 0 4 _ _ (draw-Calls _) (λ id.
        >>=-Calls 1 3 _ _ (map_error-Calls 1 _ _ (in_tx-Calls _)) (λ t.
          >>=-Calls 1 2 _ _ (in_tx-Calls _)
            (λ _. >>=-Calls 2 0 _ _ (announce-Calls t) (λ _. pure-Calls t)))))

  credit-Calls : Calls 1 (credit env req)
  unfolding credit
  credit-Calls = >>=-Calls 1 0 _ _ (in_tx-Calls _) (λ n. raise_if-Calls _ _)

  exec_tx_with_debit-Calls :
      (debit : DebitFn)
      → Calls 2 (debit req.from_account req.amount)
      → Calls 8 (exec_tx_with_debit env debit req)
  unfolding exec_tx_with_debit
  exec_tx_with_debit-Calls debit c = >>=-Calls 1 7 _ _ (in_tx-Calls _) (λ row.
      >>=-Calls 0 7 _ _ (or_raise-Calls row _) (λ (from_curr, to_curr).
        >>=-Calls 0 7 _ _ (raise_if-Calls _ _) (λ _.
          >>=-Calls 2 5 _ _ c
            (λ _. >>=-Calls 1 4 _ _ credit-Calls (λ _. insert_transfer_and_postings-Calls)))))

  claim_request-Calls : Calls 3 (claim_request env req)
  unfolding claim_request
  claim_request-Calls =
      if-Calls 3 _ _ _ (claim_in_tx-Calls _ _) (at_most 3 0 _ (omega arith) (pure-Calls won))

  record_response-Calls : (t : Transfer) → Calls 1 (record_response env req t)
  unfolding record_response store_response
  record_response-Calls t =
      if-Calls 1 _ _ _ (>>=-Calls 0 1 _ _ (or_raise-Calls _ _) (λ body. complete-Calls _ _ _))
        (at_most 1 0 _ (omega arith) (pure-Calls _))

  finish_once-Calls : (c : Claim) → Calls 10 (finish_once env req c)
  unfolding finish_once
  finish_once-Calls (replay stored) = at_most 10 0 _ (omega arith) (pure-Calls _)
  finish_once-Calls won =
      >>=-Calls 8 2 _ _
        (exec_tx_with_debit-Calls debit_conditional_update (debit_conditional_update-Calls _ _))
        (λ t.
          >>=-Calls 1 1 _ _ (record_response-Calls t)
            (λ _. >>=-Calls 1 0 _ _ commit-Calls (λ _. pure-Calls _)))

  pub execute_once-Calls : Calls 14 (execute_once env req)
  unfolding execute_once
  execute_once-Calls = in_transaction-Calls 14 _ (
      >>=-Calls 1 13 _ _ begin-Calls
        (λ _. >>=-Calls 3 10 _ _ claim_request-Calls finish_once-Calls))

  for_update_work-Calls : (c : Claim) → Calls 11 (for_update_work env req c)
  unfolding for_update_work
  for_update_work-Calls (replay stored) = at_most 11 0 _ (omega arith) (pure-Calls _)
  for_update_work-Calls won = >>=-Calls 1 10 _ _ (map_error-Calls 1 _ _ (in_tx-Calls _)) (λ ids.
      >>=-Calls 8 2 _ _
        (map_error-Calls 8 _ _
          (exec_tx_with_debit-Calls debit_select_for_update (debit_select_for_update-Calls _ _)))
        (λ t.
          >>=-Calls 1 1 _ _ (record_response-Calls t)
            (λ _. >>=-Calls 1 0 _ _ (map_error-Calls 1 _ _ commit-Calls) (λ _. pure-Calls _))))

  pub for_update_once-Calls : Calls 15 (for_update_once env req)
  unfolding for_update_once
  for_update_once-Calls = in_transaction-Calls 15 _ (
      >>=-Calls 1 14 _ _ begin-Calls
        (λ _. >>=-Calls 3 11 _ _ (map_error-Calls 3 _ _ claim_request-Calls) for_update_work-Calls))

  optimistic_update-Calls : (a : Account) → Calls 6 (optimistic_update env req a)
  unfolding optimistic_update
  optimistic_update-Calls a = >>=-Calls 1 5 _ _ (map_error-Calls 1 _ _ (in_tx-Calls _)) (λ n.
      >>=-Calls 0 5 _ _ (raise_if-Calls _ _) (λ _.
        >>=-Calls 1 4 _ _ (map_error-Calls 1 _ _ (in_tx-Calls _))
          (λ m. >>=-Calls 0 4 _ _ (raise_if-Calls _ _) (λ _. insert_transfer_and_postings-Calls))))

  pub optimistic_once-Calls : Calls 9 (optimistic_once env req)
  unfolding optimistic_once optimistic_work optimistic_transfer
  optimistic_once-Calls = in_transaction-Calls 9 _ (
      >>=-Calls 1 8 _ _ begin-Calls (λ _.
        >>=-Calls 7 1 _ _
          (>>=-Calls 1 6 _ _ (in_tx-Calls _) (λ row.
            >>=-Calls 0 6 _ _ (or_raise-Calls row _)
              (λ a. >>=-Calls 0 6 _ _ (raise_if-Calls _ _) (λ _. optimistic_update-Calls a))))
          (λ t. >>=-Calls 1 0 _ _ (map_error-Calls 1 _ _ commit-Calls) (λ _. pure-Calls t))))
