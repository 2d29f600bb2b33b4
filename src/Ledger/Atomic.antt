-- ===== src/Ledger/Atomic.antt =====
-- Before its COMMIT a transfer changes nothing that another session sees, however it ends.
use idem_ledger.Base.{ℕ, String, Option, none, some, arith}
use idem_ledger.Base.Int.{ℤ}
use idem_ledger.Db.{Error, Transfer}
use idem_ledger.Server.Keeps.{Keeps, keeping}
use idem_ledger.Idempotency.Atomic.{claim_in_tx-Keeps, complete-Keeps}
use idem_ledger.Ledger.Debit.{DebitFn, debit_conditional_update, debit_select_for_update}
use idem_ledger.Ledger.{
  Env, Request, insert_transfer_and_postings, transfer_key, announce, credit, exec_tx_with_debit,
  claim_request, record_response, store_response,
}
use idem_ledger.Store.Accounts.{or_raise, get_webhook_url_in_tx}
use idem_ledger.Store.Outbox.{insert_outbox_event_in_tx}

pub or_raise-Keeps : {A : Type 0} (o : Option A) (e : Error) → Keeps (or_raise o e)
or_raise-Keeps none e = search (keeping)
or_raise-Keeps (some a) e = search (keeping)

pub debit_conditional_update-Keeps :
    (from : ℕ) (amount : ℤ) → Keeps (debit_conditional_update from amount)
unfolding debit_conditional_update
debit_conditional_update-Keeps from amount = search (keeping)

pub debit_select_for_update-Keeps :
    (from : ℕ) (amount : ℤ) → Keeps (debit_select_for_update from amount)
unfolding debit_select_for_update
debit_select_for_update-Keeps from amount = search (keeping, or_raise-Keeps) depth 9

get_webhook_url_in_tx-Keeps : (id : ℕ) → Keeps (get_webhook_url_in_tx id)
unfolding get_webhook_url_in_tx
get_webhook_url_in_tx-Keeps id = search (keeping)

insert_outbox_event_in_tx-Keeps :
    (uuid : ℕ → ℕ) (kind payload : String) (url : Option String)
    → Keeps (insert_outbox_event_in_tx uuid kind payload url)
unfolding insert_outbox_event_in_tx
insert_outbox_event_in_tx-Keeps uuid kind payload url = search (keeping)

module _ (env : Env) where
  transfer_key-Keeps : (req : Request) → Keeps (transfer_key env req)
  unfolding transfer_key
  transfer_key-Keeps req = record { kept = λ w. ground arith }

  announce-Keeps : (req : Request) (t : Transfer) → Keeps (announce env req t)
  unfolding announce
  announce-Keeps req t =
      search (keeping, or_raise-Keeps, get_webhook_url_in_tx-Keeps, insert_outbox_event_in_tx-Keeps)

  pub insert_transfer_and_postings-Keeps :
      (req : Request) → Keeps (insert_transfer_and_postings env req)
  unfolding insert_transfer_and_postings
  insert_transfer_and_postings-Keeps req =
      search (keeping, transfer_key-Keeps, announce-Keeps) depth 12

  credit-Keeps : (req : Request) → Keeps (credit env req)
  unfolding credit
  credit-Keeps req = search (keeping)

  pub exec_tx_with_debit-Keeps :
      (debit : DebitFn) (req : Request)
      → ((from : ℕ) (amount : ℤ) → Keeps (debit from amount))
      → Keeps (exec_tx_with_debit env debit req)
  unfolding exec_tx_with_debit
  exec_tx_with_debit-Keeps debit req h =
      search (keeping, or_raise-Keeps, credit-Keeps, insert_transfer_and_postings-Keeps) depth 12

  pub claim_request-Keeps : (req : Request) → Keeps (claim_request env req)
  unfolding claim_request
  claim_request-Keeps req = search (keeping, claim_in_tx-Keeps)

  pub record_response-Keeps : (req : Request) (t : Transfer) → Keeps (record_response env req t)
  unfolding record_response store_response
  record_response-Keeps req t = search (keeping, or_raise-Keeps, complete-Keeps)
