-- ===== src/Ledger.antt =====
-- internal/ledger/transfer.go: a transfer as one transaction, with the debit strategy as an
-- argument, and `Execute`, which runs it with Fix A.
pub mod Rows
pub mod Debit
pub mod Strategies
pub mod Effect
pub mod Atomic
pub mod Posted
pub mod Attempt
pub mod Keyed
pub mod Execute
pub mod ForUpdate
pub mod Sound
pub mod Optimistic
pub mod Calls
pub mod Ends
pub mod LockOrder
pub mod Covers
pub mod Journal
pub mod Ready
pub mod Succeeds
pub mod LockedSucceeds
pub mod Movable
pub mod OptimisticSucceeds
pub mod Refusals
pub mod Refuses
use idem_ledger.Base.{
  ℕ, zero, suc, ◌+◌, String, len, Bool, true, false, not, ◌||◌, Option, none, some, ◌==◌,
  if◌then◌else◌, str_eq,
}
use idem_ledger.Base.Int.{ℤ, pos, ◌-ℤ◌, leb_ℤ}
use idem_ledger.Db.{
  Transfer, StoredResponse, Error, Result, ok, err, is_retriable_conflict, again, account_not_found,
  currency_mismatch, invalid_amount, same_account, invalid_currency, pg, foreign_key,
  marshal_failed, too_many_retries,
}
use idem_ledger.Server.{
  World, Action, pure, raise, raise_if, ◌>>=◌, ◌>>◌, in_tx, begin, commit, draw, map_error,
  in_transaction,
}
use idem_ledger.Store.Accounts.{by_id, or_raise, get_webhook_url_in_tx}
use idem_ledger.Store.Outbox.{insert_outbox_event_in_tx}
use idem_ledger.Idempotency.{Claim, won, replay, claim_in_tx, complete}
use Rows.{select_currencies, credit_row, update_accounts, insert_transfer, insert_postings}
use Debit.{DebitFn, debit_conditional_update}

-- The packages that the program calls: github.com/google/uuid (and the server's gen_random_uuid) as
-- the sequence of values that will be drawn, encoding/json on a `Transfer`, and the text that
-- a JSONB column gives back for the text that was put in.
pub record Env : Type 0 where
  pub uuid : ℕ → ℕ
  pub uuid_text : ℕ → String
  pub marshal : Transfer → Option String
  pub jsonb : String → String

-- TransferRequest
pub record Request : Type 0 where
  pub from_account : ℕ
  pub to_account : ℕ
  pub amount : ℤ
  pub currency : String
  pub idempotency_key : String
  pub request_hash : String

-- What a call returns without an error: the new transfer, or the stored response of an earlier one.
pub data Answer : Type 0 where
  created : Transfer → Answer
  replayed : StoredResponse → Answer

abbrev pub is_keyed : Request → Bool
is_keyed req = not (str_eq req.idempotency_key "")

-- A violated reference (23503) is reported as a missing account.
abbrev pub dangling_is_missing : Error → Error
dangling_is_missing (pg foreign_key) = account_not_found
dangling_is_missing e = e

-- The `continue` after a retriable error.
abbrev pub again_if_conflict : Error → Error
again_if_conflict e = if is_retriable_conflict e then again else e

abbrev pub retriable : {A : Type 0} → Action A → Action A
retriable = map_error again_if_conflict

-- for attempt := 0; attempt < n; attempt++: the attempt is made again after a `continue`.
unfoldable pub attempts : {A : Type 0} → ℕ → Action A → Action A
attempts zero m w = (err too_many_retries, w)
attempts (suc n) m w =
    let (r, w') = m w in
    let rest = attempts n m w' in elim r [ err again ↦ rest | other ↦ (other, w') ]

abbrev pub max_deadlock_retries : ℕ
max_deadlock_retries = 5

-- The guards of `Execute`, in their order.
unfoldable pub validate : Request → Action (Unit {0})
validate req = do
  raise_if (leb_ℤ req.amount (pos 0)) invalid_amount
  raise_if (req.from_account == req.to_account) same_account
  raise_if (not (len req.currency == 3)) invalid_currency

module _ (env : Env) where
  pub transfer_key : Request → Action String
  transfer_key req w =
      if is_keyed req
      then (ok req.idempotency_key, w)
      else (ok (env.uuid_text (env.uuid w.drawn)), record w { drawn = w.drawn + 1 })

  -- The outbox event, with the address that the destination has now.
  announce : Request → Transfer → Action (Unit {0})
  announce req t = do
    url ← get_webhook_url_in_tx req.to_account
    payload ← or_raise (env.marshal t) marshal_failed
    insert_outbox_event_in_tx env.uuid "transfer.created" (env.jsonb payload) url

  -- insertTransferAndPostings
  unfoldable pub insert_transfer_and_postings : Request → Action Transfer
  unfolding transfer_key announce
  insert_transfer_and_postings req = do
    key ← transfer_key req
    id ← draw env.uuid
    t ←
        map_error dangling_is_missing
          (in_tx (insert_transfer id key req.amount req.currency req.from_account req.to_account))
    in_tx (insert_postings t.id req.from_account (pos 0 -ℤ req.amount) req.to_account req.amount)
    announce req t
    pure t

  -- UPDATE accounts SET balance = balance + $1, and the test of the rows affected.
  unfoldable pub credit : Request → Action (Unit {0})
  credit req = do
    n ← in_tx (update_accounts (by_id req.to_account) (credit_row req.amount))
    raise_if (n == 0) account_not_found

  -- execTxWithDebit
  unfoldable pub exec_tx_with_debit : DebitFn → Request → Action Transfer
  unfolding credit insert_transfer_and_postings
  exec_tx_with_debit debit req = do
    row ← in_tx (select_currencies req.from_account req.to_account)
    (from_curr, to_curr) ← or_raise row account_not_found
    raise_if (not (str_eq from_curr req.currency) || not (str_eq to_curr req.currency))
        currency_mismatch
    debit req.from_account req.amount
    credit req
    insert_transfer_and_postings req

  -- execTx
  abbrev pub exec_tx : Request → Action Transfer
  exec_tx = exec_tx_with_debit debit_conditional_update

  -- Without a key the request owns its work.
  unfoldable pub claim_request : Request → Action Claim
  claim_request req =
      if is_keyed req then claim_in_tx req.idempotency_key req.request_hash else pure won

  store_response : String → Transfer → Action (Unit {0})
  store_response key t = do
    body ← or_raise (env.marshal t) marshal_failed
    complete key 201 (env.jsonb body)

  -- The response is recorded in the transaction, with status 201.
  unfoldable pub record_response : Request → Transfer → Action (Unit {0})
  unfolding store_response
  record_response req t = if is_keyed req then store_response req.idempotency_key t else pure tt

  finish_once : Request → Claim → Action Answer
  unfolding exec_tx_with_debit debit_conditional_update record_response
  finish_once req (replay stored) = pure (replayed stored)
  finish_once req won = do t ← exec_tx req; record_response req t; commit; pure (created t)

  -- executeOnce
  unfoldable pub execute_once : Request → Action Answer
  unfolding finish_once claim_request
  execute_once req = in_transaction (begin >> (claim_request req >>= finish_once req))

  -- Execute
  unfoldable pub execute : Request → Action Answer
  unfolding execute_once attempts validate
  execute req = validate req >> attempts max_deadlock_retries (retriable (execute_once req))
