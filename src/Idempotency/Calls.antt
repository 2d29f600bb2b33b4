-- ===== src/Idempotency/Calls.antt =====
-- How many calls of the server a claim and its completion make.
use idem_ledger.Base.{ℕ, Option, none, some, String, arith}
use idem_ledger.Db.{KeyRow, KeyStatus, claimed, done}
use idem_ledger.Server.Calls.{
  Calls, pure-Calls, raise-Calls, raise_if-Calls, in_tx-Calls, at_most, if-Calls, >>=-Calls,
}
use idem_ledger.Idempotency.{is_stale, steal, reply_of, examine, read_claim, claim_in_tx, complete}

is_stale-Calls : (r : KeyRow) → Calls 0 (is_stale r)
unfolding is_stale
is_stale-Calls r = record { spent = λ w. omega arith }

reply_of-Calls : (body : String) (code : Option ℕ) → Calls 0 (reply_of body code)
unfolding reply_of
reply_of-Calls body none = raise-Calls _
reply_of-Calls body (some c) = pure-Calls _

steal-Calls : (key hash : String) → Calls 1 (steal key hash)
unfolding steal
steal-Calls key hash =
    >>=-Calls 1 0 _ _ (in_tx-Calls _) (λ n. if-Calls 0 _ _ _ (pure-Calls _) (raise-Calls _))

examine-Calls : (key hash : String) (r : KeyRow) (st : KeyStatus) → Calls 1 (examine key hash r st)
unfolding examine
examine-Calls key hash r claimed =
    >>=-Calls 0 1 _ _ (is_stale-Calls r) (λ stale.
      if-Calls 1 _ _ _ (steal-Calls key hash) (at_most 1 0 _ (omega arith) (raise-Calls _)))
examine-Calls key hash r done =
    at_most 1 0 _ (omega arith) (reply_of-Calls r.response_body r.response_code)

pub claim_in_tx-Calls : (key hash : String) → Calls 3 (claim_in_tx key hash)
unfolding claim_in_tx read_claim
claim_in_tx-Calls key hash = >>=-Calls 1 2 _ _ (in_tx-Calls _) (λ n.
    if-Calls 2 _ _ _ (at_most 2 0 _ (omega arith) (pure-Calls _)) (
      >>=-Calls 1 1 _ _ (in_tx-Calls _)
        (λ r. >>=-Calls 0 1 _ _ (raise_if-Calls _ _) (λ _. examine-Calls key hash r r.status))))

pub complete-Calls : (key : String) (code : ℕ) (body : String) → Calls 1 (complete key code body)
unfolding complete
complete-Calls key code body = >>=-Calls 1 0 _ _ (in_tx-Calls _) (λ _. pure-Calls _)
