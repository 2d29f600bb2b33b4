-- ===== src/Idempotency/Atomic.antt =====
-- A claim and its completion change nothing that another session sees before the COMMIT.
use idem_ledger.Base.{ℕ, String, Option, none, some, refl}
use idem_ledger.Db.{KeyRow, KeyStatus, claimed, done}
use idem_ledger.Server.Keeps.{Keeps, keeping}
use idem_ledger.Idempotency.{is_stale, steal, reply_of, examine, read_claim, claim_in_tx, complete}

is_stale-Keeps : (r : KeyRow) → Keeps (is_stale r)
unfolding is_stale
is_stale-Keeps r = record { kept = λ w. refl }

steal-Keeps : (key hash : String) → Keeps (steal key hash)
unfolding steal
steal-Keeps key hash = search (keeping)

examine-Keeps : (key hash : String) (r : KeyRow) (st : KeyStatus) → Keeps (examine key hash r st)
unfolding examine reply_of
examine-Keeps key hash r claimed = search (keeping, is_stale-Keeps, steal-Keeps)
examine-Keeps key hash r done = reply (r.response_code)
  where
    reply : (code : Option ℕ) → Keeps (reply_of r.response_body code)
    reply none = record { kept = λ w. refl }
    reply (some c) = record { kept = λ w. refl }

read_claim-Keeps : (key hash : String) → Keeps (read_claim key hash)
unfolding read_claim
read_claim-Keeps key hash = search (keeping, examine-Keeps)

pub claim_in_tx-Keeps : (key hash : String) → Keeps (claim_in_tx key hash)
unfolding claim_in_tx
claim_in_tx-Keeps key hash = search (keeping, read_claim-Keeps)

pub complete-Keeps : (key : String) (code : ℕ) (body : String) → Keeps (complete key code body)
unfolding complete
complete-Keeps key code body = search (keeping)
