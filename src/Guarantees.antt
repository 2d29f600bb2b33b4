-- ===== src/Guarantees.antt =====
-- What the parts guarantee together: calls of the program, in any order and with any answers of the
-- server, and the committed tables that they lead to.
pub mod Effects
pub mod Sound
pub mod Reconciles
pub mod Announced
pub mod Keys
pub mod Rivals
pub mod Contract
pub mod Views
pub mod Refines
pub mod Replay
pub mod Once
use idem_ledger.Base.{ℕ, ◌≡◌, String, Option}
use idem_ledger.Db.{Db, empty_db}
use idem_ledger.Server.{World}
use idem_ledger.Store.Accounts.{create_account, set_webhook_url}
use idem_ledger.Ledger.{Env, Request, execute}
use idem_ledger.Outbox.{Merchant, poll}
use idem_ledger.Ledger.Strategies.{execute_with_for_update, execute_optimistic}

-- One call, in a session that finds the tables `d` and leaves the tables `d'`.
pub data Call (env : Env) (d d' : Db) : Type 0 where
  creates :
      (name currency : String) (url : Option String) (w : World)
      → w.committed ≡ d
      → (create_account name currency url w).1.committed ≡ d'
      → Call env d d'
  sets_webhook :
      (id : ℕ) (url : String) (w : World)
      → w.committed ≡ d
      → (set_webhook_url id url w).1.committed ≡ d'
      → Call env d d'
  executes :
      (req : Request) (w : World)
      → w.committed ≡ d
      → (execute env req w).1.committed ≡ d'
      → Call env d d'
  executes_for_update :
      (req : Request) (w : World)
      → w.committed ≡ d
      → (execute_with_for_update env req w).1.committed ≡ d'
      → Call env d d'
  executes_optimistic :
      (req : Request) (w : World)
      → w.committed ≡ d
      → (execute_optimistic env req w).1.committed ≡ d'
      → Call env d d'
  polls : (m : Merchant) (w : World) → w.committed ≡ d → (poll m w).1.committed ≡ d' → Call env d d'

-- The tables that some history of calls leads to, from `start`.
pub data Reachable (env : Env) (start : Db) : Db → Type 0 where
  started : Reachable env start start
  called : {d d' : Db} → Reachable env start d → Call env d d' → Reachable env start d'
