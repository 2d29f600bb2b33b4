-- ===== src/Guarantees/Rivals.antt =====
-- Calls of other sessions between two statements of ExecuteOptimistic (internal/ledger/strategies.go):
-- after its SELECT, and before its UPDATE, the tables are those that the others have committed.
pub mod Later
pub mod Debits
pub mod Refused
use idem_ledger.Db.{Db}
use idem_ledger.Ledger.{Env}
use idem_ledger.Guarantees.{
  Call, creates, sets_webhook, executes, executes_for_update, executes_optimistic, polls,
}

-- No transfer by another strategy.
abbrev pub IsOptimistic : {env : Env} {d d' : Db} → Call env d d' → Type 0
IsOptimistic (creates name currency url w from there) = Unit {0}
IsOptimistic (sets_webhook id url w from there) = Unit {0}
IsOptimistic (executes req w from there) = ⊥
IsOptimistic (executes_for_update req w from there) = ⊥
IsOptimistic (executes_optimistic req w from there) = Unit {0}
IsOptimistic (polls m w from there) = Unit {0}

pub data Rivals (env : Env) (d : Db) : Db → Type 0 where
  alone : Rivals env d d
  joined : {e f : Db} → Rivals env d e → (c : Call env e f) → IsOptimistic c → Rivals env d f
