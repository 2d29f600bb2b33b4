-- ===== src/Guarantees/Once.antt =====
-- A transfer with an idempotency key is made at most once, whatever other calls fall between its retries.
use idem_ledger.Base.{
  ◌≡◌, ◌⊎◌, inl, inr, sym, subst, String, true, not, arith, select, str_eq, Option-cases,
}
use idem_ledger.Base.Int.{ℤ}
use idem_ledger.Db.{Db, Account, Result}
use idem_ledger.Server.{World}
use idem_ledger.Idempotency.{has_key}
use idem_ledger.Ledger.Attempt.{Ended, failed, answered, posted, unheard, StoredAnswer}
use idem_ledger.Ledger.Execute.{HasIds, Outcomes, execute-Ended}
use idem_ledger.Ledger.Rows.{debit_row}
use idem_ledger.Ledger.Sound.{debit_row-IsDebitRow, Posted-HasIds}
use idem_ledger.Ledger.Strategies.{execute_with_for_update}
use idem_ledger.Ledger.{Env, Request, Answer, created, is_keyed, execute}
use idem_ledger.Guarantees.{Reachable, started, called}
use idem_ledger.Guarantees.Effects.{Call-Effect}
use idem_ledger.Guarantees.Sound.{Effect-HasIds}
use idem_ledger.Guarantees.Contract.{view, Allowed-answered}
use idem_ledger.Guarantees.Refines.{Call-Allowed}
use idem_ledger.Guarantees.Replay.{
  IsDone, Commits-IsStored, execute-Replays, execute_with_for_update-Replays,
}

-- Whatever came of a call, if it changed the tables then its key is done.
Ended-IsDone :
    (env : Env) (f : ℤ → Account → Account) (req : Request) (d : Db) {x : Result Answer × World}
    → is_keyed req ≡ true
    → Ended env f req created (StoredAnswer req) d x
    → (x.1.committed ≡ d) ⊎ IsDone req.idempotency_key x.1.committed
Ended-IsDone env f req d keyed (failed e w c) = inl c
Ended-IsDone env f req d keyed (answered a w c i) = inl c
Ended-IsDone env f req d keyed (posted t w c) =
    let (body, m, i) = Commits-IsStored env f req t d w.committed keyed c in
    inr (i.row, i.found, i.finished)
Ended-IsDone env f req d keyed (unheard t w c) =
    let (body, m, i) = Commits-IsStored env f req t d w.committed keyed c in
    inr (i.row, i.found, i.finished)

Ended-HasIds :
    (env : Env) (req : Request) (d : Db) {x : Result Answer × World}
    → HasIds d
    → Outcomes env req d x
    → HasIds x.1.committed
Ended-HasIds env req d b (failed e w c) = subst HasIds (sym c) b
Ended-HasIds env req d b (answered a w c i) = subst HasIds (sym c) b
Ended-HasIds env req d b (posted t w c) =
    Posted-HasIds env debit_row req t d b debit_row-IsDebitRow c.posted
Ended-HasIds env req d b (unheard t w c) =
    Posted-HasIds env debit_row req t d b debit_row-IsDebitRow c.posted

answered-IsDone : (key : String) (d : Db) → (view d).answered key ≡ true → IsDone key d
answered-IsDone key d h = elim (Option-cases (select (has_key key) d.keys)) [
  | inl e ↦ absurd (ground arith)
  | inr (r, e) ↦ (r, e, ground arith)
]

-- No call makes an answered key new, or gives an account id twice.
Reachable-answered :
    (env : Env) (key : String) {d d' : Db}
    → HasIds d
    → (view d).answered key ≡ true
    → Reachable env d d'
    → HasIds d' × ((view d').answered key ≡ true)
Reachable-answered env key b a started = (b, a)
Reachable-answered env key b a (called r c) =
    let (b', a') = Reachable-answered env key b a r in
    (Effect-HasIds (Call-Effect env c b') b', Allowed-answered key (Call-Allowed env c b') a')

-- A call of `Execute` with a key either leaves the tables alone, or it has answered the key for good. After
-- any history of calls from the tables that it left (transfers by every strategy, with this key or another,
-- account openings, webhook changes, polls, with any answers of the server and the merchants), no call of
-- `Execute` or `ExecuteWithForUpdate` with that key changes the tables, whatever else its request holds. The
-- account ids must be distinct and below the identity sequence at first.
pub at_most_once :
    (env : Env) (req req' : Request) (w v : World)
    → HasIds w.committed
    → is_keyed req ≡ true
    → Reachable env (execute env req w).1.committed v.committed
    → req'.idempotency_key ≡ req.idempotency_key
    → ((execute env req w).1.committed ≡ w.committed)
      ⊎ (((execute env req' v).1.committed ≡ v.committed)
          × ((execute_with_for_update env req' v).1.committed ≡ v.committed))
at_most_once env req req' w v b keyed history same_key =
    let ended = execute-Ended env req w b in
    elim (Ended-IsDone env _ req w.committed keyed ended) [
      | inl same ↦ inl same
      | inr (r, sel, st) ↦
          let (ids, stays) =
            Reachable-answered env req.idempotency_key (Ended-HasIds env req w.committed b ended)
              (ground arith) history in
          let known =
            subst (λ k. IsDone k v.committed) (sym same_key)
              (answered-IsDone req.idempotency_key v.committed stays) in
          let keyed' = subst (λ k. not (str_eq k "") ≡ true) (sym same_key) keyed in
          inr (
            (execute-Replays env req' v ids keyed' known).0,
            (execute_with_for_update-Replays env req' v ids keyed' known).0,
          )
    ]
