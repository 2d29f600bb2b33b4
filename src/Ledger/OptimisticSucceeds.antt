-- ===== src/Ledger/OptimisticSucceeds.antt =====
-- A transfer by ExecuteOptimistic that can be made, in a session whose calls are answered.
use idem_ledger.Base.{◌≡◌, refl, subst, [], arith}
use idem_ledger.Db.{Db, Transfer, Result, ok}
use idem_ledger.Server.{World, rollback}
use idem_ledger.Server.Fine.{then_do, begin-calm, commit-calm, map_error-run, in_transaction-run}
use idem_ledger.Ledger.Attempt.{Commits, failed, answered, posted, unheard}
use idem_ledger.Ledger.Execute.{HasIds}
use idem_ledger.Ledger.Optimistic.{OptimisticOutcomes, execute_optimistic-Ended}
use idem_ledger.Ledger.Strategies.{
  debit_versioned_row, optimistic_work, optimistic_once, execute_optimistic,
}
use idem_ledger.Ledger.{Env, Request}
use idem_ledger.Ledger.Succeeds.{attempts-run}
use idem_ledger.Ledger.Movable.{IsMovable, new_row, after_event, transfer-run}

module _ (env : Env) (req : Request) where
  work-run :
      (w : World)
      → w.tape ≡ []
      → HasIds w.committed
      → IsMovable env req w.drawn w.committed
      → (t : Transfer) × (v : World) × (optimistic_once env req w ≡ (ok t, v))
  unfolding optimistic_once optimistic_work
  work-run w calm b r =
      let w1 : World = record w { db = w.committed } in
      let t = new_row env req w1 calm b r in
      let v = after_event env req w1 calm b r in
      let u : World = record v { committed = v.db } in
      (
        t,
        rollback u,
        in_transaction-run _ w (
            then_do _ _ w (begin-calm w calm) (
              then_do _ _ w1 (transfer-run env req w1 calm b r)
                (then_do _ _ v (map_error-run _ _ v (commit-calm v calm)) refl))),
      )

  -- A call that answers has committed the transfer that it answers with.
  answer-Commits :
      (d : Db) {x : Result Transfer × World} (t : Transfer) (w : World)
      → x ≡ (ok t, w)
      → OptimisticOutcomes env req d x
      → Commits env debit_versioned_row req t d w.committed
  answer-Commits d t w h (failed e v c) = absurd (cc)
  answer-Commits d t w h (answered u v c i) = absurd i
  answer-Commits d t w h (posted u v c) =
      let same : u ≡ t = cc in
      let there : v ≡ w = cc in
      subst (λ z. Commits env debit_versioned_row req z d w.committed) same
        (subst (λ (z : World). Commits env debit_versioned_row req u d z.committed) there c)
  answer-Commits d t w h (unheard u v c) = absurd (cc)

  -- Where every call is answered, the account ids are distinct and below the sequence, and the request is
  -- valid and has no key, the first account covers the amount, the second has room for it and the drawn
  -- identifiers are new: `ExecuteOptimistic` returns the new transfer and has committed it, whatever the
  -- currencies of the two accounts are.
  pub execute_optimistic_succeeds :
      (w : World)
      → w.tape ≡ []
      → HasIds w.committed
      → IsMovable env req w.drawn w.committed
      → (t : Transfer) × (w' : World) × (execute_optimistic env req w ≡ (ok t, w'))
        × Commits env debit_versioned_row req t w.committed w'.committed
  unfolding execute_optimistic
  execute_optimistic_succeeds w calm b r =
      let (t, v, done) = work-run w calm b r in
      let k = r.unkeyed in
      let whole =
        then_do _ _ w (ground arith) (attempts-run env req 4 (optimistic_once env req) w done) in
      (t, v, whole, answer-Commits w.committed t v whole (execute_optimistic-Ended env req w b))
