-- ===== src/Ledger/ForUpdate.antt =====
-- internal/ledger/strategies.go: how a call of `ExecuteWithForUpdate` may end.
use idem_ledger.Base.{ℕ, ◌≡◌, refl, ◌∙◌, List, arith}
use idem_ledger.Db.{Db, StoredResponse, ok}
use idem_ledger.Server.{World, Action, commit, in_tx}
use idem_ledger.Server.Laws.{in_tx-Ran, Quiet, map_error-eq-ok}
use idem_ledger.Server.Keeps.{kept_at_end, in_tx-Keeps, map_error-Keeps, >>=-cases}
use idem_ledger.Server.Transactions.{commit-map_error-Committed}
use idem_ledger.Store.Accounts.Unique.{Below}
use idem_ledger.Idempotency.{won, replay}
use idem_ledger.Ledger.Debit.{debit_select_for_update}
use idem_ledger.Ledger.Debit.Covered.{debit_select_for_update-IsDebit}
use idem_ledger.Ledger.Atomic.{
  debit_select_for_update-Keeps, exec_tx_with_debit-Keeps, claim_request-Keeps,
}
use idem_ledger.Ledger.Attempt.{failed}
use idem_ledger.Ledger.Keyed.{Claimed, Claimed-Quiet}
use idem_ledger.Ledger.{
  Env, Request, replayed, claim_request, exec_tx_with_debit, retriable, again_if_conflict,
}
use idem_ledger.Ledger.Execute.{
  HasIds, Outcomes, work-Ended, claim_then-Ended, begun-Ended, loop-Ended,
}
use idem_ledger.Ledger.Strategies.{
  max_retries, lock_order, lock_accounts, for_update_work, for_update_once, execute_with_for_update,
}

module _ (env : Env) (req : Request) where
  for_update_work-Ended :
      (n : ℕ) (d : Db) (w1 w2 : World)
      → Below n d.accounts
      → w1.db ≡ d
      → w1.committed ≡ d
      → Claimed env req w1 w2
      → Outcomes env req d (for_update_work env req won w2)
  unfolding for_update_work lock_accounts
  for_update_work-Ended n d w1 w2 b seen same c =
      >>=-cases (Outcomes env req d) (retriable lock) _ w2
        (λ e v q.
          failed e v (kept_at_end w2 (map_error-Keeps _ _ (in_tx-Keeps _)) q ∙ c.committed ∙ same))
        λ ids v q.
          let x =
            in_tx-Ran (lock_accounts (lock_order req.from_account req.to_account)) w2
              (map_error-eq-ok again_if_conflict lock w2 q) in
          let quiet : Quiet w2 v = ground arith in
          work-Ended env req debit_select_for_update
            (retriable (exec_tx_with_debit env debit_select_for_update req)) (retriable commit) n d
            w1 v debit_select_for_update-IsDebit
            (map_error-Keeps _ _ (
              exec_tx_with_debit-Keeps env debit_select_for_update req
                debit_select_for_update-Keeps))
            (λ v' t v'' q'. map_error-eq-ok again_if_conflict _ v' q')
            (λ v'. commit-map_error-Committed again_if_conflict v' refl) b seen same
            (Claimed-Quiet env req w1 w2 v c quiet)
    where
      lock : Action (List ℕ)
      lock = in_tx (lock_accounts (lock_order req.from_account req.to_account))

  for_update_work-replay :
      (s : StoredResponse) (v : World) → for_update_work env req (replay s) v ≡ (ok (replayed s), v)
  unfolding for_update_work
  for_update_work-replay s v = refl

  for_update_once-Ended :
      (w : World) → HasIds w.committed → Outcomes env req w.committed (for_update_once env req w)
  unfolding for_update_once
  for_update_once-Ended w b = begun-Ended env req _ w λ w1 seen same.
      claim_then-Ended env req (retriable (claim_request env req)) (for_update_work env req)
        w.committed.next_account w.committed w1 (map_error-Keeps _ _ (claim_request-Keeps env req))
        (λ v c v' q. map_error-eq-ok again_if_conflict _ v q) for_update_work-replay
        (λ w2. for_update_work-Ended w.committed.next_account w.committed w1 w2 b seen same) seen
        same

  -- Under the same condition on the account ids, and whatever the server answers, `ExecuteWithForUpdate`
  -- ends in the same ways as `Execute`: an error or the stored response with nothing committed, or one
  -- whole transfer committed, its key done, and returned unless the answer to the COMMIT was lost.
  pub execute_with_for_update-Ended :
      (w : World)
      → HasIds w.committed
      → Outcomes env req w.committed (execute_with_for_update env req w)
  unfolding execute_with_for_update
  execute_with_for_update-Ended w b =
      loop-Ended env req (for_update_once env req) max_retries w for_update_once-Ended b
