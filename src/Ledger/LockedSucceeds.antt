-- ===== src/Ledger/LockedSucceeds.antt =====
-- A transfer by ExecuteWithForUpdate that can be made, in a session whose calls are answered.
use idem_ledger.Base.{
  ℕ, ◌≡◌, refl, ◌∙◌, sym, ap, false, List, [], ◌∷◌, arith, All-map, exists_row, update, count_rows,
}
use idem_ledger.Base.Int.{leb_ℤ}
use idem_ledger.Db.{Transfer, ok, account_not_found}
use idem_ledger.Server.{World, in_tx, rollback}
use idem_ledger.Server.Fine.{
  then_do, in_tx-calm, begin-calm, commit-calm, map_error-run, in_transaction-run,
}
use idem_ledger.Store.Accounts.{by_id, or_raise, select_account}
use idem_ledger.Store.Accounts.Unique.{update-narrow}
use idem_ledger.Idempotency.{won, has_key, claimed_row}
use idem_ledger.Ledger.Attempt.{Commits, Ended-Commits}
use idem_ledger.Ledger.Execute.{HasIds}
use idem_ledger.Ledger.ForUpdate.{execute_with_for_update-Ended}
use idem_ledger.Ledger.Covers.{update_accounts-run, debit_row-IsBalance}
use idem_ledger.Ledger.Debit.{debit_select_for_update}
use idem_ledger.Ledger.Rows.{debit_row}
use idem_ledger.Ledger.Strategies.{
  lock_order, lock_accounts, for_update_work, for_update_once, execute_with_for_update,
}
use idem_ledger.Ledger.{Env, Request, created, retriable}
use idem_ledger.Ledger.Ready.{
  IsReady, All-both, covered_row, after_debit, new_row, after_event, exec_with-run,
}
use idem_ledger.Ledger.Succeeds.{with_keys, response-run, claim-run, attempts-run}

module _ (env : Env) (req : Request) where
  module _ (w : World) (calm : w.tape ≡ []) (r : IsReady env req w.drawn w.db)
      (b : HasIds w.db) where
    -- The UPDATE by id meets the row that covers the amount, and no other.
    select_debit-run :
        debit_select_for_update req.from_account req.amount w
        ≡ (ok tt, after_debit env req w calm r)
    unfolding debit_select_for_update select_account
    select_debit-run =
        let (same, covers, known) =
          update-narrow req.from_account w.db.next_account (λ x. leb_ℤ req.amount x.balance)
            (debit_row req.amount) w.db.accounts b (covered_row env req w calm r) in
        let made = update_accounts-run (by_id req.from_account) (debit_row req.amount) w.now w.db (
          All-map w.db.accounts
            (λ x (fits, cover) hit.
              debit_row-IsBalance req.amount x.balance r.valid.positive
                (let c = cover hit in ground arith) fits)
            (All-both _ _ w.db.accounts r.balances covers)) in
        let there : record w.db {
          accounts = update (by_id req.from_account) (debit_row req.amount) w.db.accounts;
        }
            ≡ (after_debit env req w calm r).db =
          ap (λ rows. record w.db { accounts = rows }) (sym same) in
        then_do _ _ w (in_tx-calm w calm (select_account req.from_account) refl) (
          then_do _ _ w (ap (λ o. or_raise o account_not_found w) r.from_found) (
            then_do _ _ w (let c = r.covered in ground arith) (
              then_do _ _ w
                (in_tx-calm w calm _ (
                  made ∙ ap (λ d. ok (count_rows (by_id req.from_account) w.db.accounts, d)) there))
                refl)))

    lock-run :
        (ids : List ℕ) × (retriable
            (in_tx (lock_accounts (lock_order req.from_account req.to_account)))
            w
          ≡ (ok ids, w))
    unfolding lock_accounts
    lock-run = (
      _,
      map_error-run _ _ w
          (in_tx-calm w calm (lock_accounts (lock_order req.from_account req.to_account)) refl),
    )

    work-run : (t : Transfer) × (v : World) × (for_update_work env req won w ≡ (ok (created t), v))
    unfolding for_update_work
    work-run =
        let t = new_row env req w calm r in
        let w1 = after_event env req w calm r in
        let (v, stored, calm') = response-run env req t w1 calm r.keyed ((r.text t).1) in
        (
          t,
          record v { committed = v.db },
          then_do _ _ w lock-run.1 (
              then_do _ _ w
                (map_error-run _ _ w
                  (exec_with-run env req w calm r debit_select_for_update select_debit-run))
                (then_do _ _ w1 stored
                  (then_do _ _ v (map_error-run _ _ v (commit-calm v calm')) refl))),
        )

  once-run :
      (w : World)
      → w.tape ≡ []
      → HasIds w.committed
      → IsReady env req w.drawn w.committed
      → exists_row (has_key req.idempotency_key) w.committed.keys ≡ false
      → (t : Transfer) × (v : World) × (for_update_once env req w ≡ (ok (created t), v))
  unfolding for_update_once
  once-run w calm b r fresh =
      let w1 : World = record w { db = w.committed } in
      let ks = claimed_row req.idempotency_key req.request_hash w.now ∷ w.committed.keys in
      let w2 : World = record w { db = record w.committed { keys = ks } } in
      let (t, v, done) = work-run w2 calm (with_keys env req w.drawn w.committed ks r) b in
      (
        t,
        rollback v,
        in_transaction-run _ w (
            then_do _ _ w (begin-calm w calm) (
              then_do _ _ w1 (map_error-run _ _ w1 (claim-run env req w1 calm r.keyed fresh))
                done)),
      )

  -- Where every call is answered, the account ids are distinct and below the sequence, the key is new and
  -- the transfer can be made (as for `Execute`): `ExecuteWithForUpdate` returns the new transfer and has
  -- committed it.
  pub execute_with_for_update_succeeds :
      (w : World)
      → w.tape ≡ []
      → HasIds w.committed
      → IsReady env req w.drawn w.committed
      → exists_row (has_key req.idempotency_key) w.committed.keys ≡ false
      → (t : Transfer) × (w' : World) × (execute_with_for_update env req w ≡ (ok (created t), w'))
        × Commits env debit_row req t w.committed w'.committed
  unfolding execute_with_for_update
  execute_with_for_update_succeeds w calm b r fresh =
      let (t, v, done) = once-run w calm b r fresh in
      let whole = attempts-run env req 4 (for_update_once env req) w done in
      (
        t,
        v,
        whole,
        Ended-Commits env debit_row req w.committed t v whole
            (execute_with_for_update-Ended env req w b),
      )
