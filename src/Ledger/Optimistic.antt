-- ===== src/Ledger/Optimistic.antt =====
-- `ExecuteOptimistic`, whatever the server answers.
use idem_ledger.Base.{
  ℕ, ◌≡◌, ◌≢◌, refl, sym, ◌∙◌, subst, Bool, true, false, some, arith, ◌==◌, All-map, select,
}
use idem_ledger.Base.Int.{ℤ, ◌≤ℤ◌}
use idem_ledger.Db.{Db, Account, Transfer, Result, ok, key_unsupported, account_not_found}
use idem_ledger.Server.{World, Action, raise_if, ◌>>=◌, ◌>>◌, begin, commit, in_transaction}
use idem_ledger.Server.Laws.{>>=-elim, Ran, in_tx-Ran, map_error-eq-ok}
use idem_ledger.Server.Keeps.{Keeps, keeping, kept_at_end, begin-Keeps, >>=-cases}
use idem_ledger.Server.Transactions.{begin-eq-ok, commit-map_error-Committed, commit_cases}
use idem_ledger.Store.Accounts.{by_id, select_account}
use idem_ledger.Store.Accounts.Unique.{Below, update-narrow, select_unique}
use idem_ledger.Ledger.Rows.{credit_row, update_accounts}
use idem_ledger.Ledger.Rows.Success.{update_accounts-eq-ok}
use idem_ledger.Ledger.Debit.Covered.{Debited}
use idem_ledger.Ledger.Atomic.{insert_transfer_and_postings-Keeps, or_raise-Keeps}
use idem_ledger.Ledger.Effect.{or_raise-eq-ok, Journals, insert_transfer_and_postings-Journals}
use idem_ledger.Ledger.Posted.{Posted, Journals-Posted}
use idem_ledger.Ledger.Attempt.{
  Commits, Ended, failed, posted, unheard, in_transaction-Ended, attempts-Ended,
}
use idem_ledger.Ledger.Execute.{HasIds}
use idem_ledger.Ledger.Strategies.{
  max_retries, has_version, debit_versioned_row, optimistic_transfer, optimistic_work,
  optimistic_once, execute_optimistic,
}
use idem_ledger.Ledger.{Env, Request, is_keyed, retriable, again_if_conflict}

pub versioned-Debited :
    (from : ℕ) (amount : ℤ) (n rows : ℕ) (a : Account) (w w' : World)
    → Below n w.db.accounts
    → select (by_id from) w.db.accounts ≡ some a
    → amount ≤ℤ a.balance
    → rows ≢ 0
    → Ran (update_accounts (has_version from a.version) (debit_versioned_row amount)) w rows w'
    → Debited (debit_versioned_row amount) from amount w w'
versioned-Debited from amount n rows a w w' b sel enough met x =
    let s =
      update_accounts-eq-ok (has_version from a.version) (debit_versioned_row amount) w.now w.db
        x.effect in
    let one = select_unique from n w.db.accounts b sel in
    let narrow =
      update-narrow from n (λ y. y.version == a.version) (debit_versioned_row amount) w.db.accounts
        b (λ z. met (s.0 ∙ z)) in
    record {
      covered =
          All-map w.db.accounts
            (λ y p q. subst (λ (r : Account). amount ≤ℤ r.balance) (sym (p q)) enough) one.0;
      found = one.1;
      db = ground arith;
      committed = ground arith;
      now = ground arith;
    }

module _ (env : Env) (req : Request) where
  -- A new transfer is the only answer.
  abbrev pub OptimisticOutcomes : Db → Result Transfer × World → Type 0
  OptimisticOutcomes = Ended env debit_versioned_row req (λ t. t) (λ _ _. ⊥)

  optimistic_transfer-Keeps : Keeps (optimistic_transfer env req)
  unfolding optimistic_transfer
  optimistic_transfer-Keeps =
      search (keeping, or_raise-Keeps, insert_transfer_and_postings-Keeps) depth 16

  -- The version test met the row that was read, so the balance that was checked is the one debited.
  optimistic_transfer-Posted :
      (n : ℕ) (w : World) {t : Transfer} {w' : World}
      → Below n w.db.accounts
      → optimistic_transfer env req w ≡ (ok t, w')
      → Posted env debit_versioned_row req t w.now w.db w'.db
        × (w'.db.keys ≡ w.db.keys)
        × (w'.committed ≡ w.committed)
  unfolding optimistic_transfer select_account
  optimistic_transfer-Posted n w {t} {w'} b h = >>=-elim _ _ w h λ row w1 e1 h1.
      >>=-elim _ _ w1 h1 λ a w2 e2 h2. >>=-elim _ _ w2 h2 λ u w3 e3 h3.
        >>=-elim _ _ w3 h3 λ m w4 e4 h4. >>=-elim _ _ w4 h4 λ u' w5 e5 h5.
          >>=-elim _ _ w5 h5 λ k w6 e6 h6. >>=-elim _ _ w6 h6 λ u'' w7 e7 h7.
            let x = in_tx-Ran (select_account req.from_account) w e1 in
            let o = or_raise-eq-ok row account_not_found w1 e2 in
            let same : w3.db ≡ w.db = ground arith in
            let now : w3.now ≡ w.now = ground arith in
            let sel : select (by_id req.from_account) w3.db.accounts ≡ some a = ground arith in
            let enough : req.amount ≤ℤ a.balance = ground arith in
            let met : m ≢ 0 = ground arith in
            let read_on : w5 ≡ w4 = ground arith in
            let credited : w7 ≡ w6 = ground arith in
            let d =
              versioned-Debited req.from_account req.amount n m a w3 w4
                (subst (λ (r : Db). Below n r.accounts) (sym same) b) sel enough met
                (in_tx-Ran _ w3 (map_error-eq-ok again_if_conflict _ w3 e4)) in
            let r =
              in_tx-Ran (update_accounts (by_id req.to_account) (credit_row req.amount)) w5
                (map_error-eq-ok again_if_conflict _ w5 e6) in
            let j = insert_transfer_and_postings-Journals env req w7 h7 in
            let p =
              Journals-Posted env debit_versioned_row req t w3 w4 w6 w' k d
                (subst
                  (λ v. Ran (update_accounts (by_id req.to_account) (credit_row req.amount)) v k w6)
                  read_on r)
                (subst (λ v. Journals env req t v w') credited j) in
            (
              subst (λ i. Posted env debit_versioned_row req t i w.db w'.db) now
                  (subst (λ i. Posted env debit_versioned_row req t w3.now i w'.db) same p.0),
              ground arith,
              ground arith,
            )

  optimistic_work-Ended :
      (w : World)
      → is_keyed req ≡ false
      → HasIds w.committed
      → OptimisticOutcomes w.committed (optimistic_work env req w)
  unfolding optimistic_work
  optimistic_work-Ended w unkeyed b =
      >>=-cases (OptimisticOutcomes w.committed) begin _ w
        (λ e v q. failed e v (kept_at_end w begin-Keeps q))
        λ u w1 q1.
          let (seen, same) = begin-eq-ok w q1 in
          >>=-cases (OptimisticOutcomes w.committed) (optimistic_transfer env req) _ w1
            (λ e v q. failed e v (kept_at_end w1 optimistic_transfer-Keeps q ∙ same))
            λ t v q.
              let p =
                optimistic_transfer-Posted w.committed.next_account w1
                  (subst (λ (d : Db). Below w.committed.next_account d.accounts) (sym seen) b) q in
              let commits : Commits env debit_versioned_row req t w.committed v.db =
                subst (λ d. Commits env debit_versioned_row req t d v.db) seen
                  (record {
                    now = w1.now;
                    posted = p.0;
                    unkeyed = λ _. p.1;
                    keyed = λ e. absurd (cc);
                  }) in
              commit_cases (OptimisticOutcomes w.committed) t (retriable commit) v
                (commit-map_error-Committed again_if_conflict v refl)
                (λ e v' c. failed e v' (c ∙ p.2 ∙ same))
                (λ v' c.
                  posted t v'
                    (subst (Commits env debit_versioned_row req t w.committed) (sym c) commits))
                (λ v' c.
                  unheard t v'
                    (subst (Commits env debit_versioned_row req t w.committed) (sym c) commits))

  keyed_branch :
      (b : Bool) (w : World) (m : Action Transfer)
      → is_keyed req ≡ b
      → (is_keyed req ≡ false → OptimisticOutcomes w.committed (m w))
      → OptimisticOutcomes w.committed ((raise_if b key_unsupported >> m) w)
  unfolding ◌>>=◌
  keyed_branch true w m e h = failed _ w refl
  keyed_branch false w m e h = h e

  -- Under the same condition on the account ids, and whatever the server answers, `ExecuteOptimistic`
  -- returns an error and commits nothing, or commits one whole transfer that debits the row and moves its
  -- version on, with the idempotency keys untouched, and returns it unless the answer to the COMMIT was lost.
  pub execute_optimistic-Ended :
      (w : World)
      → HasIds w.committed
      → OptimisticOutcomes w.committed (execute_optimistic env req w)
  unfolding execute_optimistic optimistic_once
  execute_optimistic-Ended w b = keyed_branch (is_keyed req) w _ refl λ unkeyed.
      attempts-Ended env debit_versioned_row req (λ t. t) (λ _ _. ⊥) HasIds
        (in_transaction (optimistic_work env req))
        (λ v b'.
          in_transaction-Ended env debit_versioned_row req (λ t. t) (λ _ _. ⊥)
            (optimistic_work env req) v v.committed (optimistic_work-Ended v unkeyed b'))
        max_retries w b
