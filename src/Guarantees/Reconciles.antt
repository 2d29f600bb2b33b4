-- ===== src/Guarantees/Reconciles.antt =====
-- What a reconciliation run finds after a history of calls.
use idem_ledger.Base.{
  ℕ, map, where_rows, ◌≡◌, ◌≢◌, sym, subst, true, not, List, [], ◌∷◌, arith, All, Bool-cases, inl,
  inr,
}
use idem_ledger.Base.Int.{ℤ, pos, ◌+ℤ◌, eqb_ℤ}
use idem_ledger.Db.{Db, Account, Posting, ok}
use idem_ledger.Server.{World}
use idem_ledger.Recon.{sum_for, Findings, run, has_drift, drift_of}
use idem_ledger.Recon.Exact.{run-eq-ok, none_negative}
use idem_ledger.Ledger.Sound.{IsSound}
use idem_ledger.Ledger.{Env}
use idem_ledger.Guarantees.{Reachable}
use idem_ledger.Guarantees.Sound.{Reachable-IsSound}

opened : (o b sum : ℤ) → b ≡ o +ℤ sum → not (eqb_ℤ b sum) ≡ true → o ≢ pos 0
unfolding ◌+ℤ◌
opened o b sum h drifts z = ground arith

-- An account is reported only if it had an opening balance, and by that balance.
drift-opened :
    (opening : ℕ → ℤ) (ps : List Posting) (rows : List Account)
    → All (λ a. a.balance ≡ opening a.id +ℤ sum_for a.id ps) rows
    → All
        (λ x. (opening x.id ≢ pos 0) × (x.balance ≡ opening x.id +ℤ x.postings_sum))
        (map (drift_of ps) (where_rows (has_drift ps) rows))
unfolding where_rows
drift-opened opening ps [] h = tt
drift-opened opening ps (a ∷ rows) h = elim (Bool-cases (has_drift ps a)) [
  | inl e ↦ rw e (
    (opened (opening a.id) a.balance (sum_for a.id ps) h.0 e, h.0),
    drift-opened opening ps rows h.1,
  )
  | inr e ↦ rw e (drift-opened opening ps rows h.1)
]

-- From a sound ledger, after any history of calls and whatever the server answered to them, a
-- reconciliation run that ends without an error reports that the postings sum to 0 and no balance is
-- negative, and reports only accounts that had an opening balance, off by exactly that balance.
pub run_finds :
    (opening : ℕ → ℤ) {env : Env} {start d : Db} (w : World) {r : Findings} {w' : World}
    → IsSound opening start
    → Reachable env start d
    → w.committed ≡ d
    → run w ≡ (ok r, w')
    → (r.conservation_ok ≡ true)
      × (r.negative_count ≡ 0)
      × All
          (λ x. (opening x.id ≢ pos 0) × (x.balance ≡ opening x.id +ℤ x.postings_sum))
          r.drift_accounts
run_finds opening w sound reached from h =
    let s = subst (IsSound opening) (sym from) (Reachable-IsSound opening sound reached) in
    let c = s.conserved in
    rw ((run-eq-ok w h).0) (
      ground arith,
      (none_negative w.committed.accounts).1 s.nonneg,
      drift-opened opening w.committed.postings w.committed.accounts s.integral,
    )
