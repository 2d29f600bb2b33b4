-- ===== src/Recon/Exact.antt =====
-- The verdict of internal/recon/recon.go against a description of what it looks for.
use idem_ledger.Base.{
  ◌≡◌, ◌↔◌, refl, inl, inr, true, some, String, List, [], ◌∷◌, arith, All, length, map, count_rows,
  where_rows, Bool-cases,
}
use idem_ledger.Base.Int.{ℤ, pos, ◌≤ℤ◌, eqb_ℤ}
use idem_ledger.Db.{Db, Account, Posting, ok}
use idem_ledger.Server.{World}
use idem_ledger.Server.Laws.{>>=-elim, on_pool-eq-ok}
use idem_ledger.Recon.Report.{drift_none, last, report, report-verdict}
use idem_ledger.Recon.{
  sum_all, sum_for, Findings, has_drift, drift_of, is_negative, select_total, select_drift,
  count_negative, run, is_clean,
}

-- What the three checks look for.
pub record IsReconciled (d : Db) : Type 0 where
  pub conserved : sum_all d.postings ≡ pos 0
  pub integral : All (λ a. a.balance ≡ sum_for a.id d.postings) d.accounts
  pub nonneg : All (λ a. pos 0 ≤ℤ a.balance) d.accounts

pub drift_free :
    (ps : List Posting) (rows : List Account)
    → (length (map (drift_of ps) (where_rows (has_drift ps) rows)) ≡ 0)
      ↔ All (λ a. a.balance ≡ sum_for a.id ps) rows
unfolding where_rows
drift_free ps [] = ((λ _. tt), (λ _. refl))
drift_free ps (a ∷ rows) = elim (Bool-cases (has_drift ps a)) [
  | inl e ↦ ((λ h. absurd (ground arith)), (λ h. absurd (let same = h.0 in ground arith)))
  | inr e ↦ (
    (λ h. (ground arith, (drift_free ps rows).0 (ground arith))),
    (λ h. let rest = (drift_free ps rows).1 h.1 in ground arith),
  )
]

pub none_negative :
    (rows : List Account) → (count_rows is_negative rows ≡ 0) ↔ All (λ a. pos 0 ≤ℤ a.balance) rows
unfolding count_rows
none_negative [] = ((λ _. tt), (λ _. refl))
none_negative (a ∷ rows) = elim (Bool-cases (is_negative a)) [
  | inl e ↦ ((λ h. absurd (ground arith)), (λ h. absurd (let fits = h.0 in ground arith)))
  | inr e ↦ (
    (λ h. (ground arith, (none_negative rows).0 (ground arith))),
    (λ h. let rest = (none_negative rows).1 h.1 in ground arith),
  )
]

-- What a run that ends without an error has found.
abbrev pub found_in : Db → Findings
found_in d = record {
  conservation_ok = eqb_ℤ (sum_all d.postings) (pos 0);
  conservation_sum = sum_all d.postings;
  drift_accounts = map (drift_of d.postings) (where_rows (has_drift d.postings) d.accounts);
  negative_count = count_rows is_negative d.accounts;
}

pub run-eq-ok :
    (w : World) {r : Findings} {w' : World}
    → run w ≡ (ok r, w')
    → (r ≡ found_in w.committed) × (w'.committed ≡ w.committed)
unfolding run select_total select_drift count_negative
run-eq-ok w {r} {w'} h = >>=-elim _ _ w h λ total w1 e1 h1. >>=-elim _ _ w1 h1 λ u w2 e2 h2.
    >>=-elim _ _ w2 h2 λ drift w3 e3 h3. >>=-elim _ _ w3 h3 λ u' w4 e4 h4.
      >>=-elim _ _ w4 h4 λ negative w5 e5 h5.
        let x = (on_pool-eq-ok select_total w e1).1 in
        let y = (on_pool-eq-ok select_drift w2 e3).1 in
        let z = (on_pool-eq-ok count_negative w4 e5).1 in (ground arith, ground arith)

clean_parts :
    (r : Findings)
    → (is_clean r ≡ true)
      ↔ ((r.conservation_ok ≡ true) × (length r.drift_accounts ≡ 0) × (r.negative_count ≡ 0))
unfolding is_clean
clean_parts r = ((λ h. (ground arith, ground arith, ground arith)), (λ (p, q, s). ground arith))

pub found_in-clean : (d : Db) → (is_clean (found_in d) ≡ true) ↔ IsReconciled d
found_in-clean d = (
  (λ clean.
      let (p, q, s) = (clean_parts (found_in d)).0 clean in
      record {
        conserved = ground arith;
        integral = (drift_free d.postings d.accounts).0 q;
        nonneg = (none_negative d.accounts).0 s;
      }),
  (λ x. (clean_parts (found_in d)).1 (
    (let c = x.conserved in ground arith),
    (drift_free d.postings d.accounts).1 x.integral,
    (none_negative d.accounts).1 x.nonneg,
  )),
)

-- If a run ends without an error, the postings sum to 0, every account's balance is the sum of its postings and
-- no balance is negative exactly if the findings are clean, and exactly if the last line that `Report` writes of
-- them says that there is no drift.
pub run_exact :
    (number : ℤ → String) (w : World) {r : Findings} {w' : World}
    → run w ≡ (ok r, w')
    → ((is_clean r ≡ true) ↔ IsReconciled w.committed)
      × ((last (report number r) ≡ some drift_none) ↔ IsReconciled w.committed)
run_exact number w {r} h =
    let clean : (is_clean r ≡ true) ↔ IsReconciled w.committed =
      rw ((run-eq-ok w h).0) (found_in-clean w.committed) in
    let line = report-verdict number r in
    (clean, ((λ said. clean.0 (line.0 said)), (λ sound. line.1 (clean.1 sound))))
