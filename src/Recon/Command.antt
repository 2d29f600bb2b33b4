-- ===== src/Recon/Command.antt =====
-- cmd/recon/main.go: the exit status of a reconciliation.
use idem_ledger.Base.{
  ℕ, ◌≡◌, ◌≢◌, ◌∙◌, refl, inl, inr, arith, Bool, true, false, not, List, [], ◌∷◌, if◌then◌else◌,
  length, map, exists_row, count_rows, where_rows, Bool-cases,
}
use idem_ledger.Base.Int.{ℤ, pos}
use idem_ledger.Db.{Db, Result, ok, err, scan_failed}
use idem_ledger.Server.{World, on_pool}
use idem_ledger.Server.Reads.{Read, on_pool-Read, >>=-Read, then-Read, guard-Read, read_at}
use idem_ledger.Ledger.Rows.{fits_bigint}
use idem_ledger.Recon.{
  sum_all, DriftAccount, Findings, has_drift, drift_of, is_negative, select_total, select_drift,
  count_negative, run, is_clean, command, exit_status,
}
use idem_ledger.Recon.Exact.{IsReconciled, found_in, found_in-clean, drift_free}

abbrev wide : DriftAccount → Bool
wide a = not (fits_bigint a.postings_sum)

-- What a run gives on the tables `d`.
abbrev pub verdict : Db → Result Findings
verdict d =
    if not (fits_bigint (sum_all d.postings))
    then err scan_failed
    else if exists_row wide (found_in d).drift_accounts
    then err scan_failed
    else ok (found_in d)

run-Read : (w : World) → Read (verdict w.committed) w (run w)
unfolding run select_total select_drift count_negative
run-Read w =
    let d : Db = w.committed in
    then-Read _ w (sum_all d.postings) (verdict d)
      (λ v at_v. guard-Read (not (fits_bigint (sum_all d.postings))) scan_failed _ _ v (
        then-Read _ v (found_in d).drift_accounts _
          (λ u at_u. guard-Read (exists_row wide (found_in d).drift_accounts) scan_failed _ _ u (
            >>=-Read _ u (found_in d).negative_count (ok (found_in d)) (λ y. refl)
              (on_pool count_negative)
              (on_pool-Read count_negative u _
                (λ now. read_at (λ d. count_rows is_negative d.accounts) d (at_u ∙ at_v)))))
          (on_pool select_drift)
          (on_pool-Read select_drift v _ (λ now.
            read_at (λ d. map (drift_of d.postings) (where_rows (has_drift d.postings) d.accounts))
              d at_v))))
      (on_pool select_total) (on_pool-Read select_total w _ (λ now. refl))

-- Status 0 for a reconciled ledger, 1 for another one, or 1, and that only if the tape was not used up.
pub data Exits (w : World) : ℕ × World → Type 0 where
  clean : (w' : World) → IsReconciled w.committed → w'.committed ≡ w.committed → Exits w (0, w')
  unclean : (w' : World) → ¬ IsReconciled w.committed → w'.committed ≡ w.committed → Exits w (1, w')
  broke : (w' : World) → w.tape ≢ [] → w'.committed ≡ w.committed → Exits w (1, w')

fits_zero : (x : ℤ) → x ≡ pos 0 → not (fits_bigint x) ≡ false
unfolding fits_bigint
fits_zero x h = ground arith

some_wide : (xs : List DriftAccount) → exists_row wide xs ≡ true → length xs ≢ 0
unfolding exists_row
some_wide [] h = absurd (cc)
some_wide (x ∷ xs) h = λ e. absurd (ground arith)

verdict-Exits :
    (w w' : World) (b c : Bool)
    → w'.committed ≡ w.committed
    → not (fits_bigint (sum_all w.committed.postings)) ≡ b
    → exists_row wide (found_in w.committed).drift_accounts ≡ c
    → Exits w (
      exit_status
          (if b then err scan_failed else if c then err scan_failed else ok (found_in w.committed)),
      w',
    )
verdict-Exits w w' true c same h k =
    unclean w' (λ x. absurd (let z = fits_zero _ x.conserved in cc)) same
verdict-Exits w w' false true same h k =
    unclean w'
      (λ x. some_wide _ k ((drift_free w.committed.postings w.committed.accounts).1 x.integral))
      same
verdict-Exits w w' false false same h k = elim (Bool-cases (is_clean (found_in w.committed))) [
  | inl e ↦ rw e (clean w' ((found_in-clean w.committed).0 e) same)
  | inr e ↦ rw e (unclean w' (λ x. absurd (let yes = (found_in-clean w.committed).1 x in cc)) same)
]

Read-Exits :
    (w : World) {x : Result Findings × World}
    → Read (verdict w.committed) w x
    → Exits w (exit_status x.0, x.1)
Read-Exits w (Read.read w' same calm) = verdict-Exits w w' _ _ same refl refl
Read-Exits w (Read.failed f w' same loud) = broke w' loud same

-- Whatever the server answers, cmd/recon leaves the tables alone and exits with 0 only if the postings sum
-- to 0, every balance is the sum of its postings and none is negative; it exits with 1 only if that is not
-- so or the tape was not used up, also where a sum does not fit an int64.
pub command-Exits : (w : World) → Exits w (command w)
unfolding command
command-Exits w = Read-Exits w (run-Read w)
