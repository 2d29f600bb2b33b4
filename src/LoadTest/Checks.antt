-- ===== src/LoadTest/Checks.antt =====
-- What the check of a load test reports on a sound ledger.
use idem_ledger.Base.{
  ℕ, ◌≡◌, ap, ◌∙◌, refl, inl, inr, subst, Option, none, some, leb, if◌then◌else◌, arith, true,
  false, List, [], ◌∷◌, ◌==◌, All, exists_row, count_rows, Bool-cases,
}
use idem_ledger.Base.Int.{ℤ, pos, ◌+ℤ◌, ◌-ℤ◌, ◌≤ℤ◌, eqb_ℤ}
use idem_ledger.Db.{Db, Account, Posting, Result, ok, scan_failed}
use idem_ledger.Server.{World, on_pool, raise_if}
use idem_ledger.Server.Reads.{Read, read, failed, on_pool-Read, >>=-Read, then-Read}
use idem_ledger.Recon.{sum_for, select_total}
use idem_ledger.Ledger.Sound.{IsSound}
use idem_ledger.LoadTest.{
  seed_balance, is_seeded, drifts, count_drifts, is_overdrawn, count_overdrawn, Report, or_seen,
  query_drifts, check_invariants,
}

-- The three zeros that are wanted.
abbrev pub no_violation : Report
no_violation = record { sum_postings = pos 0; drift_count = 0; neg_count = 0 }

-- A count that is 0, read from tables that have not changed.
zero_at :
    (count : Db → ℕ) (d : Db) {d' : Db}
    → d' ≡ d
    → count d ≡ 0
    → ◌≡◌ {A = Result (ℕ × Db)} (ok (count d', d')) (ok (0, d'))
zero_at count d {d'} same h = ap (λ n. ok (n, d')) (rw same h)

module _ (opening : ℕ → ℤ) where
  is_seeded-opening :
      (ids : List ℕ) (a : Account)
      → All (λ id. opening id ≡ seed_balance) ids
      → is_seeded ids a ≡ true
      → opening a.id ≡ seed_balance
  unfolding exists_row
  is_seeded-opening [] a h e = absurd (cc)
  is_seeded-opening (id ∷ ids) a h e = elim (Bool-cases (id == a.id)) [
    | inl hit ↦
        let same : id ≡ a.id = ground arith in subst (λ i. opening i ≡ seed_balance) same h.0
    | inr miss ↦ is_seeded-opening ids a h.1 (ground arith)
  ]

  no_drift : (b o sum : ℤ) → b ≡ o +ℤ sum → o ≡ seed_balance → eqb_ℤ (b -ℤ sum) seed_balance ≡ true
  unfolding ◌+ℤ◌ ◌-ℤ◌
  no_drift b o sum h e = ground arith

  drifts-zero :
      (ids : List ℕ) (ps : List Posting) (rows : List Account)
      → All (λ id. opening id ≡ seed_balance) ids
      → All (λ a. a.balance ≡ opening a.id +ℤ sum_for a.id ps) rows
      → count_rows (drifts ids ps) rows ≡ 0
  unfolding count_rows
  drifts-zero ids ps [] h k = refl
  drifts-zero ids ps (a ∷ rows) h k =
      let rest = drifts-zero ids ps rows h k.1 in
      elim (Bool-cases (is_seeded ids a)) [
        | inl e ↦
            let same =
              no_drift a.balance (opening a.id) (sum_for a.id ps) k.0
                (is_seeded-opening ids a h e) in
            ground arith
        | inr e ↦ ground arith
      ]

  overdrawn-zero :
      (ids : List ℕ) (rows : List Account)
      → All (λ a. pos 0 ≤ℤ a.balance) rows
      → count_rows (is_overdrawn ids) rows ≡ 0
  unfolding count_rows
  overdrawn-zero ids [] k = refl
  overdrawn-zero ids (a ∷ rows) k =
      let rest = overdrawn-zero ids rows k.1 in let b = k.0 in ground arith

  or_seen-Read :
      (cut : Option ℕ) (there : ℕ) (w : World) {x : Result ℕ × World}
      → there ≡ 0
      → Read (ok 0) w x
      → Read (ok 0) w (or_seen cut there x.0, x.1)
  or_seen-Read cut there w none_there (read v same calm) = read v same calm
  or_seen-Read none there w none_there (failed f v same loud) = failed f v same loud
  or_seen-Read (some k) there w none_there (failed f v same loud) =
      let short : (if leb k there then k else there) ≡ 0 = ground arith in
      rw short (read v same (λ e. absurd (loud e)))

  -- Where no account has drifted, none is printed wherever the rows break off.
  query_drifts-Read :
      (cut : Option ℕ) (ids : List ℕ) (w : World)
      → count_rows (drifts ids w.committed.postings) w.committed.accounts ≡ 0
      → Read (ok 0) w (query_drifts cut ids w)
  unfolding query_drifts count_drifts
  query_drifts-Read cut ids w h =
      or_seen-Read cut _ w h
        (on_pool-Read (count_drifts ids) w 0 (λ now. ap (λ n. ok (n, w.committed)) h))

  -- On a sound ledger, for accounts whose opening balance is the seed balance: the check of a load test
  -- leaves the tables alone and reports three zeros, or fails, and it fails only if the tape is not used up.
  pub check_invariants-Read :
      (cut : Option ℕ) (ids : List ℕ) (w : World)
      → IsSound opening w.committed
      → All (λ id. opening id ≡ seed_balance) ids
      → Read (ok no_violation) w (check_invariants cut ids w)
  unfolding check_invariants
  check_invariants-Read cut ids w s h =
      let total = λ (now : ℕ). ap (λ x. ok (x, w.committed)) s.conserved in
      let no_drifts = drifts-zero ids w.committed.postings w.committed.accounts h s.integral in
      let no_debts = overdrawn-zero ids w.committed.accounts s.nonneg in
      then-Read _ w (pos 0) (ok no_violation)
        (λ v at_v.
          then-Read _ v tt (ok no_violation)
            (λ u at_u.
              then-Read _ u 0 (ok no_violation)
                (λ x at_x.
                  >>=-Read _ x 0 (ok no_violation) (λ y. refl) (on_pool (count_overdrawn ids))
                    (on_pool-Read (count_overdrawn ids) x 0 (λ now.
                      zero_at (λ d. count_rows (is_overdrawn ids) d.accounts) w.committed
                        (at_x ∙ at_u ∙ at_v) no_debts)))
                (query_drifts cut ids) (query_drifts-Read cut ids u (rw (at_u ∙ at_v) no_drifts)))
            (raise_if false scan_failed) (read v refl (λ e. e)))
        (on_pool select_total) (on_pool-Read select_total w (pos 0) total)
