-- ===== src/Recon/Report.antt =====
-- internal/recon/recon.go: the text that Report writes, one call of Fprintf after the other.
use Prim.Native.String.{◌++◌ as ◌<>◌}
use idem_ledger.Base.{
  ℕ, ◌-◌, ◌^◌, ◌≡◌, ◌≢◌, str_eq, eq_iff, ◌↔◌, refl, ◌∙◌, ap, sym, String, Bool, true, false, Option,
  none, some, List, [], ◌∷◌, ◌++◌, ◌==◌, map, length, if◌then◌else◌,
}
use idem_ledger.Base.Int.{ℤ, pos, negsuc, ◌+ℤ◌, ◌-ℤ◌, ltb_ℤ}
use idem_ledger.Recon.{Findings, DriftAccount, is_clean}

concat : List String → String
concat [] = ""
concat (s ∷ ss) = s <> concat ss

-- A difference of two int64, which wraps around.
unfoldable pub wrapped : ℤ → ℤ
wrapped x =
    if ltb_ℤ (pos (2 ^ 63 - 1)) x
    then x -ℤ pos (2 ^ 64)
    else if ltb_ℤ x (negsuc (2 ^ 63 - 1))
    then x +ℤ pos (2 ^ 64)
    else x

abbrev pub drift_none : String
drift_none = "\nDrift: none ✓\n"

abbrev pub drift_detected : String
drift_detected = "\nDrift: DETECTED — investigate immediately\n"

-- `number` is the text that the verb %d gives.
module _ (number : ℤ → String) where
  conservation_line : Bool → ℤ → String
  conservation_line true sum = "Conservation (SUM postings): 0 ✓\n"
  conservation_line false sum =
      concat ("Conservation (SUM postings): " ∷ number sum ∷ " ✗  DRIFT DETECTED\n" ∷ [])

  drift_line : DriftAccount → String
  drift_line d = concat (
      "  account "
      ∷ number (pos d.id)
      ∷ ": balance="
      ∷ number d.balance
      ∷ " postings_sum="
      ∷ number d.postings_sum
      ∷ " delta="
      ∷ number (wrapped (d.balance -ℤ d.postings_sum))
      ∷ "\n"
      ∷ [])

  integrity_lines : List DriftAccount → List String
  integrity_lines [] = "Balance integrity:           all accounts clean ✓\n" ∷ []
  integrity_lines ds =
      concat (
        "Balance integrity:           " ∷ number (pos (length ds)) ∷ " account(s) drifted ✗\n" ∷ [])
      ∷ map drift_line ds

  negative_line : ℕ → String
  negative_line n =
      if n == 0
      then "Negative balances:           0 ✓\n"
      else concat
          ("Negative balances:           " ∷ number (pos n) ∷ " ✗  INTEGRITY VIOLATION\n" ∷ [])

  verdict_line : Bool → String
  verdict_line true = drift_none
  verdict_line false = drift_detected

  findings_lines : Findings → List String
  findings_lines r =
      "=== Reconciliation Report ===\n"
        ∷ conservation_line r.conservation_ok r.conservation_sum
        ∷ integrity_lines r.drift_accounts
      ++ negative_line r.negative_count ∷ []

  -- Report
  pub report : Findings → List String
  unfolding is_clean
  report r = findings_lines r ++ verdict_line (is_clean r) ∷ []

pub last : {A : Type 0} → List A → Option A
last [] = none
last (x ∷ []) = some x
last (x ∷ xs) = last xs

last-append : (x : String) (xs : List String) → last (xs ++ x ∷ []) ≡ some x
unfolding last
last-append x [] = refl
last-append x (y ∷ []) = refl
last-append x (y ∷ z ∷ ys) = last-append x (z ∷ ys)

differ : str_eq drift_none drift_detected ≢ true
differ h = absurd (cc)

none_ne_detected : drift_none ≢ drift_detected
none_ne_detected h = differ ((eq_iff drift_none drift_detected).1 h)

some_inj : {s t : String} → some s ≡ some t → s ≡ t
some_inj h = cc

verdict_lines : (number : ℤ → String) (b : Bool) → (verdict_line number b ≡ drift_none) ↔ (b ≡ true)
unfolding verdict_line
verdict_lines number true = ((λ h. refl), (λ h. refl))
verdict_lines number false = ((λ h. absurd (none_ne_detected (sym h))), (λ h. absurd (cc)))

-- The last line tells whether the findings are clean.
pub report-verdict :
    (number : ℤ → String) (r : Findings)
    → (last (report number r) ≡ some drift_none) ↔ (is_clean r ≡ true)
unfolding report
report-verdict number r =
    let ends = last-append (verdict_line number (is_clean r)) (findings_lines number r) in
    (
      (λ h. (verdict_lines number (is_clean r)).0 (some_inj (sym ends ∙ h))),
      (λ h. ends ∙ ap (λ s. some s) ((verdict_lines number (is_clean r)).1 h)),
    )
