-- ===== src/Ledger/Ends.antt =====
-- The loops of internal/ledger end.
use idem_ledger.Base.{
  ℕ, zero, suc, ◌+◌, ◌*◌, ◌≤◌, ◌≡◌, ◌≢◌, ◌∙◌, ap, Bool, true, false, arith, length,
}
use idem_ledger.Db.{again, Error, Result, ok, err, key_unsupported}
use idem_ledger.Server.{World, Action, raise_if, ◌>>=◌, ◌>>◌}
use idem_ledger.Server.Keeps.{>>=-cases}
use idem_ledger.Server.Calls.{Calls, raise_if-Calls, map_error-Calls, >>=-Calls}
use idem_ledger.Ledger.Strategies.{max_retries, execute_with_for_update, execute_optimistic}
use idem_ledger.Ledger.{Env, Request, is_keyed, execute, validate, attempts, max_deadlock_retries}
use idem_ledger.Ledger.Calls.{execute_once-Calls, for_update_once-Calls, optimistic_once-Calls}

-- At most `n` calls of the server, and a result that is not a further attempt.
abbrev pub EndsWithin : {A : Type 0} → ℕ → World → Result A × World → Type 0
EndsWithin n w x = (length w.tape ≤ n + length x.1.tape) × (x.0 ≢ err again)

attempts-EndsWithin :
    {A : Type 0} (k : ℕ) (m : Action A)
    → Calls k m
    → (n : ℕ) (w : World) → EndsWithin (n * k) w (attempts n m w)
unfolding attempts
attempts-EndsWithin k m c zero w = (omega arith, λ e. absurd (cc))
attempts-EndsWithin {A} k m c (suc n) w = go (m w) (c.spent w) (attempts-EndsWithin k m c n (m w).1)
  where
    go :
        (x : Result A × World)
        → length w.tape ≤ k + length x.1.tape
        → EndsWithin (n * k) x.1 (attempts n m x.1)
        → EndsWithin (suc n * k) w (elim x.0 as (λ _. Result A × World) [
          | err again ↦ attempts n m x.1
          | other ↦ (other, x.1)
        ])
    go (err again, v) first (left, ends) = (omega arith, ends)
    go (err e, v) first (left, ends) = (omega arith, λ h. absurd (cc))
    go (ok a, v) first (left, ends) = (omega arith, λ h. absurd (cc))

-- A guard that makes no call.
guarded-EndsWithin :
    {A : Type 0} (n : ℕ) (guard : Action (Unit {0})) (m : Action A) (w : World)
    → Calls 0 guard
    → (guard w).0 ≢ err again
    → ((v : World) → EndsWithin n v (m v))
    → EndsWithin n w ((guard >> m) w)
guarded-EndsWithin {A} n guard m w c passes ends =
    >>=-cases (λ (x : Result A × World). EndsWithin n w x) guard _ w
      (λ e v q.
        let left = c.spent w in
        let same = ap (λ x. length x.1.tape) q in
        (omega arith, λ h. passes (ap (λ x. x.0) q ∙ ap (λ e. err e) (err_inj h))))
      (λ u v q.
        let left = c.spent w in
        let same = ap (λ x. length x.1.tape) q in
        let rest = ends v in (omega (arith, rest.0), rest.1))
  where
    err_inj : {e f : Error} → ◌≡◌ {A = Result A} (err e) (err f) → e ≡ f
    err_inj h = cc

validate-Calls : (req : Request) → Calls 0 (validate req)
unfolding validate
validate-Calls req =
    >>=-Calls 0 0 _ _ (raise_if-Calls _ _)
      (λ _. >>=-Calls 0 0 _ _ (raise_if-Calls _ _) (λ _. raise_if-Calls _ _))

validate-ne-again : (req : Request) (w : World) → (validate req w).0 ≢ err again
unfolding validate ◌>>=◌
validate-ne-again req w h = ground arith

raise_if-ne-again : (b : Bool) (w : World) → (raise_if b key_unsupported w).0 ≢ err again
raise_if-ne-again true w h = absurd (cc)
raise_if-ne-again false w h = absurd (cc)

-- Whatever the server answers, every strategy ends: `Execute` makes at most 70 calls of the server,
-- `ExecuteWithForUpdate` at most 75 and `ExecuteOptimistic` at most 45 (a rollback is no such call), and none
-- of them ends with the error that asks for a further attempt.
pub transfers_end :
    (env : Env) (req : Request) (w : World)
    → EndsWithin 70 w (execute env req w)
      × EndsWithin 75 w (execute_with_for_update env req w)
      × EndsWithin 45 w (execute_optimistic env req w)
unfolding execute execute_with_for_update execute_optimistic
transfers_end env req w = (
  guarded-EndsWithin 70 (validate req) _ w (validate-Calls req) (validate-ne-again req w) (
      attempts-EndsWithin 14 _ (map_error-Calls 14 _ _ (execute_once-Calls env req))
        max_deadlock_retries),
  attempts-EndsWithin 15 _ (for_update_once-Calls env req) max_retries w,
  guarded-EndsWithin 45 (raise_if (is_keyed req) key_unsupported) _ w (raise_if-Calls _ _)
      (raise_if-ne-again (is_keyed req) w)
      (attempts-EndsWithin 9 _ (optimistic_once-Calls env req) max_retries),
)
