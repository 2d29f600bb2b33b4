-- ===== src/Server/Keeps.antt =====
-- Until it commits, a transaction changes nothing that another session sees, however it ends.
use idem_ledger.Base.{ℕ, ◌≡◌, refl, sym, ◌∙◌, ap, Bool, true, false, arith, if◌then◌else◌}
use idem_ledger.Db.{Error, Result, ok, err}
use idem_ledger.Server.{
  World, Action, Sql, pure, raise, raise_if, ◌>>=◌, in_tx, draw, begin, map_error,
}

pub record Keeps {A : Type 0} (m : Action A) : Type 0 where
  pub kept : (w : World) → (m w).1.committed ≡ w.committed

pub pure-Keeps : {A : Type 0} (a : A) → Keeps (pure a)
pure-Keeps a = record { kept = λ w. refl }

pub raise-Keeps : {A : Type 0} (e : Error) → Keeps {A = A} (raise e)
raise-Keeps e = record { kept = λ w. refl }

pub raise_if-Keeps : (b : Bool) (e : Error) → Keeps (raise_if b e)
raise_if-Keeps true e = record { kept = λ w. refl }
raise_if-Keeps false e = record { kept = λ w. refl }

pub if-Keeps :
    {A : Type 0} (b : Bool) (m n : Action A) → Keeps m → Keeps n → Keeps (if b then m else n)
if-Keeps true m n h k = h
if-Keeps false m n h k = k

pub in_tx-Keeps : {A : Type 0} (s : Sql A) → Keeps (in_tx s)
unfolding in_tx
in_tx-Keeps s = record { kept = λ w. ground arith }

pub draw-Keeps : (uuid : ℕ → ℕ) → Keeps (draw uuid)
unfolding draw
draw-Keeps uuid = record { kept = λ w. refl }

pub begin-Keeps : Keeps begin
unfolding begin
begin-Keeps = record { kept = λ w. ground arith }

pub map_error-Keeps :
    {A : Type 0} (f : Error → Error) (m : Action A) → Keeps m → Keeps (map_error f m)
unfolding map_error
map_error-Keeps f m h = record { kept = λ w. ground (arith, h.kept w) }

pub kept_at_end :
    {A : Type 0} {m : Action A} (w : World) {r : Result A} {v : World}
    → Keeps m
    → m w ≡ (r, v)
    → v.committed ≡ w.committed
kept_at_end w h q = sym (ap (λ x. x.1.committed) q) ∙ h.kept w

-- What holds of a sequence holds if it holds where its first part fails and where it goes on.
pub >>=-cases {κ} :
    {A B : Type 0} (P : Result B × World → Type κ) (m : Action A) (f : A → Action B) (w : World)
    → ((e : Error) (v : World) → m w ≡ (err e, v) → P (err e, v))
    → ((a : A) (v : World) → m w ≡ (ok a, v) → P (f a v))
    → P ((m >>= f) w)
unfolding ◌>>=◌
>>=-cases {A} {B} P m f w bad good = go (m w).0 (m w).1 refl
  where
    go :
        (r : Result A) (v : World) → m w ≡ (r, v) → P (elim r [ ok a ↦ f a v | err e ↦ (err e, v) ])
    go (ok a) v e = good a v e
    go (err x) v e = bad x v e

pub >>=-Keeps :
    {A B : Type 0} (m : Action A) (f : A → Action B)
    → Keeps m
    → ((a : A) → Keeps (f a))
    → Keeps (m >>= f)
>>=-Keeps m f h k = record {
  kept = λ w.
      >>=-cases (λ x. x.1.committed ≡ w.committed) m f w (λ e v q. kept_at_end w h q)
        (λ a v q. (k a).kept v ∙ kept_at_end w h q);
}

pub ruleset keeping = (
  pure-Keeps, raise-Keeps, raise_if-Keeps, if-Keeps, in_tx-Keeps, draw-Keeps, begin-Keeps,
  map_error-Keeps, >>=-Keeps,
)
