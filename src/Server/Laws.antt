-- ===== src/Server/Laws.antt =====
-- What a successful call, and a sequence of calls, has done to the session.
use idem_ledger.Base.{ℕ, ◌≡◌, refl, subst, arith}
use idem_ledger.Db.{Db, Error, Result, ok, err, connection}
use idem_ledger.Server.{
  World, Action, Sql, ◌>>=◌, in_tx, draw, map_error, on_pool, alone_as, answer, Outcome, fine,
  fails, lost,
}

-- A sequence that succeeds has two parts that succeed.
pub >>=-elim {κ} :
    {A B : Type 0} {G : Type κ} (m : Action A) (f : A → Action B) (w : World) {b : B} {w' : World}
    → (m >>= f) w ≡ (ok b, w')
    → ((a : A) (v : World) → m w ≡ (ok a, v) → f a v ≡ (ok b, w') → G)
    → G
unfolding ◌>>=◌
>>=-elim {A} {B} {G} m f w {b} {w'} h k = go (m w).0 (m w).1 refl h
  where
    go :
        (r : Result A) (v : World)
        → m w ≡ (r, v)
        → ◌≡◌ {A = Result B × World} (elim r [ ok a ↦ f a v | err e ↦ (err e, v) ]) (ok b, w')
        → G
    go (ok a) v e l = k a v e l
    go (err x) v e l = absurd (cc)

-- A statement that succeeds has changed the transaction's tables as it says, and nothing else.
pub record Ran {A : Type 0} (s : Sql A) (w : World) (a : A) (w' : World) : Type 0 where
  pub effect : s w.now w.db ≡ ok (a, w'.db)
  pub committed : w'.committed ≡ w.committed
  pub now : w'.now ≡ w.now

pub in_tx-Ran :
    {A : Type 0} (s : Sql A) (w : World) {a : A} {w' : World}
    → in_tx s w ≡ (ok a, w')
    → Ran s w a w'
unfolding in_tx
in_tx-Ran s w h = ground arith

-- A call that leaves the tables alone.
pub record Quiet (w w' : World) : Type 0 where
  pub db : w'.db ≡ w.db
  pub committed : w'.committed ≡ w.committed
  pub now : w'.now ≡ w.now

pub draw-Quiet :
    (uuid : ℕ → ℕ) (w : World) {n : ℕ} {w' : World} → draw uuid w ≡ (ok n, w') → Quiet w w'
unfolding draw
draw-Quiet uuid w h = ground arith

pub map_error-eq-ok :
    {A : Type 0} (f : Error → Error) (m : Action A) (w : World) {a : A} {w' : World}
    → map_error f m w ≡ (ok a, w')
    → m w ≡ (ok a, w')
unfolding map_error
map_error-eq-ok f m w h = ground arith

-- A statement of its own leaves the committed tables alone, or has changed them as it says; it has
-- done so if it answers without an error.
pub data Alone {A : Type 0} (d : Db) (x : Result (A × Db)) : Result A × World → Type 0 where
  refused : (e : Error) (w : World) → w.committed ≡ d → Alone d x (err e, w)
  done : (a : A) (w : World) → x ≡ ok (a, w.committed) → Alone d x (ok a, w)
  unheard : (a : A) (w : World) → x ≡ ok (a, w.committed) → Alone d x (err connection, w)

alone_as-Alone :
    {A : Type 0} (o : Outcome) (w : World) (x y : Result (A × Db))
    → y ≡ x
    → Alone w.committed y (alone_as o w x)
unfolding alone_as
alone_as-Alone (fails f) w x y h = refused _ w refl
alone_as-Alone fine w (ok (a, d)) y h = done a _ h
alone_as-Alone fine w (err e) y h = refused e w refl
alone_as-Alone lost w (ok (a, d)) y h = unheard a _ h
alone_as-Alone lost w (err e) y h = refused e w refl

pub on_pool-Alone :
    {A : Type 0} (s : Sql A) (w : World)
    → (now : ℕ) × Alone w.committed (s now w.committed) (on_pool s w)
unfolding on_pool
on_pool-Alone s w =
    let same : (answer w).1.committed ≡ w.committed = ground arith in
    (
      (answer w).0.now,
      subst (λ d. Alone d (s (answer w).0.now d) (on_pool s w)) same
          (alone_as-Alone (answer w).0.outcome _ _ _ refl),
    )

Alone-eq-ok :
    {A : Type 0} (d : Db) (x : Result (A × Db)) {y : Result A × World} (a : A) (w : World)
    → Alone d x y
    → y ≡ (ok a, w)
    → x ≡ ok (a, w.committed)
Alone-eq-ok d x a w (refused e v c) h = absurd (cc)
Alone-eq-ok d x a w (done b v c) h = ground arith
Alone-eq-ok d x a w (unheard b v c) h = absurd (cc)

pub on_pool-eq-ok :
    {A : Type 0} (s : Sql A) (w : World) {a : A} {w' : World}
    → on_pool s w ≡ (ok a, w')
    → (now : ℕ) × (s now w.committed ≡ ok (a, w'.committed))
on_pool-eq-ok s w {a} {w'} h =
    let (now, x) = on_pool-Alone s w in (now, Alone-eq-ok w.committed _ a w' x h)
