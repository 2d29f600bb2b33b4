-- ===== src/Server/Fine.antt =====
-- A session in which the server answers every call: each step's result, forward.
use idem_ledger.Base.{◌≡◌, ap, ◌∙◌, [], arith}
use idem_ledger.Db.{Db, Error, Result, ok, err}
use idem_ledger.Server.{
  World, Action, Sql, ◌>>=◌, in_tx, begin, commit, map_error, on_pool, in_transaction, rollback,
}

-- What a sequence does after a first part that succeeds, or fails.
pub >>=-run :
    {A B : Type 0} (m : Action A) (f : A → Action B) (w : World) {a : A} {v : World}
    → m w ≡ (ok a, v)
    → (m >>= f) w ≡ f a v
unfolding ◌>>=◌
>>=-run {B} m f w h =
    ap (λ x. elim x.0 as (λ _. Result B × World) [ ok a ↦ f a x.1 | err e ↦ (err e, x.1) ]) h

pub >>=-stop :
    {A B : Type 0} (m : Action A) (f : A → Action B) (w : World) {e : Error} {v : World}
    → m w ≡ (err e, v)
    → (m >>= f) w ≡ (err e, v)
unfolding ◌>>=◌
>>=-stop {B} m f w h =
    ap (λ x. elim x.0 as (λ _. Result B × World) [ ok a ↦ f a x.1 | err e ↦ (err e, x.1) ]) h

-- A first part that succeeds, and a rest.
pub then_do :
    {A B : Type 0} (m : Action A) (f : A → Action B) (w : World) {a : A} {v : World}
    {r : Result B × World}
    → m w ≡ (ok a, v)
    → f a v ≡ r
    → (m >>= f) w ≡ r
then_do m f w h k = >>=-run m f w h ∙ k

module _ (w : World) (calm : w.tape ≡ []) where
  pub in_tx-calm :
      {A : Type 0} (s : Sql A) {a : A} {d : Db}
      → s w.now w.db ≡ ok (a, d)
      → in_tx s w ≡ (ok a, record w { db = d })
  unfolding in_tx
  in_tx-calm s h = ground arith

  pub in_tx-calm_err :
      {A : Type 0} (s : Sql A) {e : Error} → s w.now w.db ≡ err e → in_tx s w ≡ (err e, w)
  unfolding in_tx
  in_tx-calm_err s h = ground arith

  pub begin-calm : begin w ≡ (ok tt, record w { db = w.committed })
  unfolding begin
  begin-calm = ground arith

  pub commit-calm : commit w ≡ (ok tt, record w { committed = w.db })
  unfolding commit
  commit-calm = ground arith

  pub on_pool-calm :
      {A : Type 0} (s : Sql A) {a : A} {d : Db}
      → s w.now w.committed ≡ ok (a, d)
      → on_pool s w ≡ (ok a, record w { db = d; committed = d })
  unfolding on_pool
  on_pool-calm s h = ground arith

pub map_error-run :
    {A : Type 0} (f : Error → Error) (m : Action A) (w : World) {a : A} {v : World}
    → m w ≡ (ok a, v)
    → map_error f m w ≡ (ok a, v)
unfolding map_error
map_error-run f m w h = ground arith

pub map_error-stop :
    {A : Type 0} (f : Error → Error) (m : Action A) (w : World) {e : Error} {v : World}
    → m w ≡ (err e, v)
    → map_error f m w ≡ (err (f e), v)
unfolding map_error
map_error-stop f m w h = ground arith

pub in_transaction-run :
    {A : Type 0} (m : Action A) (w : World) {r : Result A} {v : World}
    → m w ≡ (r, v)
    → in_transaction m w ≡ (r, rollback v)
unfolding in_transaction
in_transaction-run m w h = rw h
