-- ===== src/Server/Reads.antt =====
-- A statement of its own that only reads.
use idem_ledger.Base.{
  ap, Bool, true, false, if◌then◌else◌, ◌≡◌, ◌≢◌, ◌∙◌, refl, sym, subst, [], arith,
}
use idem_ledger.Db.{Db, Error, Result, ok, err}
use idem_ledger.Server.{
  World, Action, Outcome, fine, fails, lost, Fault, network, error_of, Sql, answer, alone_as,
  on_pool, ◌>>=◌, ◌>>◌, raise_if,
}

-- It answers with what it reads, or the call fails; that happens only if the answers are chosen.
pub data Read {A : Type 0} (r : Result A) (w : World) : Result A × World → Type 0 where
  read : (w' : World) → w'.committed ≡ w.committed → (w.tape ≡ [] → w'.tape ≡ []) → Read r w (r, w')
  failed :
      (f : Fault) (w' : World)
      → w'.committed ≡ w.committed
      → w.tape ≢ []
      → Read r w (err (error_of f), w')

alone_as-Read :
    {A : Type 0} (a : A) (w v : World) (o : Outcome)
    → v.committed ≡ w.committed
    → (w.tape ≡ [] → v.tape ≡ [])
    → (w.tape ≡ [] → o ≡ fine)
    → Read (ok a) w (alone_as o v (ok (a, w.committed)))
unfolding alone_as
alone_as-Read a w v fine same calm good = read _ refl calm
alone_as-Read a w v (fails f) same calm good = failed f v same (λ e. absurd (let g = good e in cc))
alone_as-Read a w v lost same calm good = failed network _ refl (λ e. absurd (let g = good e in cc))

pub on_pool-Read :
    {A : Type 0} (s : Sql A) (w : World) (a : A)
    → ((now : _) → s now w.committed ≡ ok (a, w.committed))
    → Read (ok a) w (on_pool s w)
unfolding on_pool answer
on_pool-Read s w a reads =
    let same : (answer w).1.committed ≡ w.committed = ground arith in
    let it : s (answer w).0.now (answer w).1.committed ≡ ok (a, w.committed) =
      subst (λ d. s (answer w).0.now d ≡ ok (a, w.committed)) (sym same) (reads (answer w).0.now) in
    rw it (alone_as-Read a w _ _ same (λ e. ground arith) (λ e. ground arith))

-- A read, and what is made of it without a further call.
module _ {A B : Type 0} (f : A → Action B) (w : World) (a : A) (r : Result B)
    (rest : (v : World) → f a v ≡ (r, v)) where
  rest-Read :
      {x : Result A × World}
      → Read (ok a) w x
      → Read r w (elim x.0 as (λ _. Result B × World) [ ok b ↦ f b x.1 | err e ↦ (err e, x.1) ])
  rest-Read (read w' same calm) = rw (rest w') (read w' same calm)
  rest-Read (failed g w' same loud) = failed g w' same loud

  pub >>=-Read : (m : Action A) → Read (ok a) w (m w) → Read r w ((m >>= f) w)
  unfolding ◌>>=◌
  >>=-Read m h = rest-Read h

-- A read on the session that an earlier one left.
pub later-Read :
    {A : Type 0} {r : Result A} {w v : World} {x : Result A × World}
    → v.committed ≡ w.committed
    → (w.tape ≡ [] → v.tape ≡ [])
    → Read r v x
    → Read r w x
later-Read same calm (read w' kept quiet) = read w' (kept ∙ same) (λ e. quiet (calm e))
later-Read same calm (failed f w' kept loud) = failed f w' (kept ∙ same) (λ e. loud (calm e))

-- Two reads in a row.
module _ {A B : Type 0} (f : A → Action B) (w : World) (a : A) (r : Result B)
    (rest : (v : World) → v.committed ≡ w.committed → Read r v (f a v)) where
  both-Read :
      {x : Result A × World}
      → Read (ok a) w x
      → Read r w (elim x.0 as (λ _. Result B × World) [ ok b ↦ f b x.1 | err e ↦ (err e, x.1) ])
  both-Read (read v same calm) = later-Read same calm (rest v same)
  both-Read (failed g w' same loud) = failed g w' same loud

  pub then-Read : (m : Action A) → Read (ok a) w (m w) → Read r w ((m >>= f) w)
  unfolding ◌>>=◌
  then-Read m h = both-Read h

-- A value read from tables that have not changed.
pub read_at :
    {A : Type 0} (f : Db → A) (d : Db) {d' : Db}
    → d' ≡ d
    → ◌≡◌ {A = Result (A × Db)} (ok (f d', d')) (ok (f d, d'))
read_at f d {d'} same = ap (λ a. ok (a, d')) (ap f same)

-- A guard before a read: its error stands for what would be read.
pub guard-Read :
    {A : Type 0} (b : Bool) (e : Error) (k : Action A) (r : Result A) (w : World)
    → Read r w (k w)
    → Read (if b then err e else r) w ((raise_if b e >> k) w)
unfolding ◌>>=◌
guard-Read true e k r w h = read w refl (λ c. c)
guard-Read false e k r w h = h
