-- ===== src/Server/Transactions.antt =====
-- How BEGIN and COMMIT may end, and what a retry loop and a rollback preserve.
use idem_ledger.Base.{◌≡◌, sym, subst, arith}
use idem_ledger.Db.{Error, Result, ok, err, connection}
use idem_ledger.Server.{
  World, Action, pure, ◌>>=◌, ◌>>◌, begin, commit, map_error, answer, Outcome, fine, fails, lost,
  commit_as, in_transaction,
}

-- A transaction that has begun sees what is committed.
pub begin-eq-ok :
    (w : World) {u : Unit {0}} {w' : World}
    → begin w ≡ (ok u, w')
    → (w'.db ≡ w.committed) × (w'.committed ≡ w.committed)
unfolding begin
begin-eq-ok w h = ground arith

-- COMMIT fails and changes nothing, or works, or works and the answer is lost.
pub data Committed (w : World) : Result (Unit {0}) × World → Type 0 where
  refused : (e : Error) (v : World) → v.committed ≡ w.committed → Committed w (err e, v)
  accepted : (v : World) → v.committed ≡ w.db → Committed w (ok tt, v)
  unheard : (v : World) → v.committed ≡ w.db → Committed w (err connection, v)

commit_as-Committed :
    (o : Outcome) (w v : World)
    → v.db ≡ w.db
    → v.committed ≡ w.committed
    → Committed w (commit_as o v)
unfolding commit_as
commit_as-Committed fine w v d c = accepted _ d
commit_as-Committed (fails f) w v d c = refused _ v c
commit_as-Committed lost w v d c = unheard _ d

pub commit-Committed : (w : World) → Committed w (commit w)
unfolding commit
commit-Committed w =
    commit_as-Committed (answer w).0.outcome w (answer w).1 (ground arith) (ground arith)

map_error-Committed :
    (f : Error → Error) (w : World) {x : Result (Unit {0}) × World}
    → f connection ≡ connection
    → Committed w x
    → Committed w (elim x.0 [ ok a ↦ (ok a, x.1) | err e ↦ (err (f e), x.1) ])
map_error-Committed f w same (refused e v c) = refused (f e) v c
map_error-Committed f w same (accepted v c) = accepted v c
map_error-Committed f w same (unheard v c) =
    subst (λ e. Committed w (err e, v)) (sym same) (unheard v c)

-- What ends in a COMMIT ends as the COMMIT does.
pub commit_cases {κ} :
    {A : Type 0} (P : Result A × World → Type κ) (a : A) (m : Action (Unit {0})) (w : World)
    → Committed w (m w)
    → ((e : Error) (v : World) → v.committed ≡ w.committed → P (err e, v))
    → ((v : World) → v.committed ≡ w.db → P (ok a, v))
    → ((v : World) → v.committed ≡ w.db → P (err connection, v))
    → P ((m >> pure a) w)
unfolding ◌>>=◌
commit_cases P a m w c bad good unknown = go c
  where
    go :
        {x : Result (Unit {0}) × World}
        → Committed w x
        → P (elim x.0 [ ok _ ↦ (ok a, x.1) | err e ↦ (err e, x.1) ])
    go (refused e v h) = bad e v h
    go (accepted v h) = good v h
    go (unheard v h) = unknown v h

-- A caller that reads the error of a COMMIT, and passes a broken connection on.
pub commit-map_error-Committed :
    (f : Error → Error) (w : World) → f connection ≡ connection → Committed w (map_error f commit w)
unfolding map_error
commit-map_error-Committed f w same = map_error-Committed f w same (commit-Committed w)

pub commit-eq-ok :
    (w : World) {u : Unit {0}} {w' : World} → commit w ≡ (ok u, w') → w'.committed ≡ w.db
unfolding commit commit_as
commit-eq-ok w h = ground arith

-- A transaction that succeeds has succeeded before its rollback, which no longer changes what is committed.
pub in_transaction-eq-ok :
    {A : Type 0} (m : Action A) (w : World) {a : A} {w' : World}
    → in_transaction m w ≡ (ok a, w')
    → (v : World) × (m w ≡ (ok a, v)) × (w'.committed ≡ v.committed)
unfolding in_transaction
in_transaction-eq-ok m w h = ((m w).1, ground arith, ground arith)
