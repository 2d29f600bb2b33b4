-- ===== src/Server.antt =====
-- A client's session with the database server (pgx.Tx and pgxpool.Pool, as the code uses them):
-- transactions, statements, and what the server and the network may answer. The answers are a
-- tape that the program does not choose; when it is used up every call is answered `fine`.
pub mod Laws
pub mod Keeps
pub mod Transactions
pub mod Fine
pub mod Calls
pub mod Reads
use idem_ledger.Base.{ℕ, ◌+◌, Bool, true, false, Option, none, some, List, [], ◌∷◌}
use idem_ledger.Db.{Db, Error, Result, ok, err, SqlState, pg, connection}

pub data Fault : Type 0 where
  server : SqlState → Fault
  network : Fault

pub data Outcome : Type 0 where
  fine : Outcome
  fails : Fault → Outcome  -- the call had no effect
  lost : Outcome  -- the connection broke after the server had done the work

pub record Reply : Type 0 where
  pub outcome : Outcome
  pub now : ℕ  -- the server's clock when the call begins
  pub wall : ℕ  -- the program's clock when the answer arrives

-- `committed` is what other sessions see, `db` what the open transaction sees, `now` what `now()`
-- means in it, and `drawn` the number of random identifiers drawn so far.
pub record World : Type 0 where
  pub committed : Db
  pub db : Db
  pub tape : List Reply
  pub now : ℕ
  pub wall : ℕ
  pub drawn : ℕ

abbrev pub Action : Type 0 → Type 0
Action A = World → Result A × World

-- One SQL statement, at the time `now()`: its effect on the tables, or the error that it raises.
abbrev pub Sql : Type 0 → Type 0
Sql A = ℕ → Db → Result (A × Db)

abbrev pub error_of : Fault → Error
error_of (server s) = pg s
error_of network = connection

module _ {A : Type 0} where
  abbrev pub pure : A → Action A
  pure a w = (ok a, w)

  abbrev pub raise : Error → Action A
  raise e w = (err e, w)

infixl 5 ◌>>=◌ ◌>>◌
unfoldable pub ◌>>=◌ : {A B : Type 0} → Action A → (A → Action B) → Action B
◌>>=◌ m f w = let (r, w') = m w in elim r [ ok a ↦ f a w' | err e ↦ (err e, w') ]

abbrev pub ◌>>◌ : {A B : Type 0} → Action A → Action B → Action B
m >> k = m >>= λ _. k

abbrev pub raise_if : Bool → Error → Action (Unit {0})
raise_if true e w = (err e, w)
raise_if false e w = (ok tt, w)

-- A caller that reads the error of a call and answers with another.
unfoldable pub map_error : {A : Type 0} → (Error → Error) → Action A → Action A
map_error f m w = let (r, w') = m w in elim r [ ok a ↦ (ok a, w') | err e ↦ (err (f e), w') ]

answer_from : List Reply → World → Reply × World
answer_from [] w = (record { outcome = fine; now = w.now; wall = w.wall }, w)
answer_from (r ∷ rest) w = (r, record w { tape = rest; wall = r.wall })

-- The answer to the next call.
pub answer : World → Reply × World
unfolding answer_from
answer w = answer_from w.tape w

settle : {A : Type 0} → World → Result (A × Db) → Result A × World
settle w (ok (a, d)) = (ok a, record w { db = d })
settle w (err e) = (err e, w)

-- tx.Exec and tx.QueryRow: a statement in the open transaction.
unfoldable pub in_tx : {A : Type 0} → Sql A → Action A
unfolding settle answer
in_tx s w =
    let (r, w') = answer w in
    elim r.outcome [
      | fine ↦ settle w' (s w'.now w'.db)
      | fails f ↦ (err (error_of f), w')
      | lost ↦ (err connection, w')
    ]

-- pool.Begin: the transaction starts from what is committed.
unfoldable pub begin : Action (Unit {0})
unfolding answer
begin w =
    let (r, w') = answer w in
    elim r.outcome [
      | fine ↦ (ok tt, record w' { db = w'.committed; now = r.now })
      | fails f ↦ (err (error_of f), w')
      | lost ↦ (err connection, w')
    ]

commit_as : Outcome → World → Result (Unit {0}) × World
commit_as fine w = (ok tt, record w { committed = w.db })
commit_as (fails f) w = (err (error_of f), w)
commit_as lost w = (err connection, record w { committed = w.db })

-- tx.Commit. If the answer is lost, the work is committed and the program does not know it.
unfoldable pub commit : Action (Unit {0})
unfolding answer commit_as
commit w = let (r, w') = answer w in commit_as r.outcome w'

-- tx.Rollback, whose error the code ignores.
abbrev pub rollback : World → World
rollback w = record w { db = w.committed }

-- A transaction that is rolled back when its function returns (after a commit that does nothing).
unfoldable pub in_transaction : {A : Type 0} → Action A → Action A
in_transaction m w = let (r, w') = m w in (r, rollback w')

alone_as : {A : Type 0} → Outcome → World → Result (A × Db) → Result A × World
alone_as (fails f) w x = (err (error_of f), w)
alone_as fine w (ok (a, d)) = (ok a, record w { db = d; committed = d })
alone_as lost w (ok (a, d)) = (err connection, record w { db = d; committed = d })
alone_as _ w (err e) = (err e, w)

-- pool.Exec and pool.Query: a statement that is a transaction of its own.
unfoldable pub on_pool : {A : Type 0} → Sql A → Action A
unfolding alone_as answer
on_pool s w =
    let (r, w') = answer w in alone_as r.outcome (record w' { now = r.now }) (s r.now w'.committed)

-- uuid.New and gen_random_uuid: `uuid` is the sequence of the values that they will give.
unfoldable pub draw : (ℕ → ℕ) → Action ℕ
draw uuid w = (ok (uuid w.drawn), record w { drawn = w.drawn + 1 })
