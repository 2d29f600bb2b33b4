-- ===== src/LoadTest/Clean.antt =====
-- The verdict of a whole load test.
use idem_ledger.Base.{ℕ, ◌≡◌, refl, String, Option, none, some, List, [], ◌∷◌}
use idem_ledger.Base.Int.{ℤ}
use idem_ledger.Db.{Db, Error, Result, ok, err}
use idem_ledger.Server.{World}
use idem_ledger.Server.Reads.{Read}
use idem_ledger.Ledger.{Env, Request}
use idem_ledger.Ledger.Sound.{IsSound}
use idem_ledger.Guarantees.{
  Reachable, started, called, executes, executes_for_update, executes_optimistic,
}
use idem_ledger.Guarantees.Sound.{Reachable-IsSound}
use idem_ledger.Api.{Strategy, conditional_update, select_for_update, optimistic}
use idem_ledger.LoadTest.{
  seed_from, Draws, requests, run_by, run_transfers, run_and_check, Report, check_invariants,
  load_test,
}
use idem_ledger.LoadTest.Seeds.{Seeded, seed_from-Seeded}
use idem_ledger.LoadTest.Checks.{no_violation, check_invariants-Read}

module _ (env : Env) (strategy : Strategy) where
  run_by-Reachable :
      (by : Strategy) (start : Db) (req : Request) (w : World)
      → Reachable env start w.committed
      → Reachable env start (run_by env strategy by req w).1.committed
  run_by-Reachable conditional_update start req w r = called r (executes req w refl refl)
  run_by-Reachable select_for_update start req w r = called r (executes_for_update req w refl refl)
  run_by-Reachable optimistic start req w r = called r (executes_optimistic req w refl refl)

  run_transfers-Reachable :
      (start : Db) (reqs : List Request) (w : World)
      → Reachable env start w.committed
      → Reachable env start (run_transfers env strategy reqs w).1.committed
  unfolding run_transfers
  run_transfers-Reachable start [] w r = r
  run_transfers-Reachable start (req ∷ reqs) w r =
      run_transfers-Reachable start reqs _ (run_by-Reachable strategy start req w r)

  -- The check after any transfers between the seeded accounts.
  pub check_after :
      (cut : Option ℕ) (opening : ℕ → ℤ) (d : Db) (ids : List ℕ) (reqs : List Request) (w : World)
      → Seeded opening d ids w.committed
      → let v = (run_transfers env strategy reqs w).1 in
        Read (ok no_violation) v (check_invariants cut ids v)
  check_after cut opening d ids reqs w s =
      check_invariants-Read s.after cut ids _
        (Reachable-IsSound s.after s.sound (run_transfers-Reachable w.committed reqs w started))
        s.funds

  -- How a load test may end: a job finds no receiver; a call fails; or the report is printed.
  pub data Ends : Option (Result Report × World) → Type 0 where
    stuck : Ends none
    fatal : (e : Error) (w : World) → Ends (some (err e, w))
    reports : (w : World) → Ends (some (ok no_violation, w))

  Read-Ends : (w : World) {x : Result Report × World} → Read (ok no_violation) w x → Ends (some x)
  Read-Ends w (Read.read v same calm) = reports v
  Read-Ends w (Read.failed f v same loud) = fatal _ v

  run_and_check-Ends :
      (cut : Option ℕ) (opening : ℕ → ℤ) (d : Db) (ids : List ℕ) (reqs : Option (List Request))
      (w : World)
      → Seeded opening d ids w.committed
      → Ends (run_and_check env strategy cut ids reqs w)
  run_and_check-Ends cut opening d ids none w s = stuck
  run_and_check-Ends cut opening d ids (some reqs) w s =
      Read-Ends _ (check_after cut opening d ids reqs w s)

  from_seeds :
      (cut : Option ℕ) (name_of : ℕ → String) (n : ℕ) (jobs : List Draws) (opening : ℕ → ℤ)
      (w : World) (x : Result (List ℕ) × World)
      → IsSound opening w.committed
      → seed_from name_of 0 n w ≡ x
      → Ends (elim x.0 as (λ _. Option (Result Report × World)) [
        | ok ids ↦ run_and_check env strategy cut ids (requests ids jobs) x.1
        | err e ↦ some (err e, x.1)
      ])
  from_seeds cut name_of n jobs opening w (ok ids, v) s e =
      run_and_check-Ends cut opening w.committed ids (requests ids jobs) v
        (seed_from-Seeded name_of n 0 opening w s e)
  from_seeds cut name_of n jobs opening w (err e', v) s e = fatal e' v

  -- On a sound ledger, for any number of accounts to seed, any draws of the jobs, any strategy, any
  -- answers of the server, and wherever the rows of the drift query break off if it fails: a load test that
  -- prints its report prints that the postings sum to 0, that no seeded account has drifted from its seed
  -- balance, and that none is below 0. Otherwise a job has found no receiver, or a call of the seeding or of
  -- the check has failed.
  pub load_test-Ends :
      (cut : Option ℕ) (name_of : ℕ → String) (n : ℕ) (jobs : List Draws) (opening : ℕ → ℤ)
      (w : World)
      → IsSound opening w.committed
      → Ends (load_test env strategy cut name_of n jobs w)
  unfolding load_test
  load_test-Ends cut name_of n jobs opening w s = from_seeds cut name_of n jobs opening w _ s refl
