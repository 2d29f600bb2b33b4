-- ===== src/ChaosTest/Losses.antt =====
-- The verdict of the chaos test on lost events.
use idem_ledger.Base.{
  ℕ, ◌+◌, ◌-◌, ◌≤◌, ◌≡◌, none, some, refl, sym, subst, arith, String, Bool, true, false, List, [],
  ◌∷◌, ◌==◌, length, count_rows, if◌then◌else◌,
}
use idem_ledger.Base.Int.{pos, ◌-ℤ◌}
use idem_ledger.Db.{Db, OutboxEvent, EventStatus, Error, Result, ok, err}
use idem_ledger.Server.{World, ◌>>◌, on_pool, error_of}
use idem_ledger.Server.Reads.{Read, on_pool-Read}
use idem_ledger.Store.Outbox.{OutboxMetrics, has_status, count_statuses}
use idem_ledger.Outbox.{Merchant, Signal}
use idem_ledger.ChaosTest.{
  delete_events, seed_events, is_open, count_open, Moment, poller_ticks, looks, Drain, drained,
  timed_out, failed, Cut, metrics_of, counted, lost_of, Verdict, fatal, lost, wait_until_drained,
  count_lost, after_seeds, chaos_test,
}
use idem_ledger.ChaosTest.Counts.{Holds, poll-Holds, run_poller-Holds, seeds-Holds, counts}

abbrev NoneOpen : Db → Type 0
NoneOpen d = count_rows is_open d.outbox ≡ 0

-- Where the wait ends: all events are there, and none is open if it ends with success.
data Waited (n : ℕ) : Drain × World → Type 0 where
  all_done : (w : World) → Holds n w.committed → NoneOpen w.committed → Waited n (drained, w)
  too_late : (w : World) → Waited n (timed_out, w)
  broke : (e : Error) (w : World) → Waited n (failed e, w)

looked :
    (n : ℕ) (w : World) (rest : World → Drain × World) {x : Result ℕ × World}
    → Holds n w.committed
    → ((v : World) → Holds n v.committed → Waited n (rest v))
    → Read (ok (count_rows is_open w.committed.outbox)) w x
    → Waited n (elim x.0 as (λ _. Drain × World) [
      | ok k ↦ if k == 0 then (drained, x.1) else rest x.1
      | err e ↦ (failed e, x.1)
    ])
looked n w rest h more (Read.read v same calm) = by_test _ refl
  where
    by_test :
        (b : Bool)
        → (count_rows is_open w.committed.outbox == 0) ≡ b
        → Waited n (if b then (drained, v) else rest v)
    by_test true e =
        let none_open : count_rows is_open w.committed.outbox ≡ 0 = ground arith in
        all_done v (rw same h) (rw same none_open)
    by_test false e = more v (rw same h)
looked n w rest h more (Read.failed f v same loud) = broke _ v

module _ (m : Merchant) where
  wait-Waited :
      (n : ℕ) (moments : List Moment) (w : World)
      → Holds n w.committed
      → Waited n (wait_until_drained m moments w)
  unfolding wait_until_drained count_open
  wait-Waited n [] w h = too_late w
  wait-Waited n (poller_ticks ∷ moments) w h = wait-Waited n moments _ (poll-Holds m n w h)
  wait-Waited n (looks ∷ moments) w h =
      looked n w (wait_until_drained m moments) h (λ v k. wait-Waited n moments v k)
        (on_pool-Read count_open w _ (λ now. refl))

-- log.Fatalf; or no event is lost, and no error is logged; or the error of the last query is logged, and
-- all events seem lost; or that query broke off in its rows, and some may seem lost.
pub data Ends (cut : Cut) (n : ℕ) : Verdict × World → Type 0 where
  stopped : (w : World) → Ends cut n (fatal, w)
  none_lost : (w : World) → Ends cut n (lost none (pos 0), w)
  uncounted : (e : Error) (w : World) → cut ≡ none → Ends cut n (lost (some e) (pos n), w)
  broke_off :
      (seen : EventStatus → Bool) (k : ℕ) (w : World)
      → cut ≡ some seen
      → k ≤ n
      → Ends cut n (lost none (pos k), w)

total :
    (n : ℕ) (es : List OutboxEvent)
    → length es ≡ n
    → count_rows is_open es ≡ 0
    → pos n
        -ℤ pos (
            count_rows (has_status EventStatus.delivered) es
            + count_rows (has_status EventStatus.dead_letter) es)
      ≡ pos 0
unfolding ◌-ℤ◌
total n es h none_open = let all = counts es in ground arith

total_uncounted : (n : ℕ) → pos n -ℤ pos (0 + 0) ≡ pos n
unfolding ◌-ℤ◌
total_uncounted n = ground arith

-- What is left of the events without those counted among them.
partly :
    (n : ℕ) (es : List OutboxEvent) (a b : Bool)
    → length es ≡ n
    → let seen =
        (if a then count_rows (has_status EventStatus.delivered) es else 0)
        + (if b then count_rows (has_status EventStatus.dead_letter) es else 0) in
      (k : ℕ) × (k ≤ n) × (pos n -ℤ pos seen ≡ pos k)
unfolding ◌-ℤ◌
partly n es a b h =
    let all = counts es in
    let seen =
      (if a then count_rows (has_status EventStatus.delivered) es else 0)
      + (if b then count_rows (has_status EventStatus.dead_letter) es else 0) in
    (n - seen, omega arith, ground arith)

counted-Ends :
    (cut : Cut) (n : ℕ) (w : World) {x : Result OutboxMetrics × World}
    → Holds n w.committed
    → NoneOpen w.committed
    → Read (ok (metrics_of w.committed)) w x
    → let (logged, seen) = counted cut (metrics_of w.committed) x.0 in
      Ends cut n (lost logged (lost_of n seen), x.1)
counted-Ends cut n w h none_open (Read.read v same calm) =
    subst (λ z. Ends cut n (lost none z, v)) (sym (total n w.committed.outbox h none_open))
      (none_lost v)
counted-Ends none n w h none_open (Read.failed f v same loud) =
    subst (λ z. Ends none n (lost (some (error_of f)) z, v)) (sym (total_uncounted n))
      (uncounted (error_of f) v refl)
counted-Ends (some seen) n w h none_open (Read.failed f v same loud) =
    let (k, few, left) =
      partly n w.committed.outbox (seen EventStatus.delivered) (seen EventStatus.dead_letter) h in
    subst (λ z. Ends (some seen) n (lost none z, v)) (sym left) (broke_off seen k v refl few)

module _ (m : Merchant) (cut : Cut) where
  count_lost-Ends : (n : ℕ) {x : Drain × World} → Waited n x → Ends cut n (count_lost m cut n x)
  unfolding count_statuses
  count_lost-Ends n (all_done w h none_open) =
      counted-Ends cut n w h none_open
        (on_pool-Read count_statuses w (metrics_of w.committed) (λ now. refl))
  count_lost-Ends n (too_late w) = stopped w
  count_lost-Ends n (broke e w) = stopped w

  after_seeds-Ends :
      (n : ℕ) (signals : List Signal) (moments : List Moment) (x : Result (Unit {0}) × World)
      → (x.0 ≡ ok tt → Holds n x.1.committed)
      → Ends cut n (after_seeds m cut n signals moments x)
  after_seeds-Ends n signals moments (err e, w) h = stopped w
  after_seeds-Ends n signals moments (ok u, w) h =
      count_lost-Ends n (wait-Waited m n moments _ (run_poller-Holds m n signals w (h refl)))

  -- Whatever the merchant and the server answer, wherever the first poller is cancelled, and however the
  -- polls of the second one and the looks at the table follow each other: a chaos test that gets as far as
  -- its verdict reports that no event is lost and logs no error; or, if a failure of its last query shows as
  -- an error of Query, it may log that error and report all events lost; or, if a failure shows as an early end
  -- of the rows, it may log nothing and report some number of events lost, at most all of them.
  pub chaos_test-Ends :
      (uuid : ℕ → ℕ) (payload url : String) (n : ℕ) (signals : List Signal) (moments : List Moment)
      (w : World)
      → Ends cut n (chaos_test m cut uuid payload url n signals moments w)
  unfolding chaos_test
  chaos_test-Ends uuid payload url n signals moments w =
      let seeds = on_pool delete_events >> seed_events uuid payload url n in
      after_seeds-Ends n signals moments (seeds w)
        (λ h. seeds-Holds uuid payload url n w {w' = (seeds w).1} (ground arith))
