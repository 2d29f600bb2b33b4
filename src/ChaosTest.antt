-- ===== src/ChaosTest.antt =====
-- cmd/chaostest/main.go: events, a poller that is cancelled, a second one, and the count of what is lost.
pub mod Counts
pub mod Losses
pub mod Deliveries
use idem_ledger.Base.{
  ℕ, zero, suc, ◌+◌, String, Bool, true, false, ◌||◌, Option, none, some, List, [], ◌∷◌, ◌==◌,
  if◌then◌else◌, count_rows,
}
use idem_ledger.Base.Int.{ℤ, pos, ◌-ℤ◌}
use idem_ledger.Db.{Db, OutboxEvent, EventStatus, Result, ok, err, Error}
use idem_ledger.Server.{
  World, Action, Sql, pure, ◌>>=◌, ◌>>◌, begin, commit, in_transaction, on_pool,
}
use idem_ledger.Store.Outbox.{OutboxMetrics, has_status, count_statuses, insert_outbox_event_in_tx}
use idem_ledger.Outbox.{Merchant, Signal, run_poller, poll}

-- DELETE FROM outbox
abbrev pub delete_events : Sql (Unit {0})
delete_events now d = ok (tt, record d { outbox = [] })

-- `uuid` is gen_random_uuid, `payload` what json.Marshal gives.
module _ (uuid : ℕ → ℕ) (payload url : String) where
  unfoldable pub insert_events : ℕ → Action (Unit {0})
  unfolding insert_outbox_event_in_tx
  insert_events zero = pure tt
  insert_events (suc n) = do
    insert_outbox_event_in_tx uuid "chaos.test" payload (some url)
    insert_events n

  -- seedEvents
  unfoldable pub seed_events : ℕ → Action (Unit {0})
  unfolding insert_events begin commit in_transaction
  seed_events n = in_transaction (do begin; insert_events n; commit)

abbrev pub is_open : OutboxEvent → Bool
is_open e = has_status EventStatus.pending e || has_status EventStatus.in_flight e

unfoldable pub count_open : Sql ℕ
count_open now d = ok (count_rows is_open d.outbox, d)

-- What comes next while the test waits: a poll of the second poller, or a look at the table.
pub data Moment : Type 0 where
  poller_ticks looks : Moment

pub data Drain : Type 0 where
  drained timed_out : Drain
  failed : Error → Drain

abbrev pub metrics_of : Db → OutboxMetrics
metrics_of d = record {
  pending = count_rows (has_status EventStatus.pending) d.outbox;
  in_flight = count_rows (has_status EventStatus.in_flight) d.outbox;
  delivered = count_rows (has_status EventStatus.delivered) d.outbox;
  dead_letter = count_rows (has_status EventStatus.dead_letter) d.outbox;
}

-- How the failure of a query shows: as the error of Query, or, after the rows of some statuses have
-- come, as the end of the rows, whose Err the code does not read.
abbrev pub Cut : Type 0
Cut = Option (EventStatus → Bool)

abbrev pub seen_only : (EventStatus → Bool) → OutboxMetrics → OutboxMetrics
seen_only seen m = record {
  pending = if seen EventStatus.pending then m.pending else 0;
  in_flight = if seen EventStatus.in_flight then m.in_flight else 0;
  delivered = if seen EventStatus.delivered then m.delivered else 0;
  dead_letter = if seen EventStatus.dead_letter then m.dead_letter else 0;
}

-- The error that is logged, and the counts, of which there are none after an error of Query.
abbrev pub counted : Cut → OutboxMetrics → Result OutboxMetrics → Option Error × OutboxMetrics
counted cut there (ok m) = (none, m)
counted none there (err e) = (some e, seen_only (λ _. false) there)
counted (some seen) there (err e) = (none, seen_only seen there)

-- queryStatusCounts
abbrev pub query_status_counts : Cut → World → (Option Error × OutboxMetrics) × World
query_status_counts cut w =
    let (r, w') = on_pool count_statuses w in (counted cut (metrics_of w.committed) r, w')

-- numEvents - totalDelivered - deadLettered
abbrev pub lost_of : ℕ → OutboxMetrics → ℤ
lost_of n m = pos n -ℤ pos (m.delivered + m.dead_letter)

-- log.Fatalf, or the error of the counts that is logged, if any, and the number of lost events.
pub data Verdict : Type 0 where
  fatal : Verdict
  lost : Option Error → ℤ → Verdict

module _ (m : Merchant) where
  -- waitUntilDrained, while the second poller runs.
  unfoldable pub wait_until_drained : List Moment → World → Drain × World
  unfolding poll count_open on_pool
  wait_until_drained [] w = (timed_out, w)
  wait_until_drained (poller_ticks ∷ moments) w = wait_until_drained moments (poll m w).1
  wait_until_drained (looks ∷ moments) w =
      let (r, w') = on_pool count_open w in
      let rest = wait_until_drained moments w' in
      elim r [ ok n ↦ if n == 0 then (drained, w') else rest | err e ↦ (failed e, w') ]

  abbrev pub count_lost : Cut → ℕ → Drain × World → Verdict × World
  count_lost cut n (drained, w) =
      let ((logged, counts), w') = query_status_counts cut w in (lost logged (lost_of n counts), w')
  count_lost cut n (timed_out, w) = (fatal, w)
  count_lost cut n (failed e, w) = (fatal, w)

  abbrev pub after_seeds :
      Cut → ℕ → List Signal → List Moment → Result (Unit {0}) × World → Verdict × World
  after_seeds cut n signals moments (err e, w) = (fatal, w)
  after_seeds cut n signals moments (ok u, w) =
      count_lost cut n (wait_until_drained moments (run_poller m signals w))

  -- main, for `n` events.
  unfoldable pub chaos_test :
      Cut → (ℕ → ℕ) → String → String → ℕ → List Signal → List Moment → World → Verdict × World
  unfolding seed_events run_poller wait_until_drained
  chaos_test cut uuid payload url n signals moments w =
      after_seeds cut n signals moments
        ((on_pool delete_events >> seed_events uuid payload url n) w)
