-- ===== src/Tests/Webhooks.antt =====
-- The theorems on the outbox, at events that were tried a few times.
use idem_ledger.Base.{
  ℕ, leb, select, ◌+◌, ◌≤◌, refl, All, map, update, where_rows, exists_row, take, ◌≡◌, true, none,
  some, [], ◌∷◌, arith,
}
use idem_ledger.Db.{empty_db, OutboxEvent, pending, in_flight, dead_letter, ok}
use idem_ledger.Server.{World, fine, lost, ◌>>=◌, on_pool}
use idem_ledger.Outbox.{Merchant, answered, poll, deliver, logged}
use idem_ledger.Outbox.Tracked.{IsTracked, AllTracked, Moves, poll-AllTracked}
use idem_ledger.Tests.Data.{world}
use idem_ledger.Store.Outbox.{
  event_by_id, update_event, claim_pending_events, mark_failed, failed_event, delivered_event,
  is_due,
}
use idem_ledger.Outbox.Retries.{
  Failure, after_failures, after_failures-status, mark_failed-reopens, backoff_bounds,
}

abbrev event : OutboxEvent
event = record {
  id = 7;
  event_type = "transfer.created";
  payload = "{}";
  target_url = some "https://merchant.example/hook";
  status = in_flight;
  attempt_count = 5;
  next_attempt_at = some 30000;
  failure_reason = none;
  created_at = 0;
  delivered_at = none;
}

abbrev refused : Failure
refused = record { reason = "Bad Gateway"; jitter = 3; now = 1000 }

after_failures-status_example :
    ((after_failures (refused ∷ refused ∷ refused ∷ []) event).attempt_count ≡ 8)
    × ((after_failures (refused ∷ refused ∷ refused ∷ []) event).status ≡ dead_letter)
after_failures-status_example = after_failures-status refused (refused ∷ refused ∷ []) event

-- Another poller has delivered the event.
abbrev late_world : World
late_world = world (record empty_db { outbox = delivered_event 900 event ∷ [] }) []

reopened : (w' : World) × (mark_failed 7 "Bad Gateway" 8 3 late_world ≡ (ok tt, w'))
unfolding mark_failed update_event on_pool
reopened = (_, refl)

mark_failed-reopens_example :
    (late : OutboxEvent) × (t : ℕ) × (select (event_by_id 7) reopened.0.committed.outbox
      ≡ some late)
    × (late.status ≡ pending)
    × (late.target_url ≡ some "https://merchant.example/hook")
    × ((later : ℕ) → t ≤ later → is_due later late ≡ true)
unfolding select
mark_failed-reopens_example =
    mark_failed-reopens 7 "Bad Gateway" 3 late_world reopened.0 (delivered_event 900 event) refl
      refl (omega arith) reopened.1

backoff_bounds_example :
    let late = failed_event "Bad Gateway" 8 3 1000 event in
    (t : ℕ) × (late.next_attempt_at ≡ some t)
    × (1000 + 10000 ≤ t)
    × (t ≤ 1000 + 645000)
    × ((s : ℕ) → is_due s late ≡ leb t s)
backoff_bounds_example = backoff_bounds event "Bad Gateway" 3 1000 (omega arith) (omega arith)

abbrev merchant : Merchant
merchant = record {
  post = λ e. answered 502;
  status_text = λ code. "Bad Gateway";
  bad_target = λ text. text;
  jitter = λ e. 3;
}

-- The server's answer to the claim is fine, and that to the mark is lost.
abbrev hooked : World
hooked =
    world (record empty_db { outbox = event ∷ [] })
      (record { outcome = fine; now = 40000; wall = 40000 }
        ∷ record { outcome = lost; now = 41000; wall = 41000 }
        ∷ [])

event-IsTracked : IsTracked event
event-IsTracked = record { deadline = λ _ h. absurd (cc); tries_left = λ h. absurd (cc) }

poll-AllTracked_example :
    AllTracked (poll merchant hooked).1.committed
    × All (λ e. Moves e.status e.next_attempt_at) (poll merchant hooked).1.committed.outbox
poll-AllTracked_example = poll-AllTracked merchant hooked (event-IsTracked, tt)

-- The lost mark was made: the event has counted its sixth attempt.
counts_lost_mark : map (λ e. e.attempt_count) (poll merchant hooked).1.committed.outbox ≡ 6 ∷ []
unfolding poll ◌>>=◌ on_pool claim_pending_events mark_failed update where_rows exists_row deliver
    take logged
counts_lost_mark = refl
