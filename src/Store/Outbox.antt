-- ===== src/Store/Outbox.antt =====
-- internal/store/outbox.go: the outbox table.
use idem_ledger.Base.{
  ℕ, ◌+◌, String, Bool, Option, none, some, List, [], ◌∷◌, ◌++◌, ◌==◌, if◌then◌else◌, exists_row,
  ◌*◌, ◌^◌, true, false, leb, map, take, update, where_rows, count_rows,
}
use idem_ledger.Db.{
  OutboxEvent, EventStatus, pending, in_flight, delivered, dead_letter, ok, err, pg, unique,
}
use idem_ledger.Server.{Action, Sql, ◌>>=◌, in_tx, on_pool, draw}

abbrev pub event_by_id : ℕ → OutboxEvent → Bool
event_by_id i e = e.id == i

-- A new event is pending, was never tried, and has no deadline. The server draws its id.
unfoldable pub new_event : ℕ → String → String → Option String → ℕ → OutboxEvent
new_event id event_type payload target_url now = record {
  id = id;
  event_type = event_type;
  payload = payload;
  target_url = target_url;
  status = pending;
  attempt_count = 0;
  next_attempt_at = none;
  failure_reason = none;
  created_at = now;
  delivered_at = none;
}

unfoldable pub insert_event : ℕ → String → String → Option String → Sql (Unit {0})
insert_event id event_type payload target_url now d =
    if exists_row (event_by_id id) d.outbox
    then err (pg unique)
    else ok
        (tt, record d { outbox = d.outbox ++ new_event id event_type payload target_url now ∷ [] })

-- InsertOutboxEventInTx
unfoldable pub insert_outbox_event_in_tx :
    (ℕ → ℕ) → String → String → Option String → Action (Unit {0})
unfolding insert_event
insert_outbox_event_in_tx uuid event_type payload target_url = do
  id ← draw uuid
  in_tx (insert_event id event_type payload target_url)

-- 30 * time.Second
abbrev pub stale_in_flight_threshold : ℕ
stale_in_flight_threshold = 30000

abbrev pub is_past : Option ℕ → ℕ → Bool → Bool
is_past none now unset = unset
is_past (some t) now unset = leb t now

abbrev pub is_due_as : EventStatus → Option ℕ → ℕ → Bool
is_due_as pending next now = is_past next now true
is_due_as in_flight next now = is_past next now false
is_due_as _ next now = false

-- The WHERE clause of the claim. `next_attempt_at <= now()` is not true of NULL.
abbrev pub is_due : ℕ → OutboxEvent → Bool
is_due now e = is_due_as e.status e.next_attempt_at now

unfoldable pub insert_by_age : OutboxEvent → List OutboxEvent → List OutboxEvent
insert_by_age e [] = e ∷ []
insert_by_age e (x ∷ xs) =
    let rest = insert_by_age e xs in if leb e.created_at x.created_at then e ∷ x ∷ xs else x ∷ rest

-- ORDER BY created_at
unfoldable pub by_age : List OutboxEvent → List OutboxEvent
unfolding insert_by_age
by_age [] = []
by_age (e ∷ es) = insert_by_age e (by_age es)

abbrev pub is_among : List OutboxEvent → OutboxEvent → Bool
is_among es e = exists_row (event_by_id e.id) es

abbrev pub claimed_event : ℕ → OutboxEvent → OutboxEvent
claimed_event now e = record e {
  status = in_flight;
  next_attempt_at = some (now + stale_in_flight_threshold);
}

-- The rows that the subquery locks.
unfoldable pub due_events : ℕ → ℕ → List OutboxEvent → List OutboxEvent
unfolding by_age
due_events limit now es = take limit (by_age (where_rows (is_due now) es))

unfoldable pub claim_events : ℕ → Sql (List OutboxEvent)
unfolding due_events
claim_events limit now d =
    let among = is_among (due_events limit now d.outbox) in
    ok (
      map (claimed_event now) (where_rows among d.outbox),
      record d { outbox = update among (claimed_event now) d.outbox },
    )

-- ClaimPendingEvents
unfoldable pub claim_pending_events : ℕ → Action (List OutboxEvent)
unfolding claim_events
claim_pending_events limit = on_pool (claim_events limit)

unfoldable pub update_event : ℕ → (ℕ → OutboxEvent → OutboxEvent) → Sql (Unit {0})
update_event id f now d = ok (tt, record d { outbox = update (event_by_id id) (f now) d.outbox })

abbrev pub delivered_event : ℕ → OutboxEvent → OutboxEvent
delivered_event now e = record e {
  status = delivered;
  delivered_at = some now;
  next_attempt_at = none;
}

-- MarkDelivered
unfoldable pub mark_delivered : ℕ → Action (Unit {0})
unfolding update_event
mark_delivered id = on_pool (update_event id delivered_event)

abbrev pub dead_event : String → ℕ → OutboxEvent → OutboxEvent
dead_event reason now e = record e {
  status = dead_letter;
  failure_reason = some reason;
  next_attempt_at = none;
  attempt_count = e.attempt_count + 1;
}

-- MarkDeadLetter
unfoldable pub mark_dead_letter : ℕ → String → Action (Unit {0})
unfolding update_event
mark_dead_letter id reason = on_pool (update_event id (dead_event reason))

-- now() + interval '5 seconds' * power(2, n) + random() * interval '5 seconds'
abbrev pub retry_at : ℕ → ℕ → ℕ → ℕ
retry_at n jitter now = now + 5000 * 2 ^ n + jitter

abbrev pub failed_event : String → ℕ → ℕ → ℕ → OutboxEvent → OutboxEvent
failed_event reason max_retries jitter now e = record e {
  attempt_count = e.attempt_count + 1;
  failure_reason = some reason;
  status = if leb max_retries (e.attempt_count + 1) then dead_letter else pending;
  next_attempt_at =
      if leb max_retries (e.attempt_count + 1)
      then none
      else some (retry_at (e.attempt_count + 1) jitter now);
}

-- MarkFailed; `jitter` is the random part, in milliseconds.
unfoldable pub mark_failed : ℕ → String → ℕ → ℕ → Action (Unit {0})
unfolding update_event
mark_failed id reason max_retries jitter =
    on_pool (update_event id (failed_event reason max_retries jitter))

pub record OutboxMetrics : Type 0 where
  pub pending : ℕ
  pub in_flight : ℕ
  pub delivered : ℕ
  pub dead_letter : ℕ

abbrev pub has_status : EventStatus → OutboxEvent → Bool
has_status EventStatus.pending e = elim e.status [ EventStatus.pending ↦ true | _ ↦ false ]
has_status EventStatus.in_flight e = elim e.status [ EventStatus.in_flight ↦ true | _ ↦ false ]
has_status EventStatus.delivered e = elim e.status [ EventStatus.delivered ↦ true | _ ↦ false ]
has_status EventStatus.dead_letter e = elim e.status [ EventStatus.dead_letter ↦ true | _ ↦ false ]

-- SELECT status, COUNT(*) … GROUP BY status; a status with no row keeps the 0 of `var m`.
unfoldable pub count_statuses : Sql OutboxMetrics
count_statuses now d = ok (
  record {
    pending = count_rows (has_status EventStatus.pending) d.outbox;
    in_flight = count_rows (has_status EventStatus.in_flight) d.outbox;
    delivered = count_rows (has_status EventStatus.delivered) d.outbox;
    dead_letter = count_rows (has_status EventStatus.dead_letter) d.outbox;
  },
  d,
)

-- GetOutboxMetrics
unfoldable pub get_outbox_metrics : Action OutboxMetrics
unfolding count_statuses
get_outbox_metrics = on_pool count_statuses
