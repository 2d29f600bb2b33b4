-- ===== src/Outbox/Retries.antt =====
-- The backoff of an event, and what a late answer does to it.
use idem_ledger.Base.{
  ℕ, ◌+◌, ◌≤◌, ◌<◌, ◌≡◌, ◌^◌, some, String, true, List, [], ◌∷◌, arith, leb, if◌then◌else◌, length,
  select, update, ap, ◌∙◌, refl,
}
use native.Mathlib.Nat.{pow-le-pow_right}
use idem_ledger.Db.{OutboxEvent, pending, delivered, dead_letter, ok}
use idem_ledger.Server.{World}
use idem_ledger.Server.Laws.{on_pool-eq-ok}
use idem_ledger.Store.Outbox.{
  event_by_id, failed_event, is_due, retry_at, mark_failed, update_event,
}
use idem_ledger.Outbox.{max_retries}

pub record Failure : Type 0 where
  pub reason : String
  pub jitter : ℕ
  pub now : ℕ

-- The event after a run of failed deliveries.
pub after_failures : List Failure → OutboxEvent → OutboxEvent
after_failures [] e = e
after_failures (f ∷ fs) e = after_failures fs (failed_event f.reason max_retries f.jitter f.now e)

after_failures-count :
    (fs : List Failure) (e : OutboxEvent)
    → (after_failures fs e).attempt_count ≡ e.attempt_count + length fs
unfolding after_failures
after_failures-count [] e = omega arith
after_failures-count (f ∷ fs) e =
    omega (arith, after_failures-count fs (failed_event f.reason max_retries f.jitter f.now e))

-- After one or more failed deliveries in a row an event has counted each of them; it is pending while
-- its count is below eight, and dead-lettered once the count has reached eight.
pub after_failures-status :
    (f : Failure) (fs : List Failure) (e : OutboxEvent)
    → ((after_failures (f ∷ fs) e).attempt_count ≡ e.attempt_count + 1 + length fs)
      × ((after_failures (f ∷ fs) e).status
          ≡ (if leb 8 (e.attempt_count + 1 + length fs) then dead_letter else pending))
unfolding after_failures
after_failures-status f [] e = (omega arith, ground arith)
after_failures-status f (g ∷ fs) e =
    let e' = failed_event f.reason max_retries f.jitter f.now e in
    let (count, status) = after_failures-status g fs e' in (omega arith, ground arith)

-- The event with an id after an UPDATE of that event.
select-update :
    (id : ℕ) (f : OutboxEvent → OutboxEvent) (es : List OutboxEvent) {e : OutboxEvent}
    → ((x : OutboxEvent) → (f x).id ≡ x.id)
    → select (event_by_id id) es ≡ some e
    → select (event_by_id id) (update (event_by_id id) f es) ≡ some (f e)
unfolding select update
select-update id f [] same h = absurd (cc)
select-update id f (x ∷ es) {e} same h = ground (arith, same x, select-update id f es {e = e} same)

-- `MarkFailed` for an event that another poller has delivered in the meantime: in any tables, if the statement
-- is answered and the event had counted fewer than seven attempts, then the event is pending again in the
-- tables that it leaves, with a time after which every claim finds it due, and it would be sent once more.
pub mark_failed-reopens :
    (id : ℕ) (reason : String) (jitter : ℕ) (w w' : World) (e : OutboxEvent)
    → select (event_by_id id) w.committed.outbox ≡ some e
    → e.status ≡ delivered
    → e.attempt_count + 1 < max_retries
    → mark_failed id reason max_retries jitter w ≡ (ok tt, w')
    → (late : OutboxEvent) × (t : ℕ) × (select (event_by_id id) w'.committed.outbox ≡ some late)
      × (late.status ≡ pending)
      × (late.target_url ≡ e.target_url)
      × ((later : ℕ) → t ≤ later → is_due later late ≡ true)
unfolding mark_failed update_event
mark_failed-reopens id reason jitter w w' e found was_delivered few h =
    let (now, x) = on_pool-eq-ok (update_event id (failed_event reason max_retries jitter)) w h in
    let g = failed_event reason max_retries jitter now in
    let after : w'.committed.outbox ≡ update (event_by_id id) g w.committed.outbox = ground arith in
    (
      g e,
      retry_at (e.attempt_count + 1) jitter now,
      ap (select (event_by_id id)) after ∙ select-update id g w.committed.outbox (λ y. refl) found,
      ground arith,
      refl,
      λ later passed. ground arith,
    )

two_pow : (n : ℕ) → 1 ≤ n → n ≤ 7 → (2 ≤ 2 ^ n) × (2 ^ n ≤ 128)
two_pow n low high =
    let a : 2 ^ 1 ≤ 2 ^ n = pow-le-pow_right (omega arith) low in
    let b : 2 ^ n ≤ 2 ^ 7 = pow-le-pow_right (omega arith) high in (omega arith, omega arith)

-- A failed delivery before the eighth attempt, with a random part of at most five seconds, puts the event
-- off by at least ten seconds and at most 645: it is not due before its new time, and due from then on.
pub backoff_bounds :
    (e : OutboxEvent) (reason : String) (jitter now : ℕ)
    → jitter ≤ 5000
    → e.attempt_count + 1 < max_retries
    → let late = failed_event reason max_retries jitter now e in
      (t : ℕ) × (late.next_attempt_at ≡ some t)
      × (now + 10000 ≤ t)
      × (t ≤ now + 645000)
      × ((s : ℕ) → is_due s late ≡ leb t s)
backoff_bounds e reason jitter now small few =
    let (low, high) = two_pow (e.attempt_count + 1) (omega arith) (omega arith) in
    (
      retry_at (e.attempt_count + 1) jitter now,
      ground arith,
      omega arith,
      omega arith,
      λ s. ground arith,
    )
