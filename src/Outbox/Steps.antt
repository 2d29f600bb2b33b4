-- ===== src/Outbox/Steps.antt =====
-- What the calls of the poller may do to the tables, as a step relation on the outbox.
use idem_ledger.Base.{
  ℕ, suc, zero, ◌≡◌, sym, subst, String, Bool, true, false, Option, none, some, List, [], ◌∷◌,
  arith, update, if◌then◌else◌,
}
use idem_ledger.Db.{Db, OutboxEvent, Result, ok, err}
use idem_ledger.Server.{World, Action, ◌>>=◌, on_pool}
use idem_ledger.Server.Laws.{Alone, on_pool-Alone}
use idem_ledger.Server.Keeps.{>>=-cases}
use idem_ledger.Store.Outbox.{
  event_by_id, is_among, due_events, claimed_event, claim_events, claim_pending_events,
  update_event, delivered_event, dead_event, failed_event, mark_delivered, mark_dead_letter,
  mark_failed,
}
use idem_ledger.Outbox.{
  Merchant, Delivery, bad_url, no_answer, answered, max_retries, batch_size, logged, tries,
  mark_delivered_with_retry, by_code, by_delivery, by_target, deliver, deliver_all, poll,
}

-- The statements that the poller makes, at a time `now`.
pub data Step (d : Db) : Db → Type 0 where
  claims :
      (limit now : ℕ)
      → Step d (record d {
        outbox = update (is_among (due_events limit now d.outbox)) (claimed_event now) d.outbox;
      })
  delivers :
      (id now : ℕ)
      → Step d (record d { outbox = update (event_by_id id) (delivered_event now) d.outbox })
  buries :
      (id : ℕ) (reason : String) (now : ℕ)
      → Step d (record d { outbox = update (event_by_id id) (dead_event reason now) d.outbox })
  fails :
      (id : ℕ) (reason : String) (jitter now : ℕ)
      → Step d (record d {
        outbox = update (event_by_id id) (failed_event reason max_retries jitter now) d.outbox;
      })

pub data Steps (d : Db) : Db → Type 0 where
  here : Steps d d
  then_step : {e f : Db} → Steps d e → Step e f → Steps d f

Steps-trans : {d e f : Db} → Steps d e → Steps e f → Steps d f
Steps-trans r here = r
Steps-trans r (then_step q st) = then_step (Steps-trans r q) st

-- An action whose effect on the committed tables is a run of such statements.
record Makes {A : Type 0} (m : Action A) : Type 0 where
  makes : (w : World) → Steps w.committed (m w).1.committed

-- A statement of its own makes its step, or none.
Alone-Steps :
    {A : Type 0} (d : Db) (x : Result (A × Db)) {y : Result A × World}
    → ((a : A) (d' : Db) → x ≡ ok (a, d') → Steps d d')
    → Alone d x y
    → Steps d y.1.committed
Alone-Steps d x made (Alone.refused e w c) = subst (Steps d) (sym c) here
Alone-Steps d x made (Alone.done a w h) = made a w.committed h
Alone-Steps d x made (Alone.unheard a w h) = made a w.committed h

update_event-eq-ok :
    (id : ℕ) (f : ℕ → OutboxEvent → OutboxEvent) (now : ℕ) (d : Db) {u : Unit {0}} {d' : Db}
    → update_event id f now d ≡ ok (u, d')
    → record d { outbox = update (event_by_id id) (f now) d.outbox } ≡ d'
unfolding update_event
update_event-eq-ok id f now d h = ground arith

claim_events-eq-ok :
    (limit now : ℕ) (d : Db) {es : List OutboxEvent} {d' : Db}
    → claim_events limit now d ≡ ok (es, d')
    → record d {
      outbox = update (is_among (due_events limit now d.outbox)) (claimed_event now) d.outbox;
    }
      ≡ d'
unfolding claim_events
claim_events-eq-ok limit now d h = ground arith

update_event-Makes :
    (id : ℕ) (f : ℕ → OutboxEvent → OutboxEvent)
    → ((now : ℕ) (d : Db) → Step d (record d { outbox = update (event_by_id id) (f now) d.outbox }))
    → Makes (on_pool (update_event id f))
update_event-Makes id f step = record {
  makes = λ w.
      let (now, x) = on_pool-Alone (update_event id f) w in
      Alone-Steps w.committed _
        (λ a d' h.
          subst (Steps w.committed) (update_event-eq-ok id f now w.committed h)
            (then_step here (step now w.committed)))
        x;
}

claim_pending_events-Makes : (limit : ℕ) → Makes (claim_pending_events limit)
unfolding claim_pending_events
claim_pending_events-Makes limit = record {
  makes = λ w.
      let (now, x) = on_pool-Alone (claim_events limit) w in
      Alone-Steps w.committed _
        (λ a d' h.
          subst (Steps w.committed) (claim_events-eq-ok limit now w.committed h)
            (then_step here (claims limit now)))
        x;
}

mark_delivered-Makes : (id : ℕ) → Makes (mark_delivered id)
unfolding mark_delivered
mark_delivered-Makes id = update_event-Makes id delivered_event (λ now d. delivers id now)

mark_dead_letter-Makes : (id : ℕ) (reason : String) → Makes (mark_dead_letter id reason)
unfolding mark_dead_letter
mark_dead_letter-Makes id reason =
    update_event-Makes id (dead_event reason) (λ now d. buries id reason now)

mark_failed-Makes :
    (id : ℕ) (reason : String) (jitter : ℕ) → Makes (mark_failed id reason max_retries jitter)
unfolding mark_failed
mark_failed-Makes id reason jitter =
    update_event-Makes id (failed_event reason max_retries jitter)
      (λ now d. fails id reason jitter now)

logged-Makes : (m : Action (Unit {0})) → Makes m → Makes (logged m)
unfolding logged
logged-Makes m t = record { makes = t.makes }

tries-Makes : (n : ℕ) (m : Action (Unit {0})) → Makes m → Makes (tries n m)
unfolding tries
tries-Makes zero m t = record { makes = λ w. here }
tries-Makes (suc n) m t = record {
  makes = λ w. go w.committed (m w) (t.makes w) (tries-Makes n m t).makes;
}
  where
    go :
        (d : Db) (x : Result (Unit {0}) × World)
        → Steps d x.1.committed
        → ((v : World) → Steps v.committed (tries n m v).1.committed)
        → Steps d
            (elim x.0 as (λ _. Result (Unit {0}) × World) [
              | ok _ ↦ (ok tt, x.1)
              | err e ↦ tries n m x.1
            ]).1.committed
    go d (ok u, v) s rest = s
    go d (err e, v) s rest = Steps-trans s (rest v)

>>=-Makes :
    {A B : Type 0} (m : Action A) (f : A → Action B)
    → Makes m
    → ((a : A) → Makes (f a))
    → Makes (m >>= f)
>>=-Makes {A} {B} m f t k = record {
  makes = λ w.
      >>=-cases (λ x. Steps w.committed x.1.committed) m f w
        (λ e v q. subst (λ (x : Result A × World). Steps w.committed x.1.committed) q (t.makes w))
        (λ a v q.
          Steps-trans
            (subst (λ (x : Result A × World). Steps w.committed x.1.committed) q (t.makes w))
            ((k a).makes v));
}

if-Makes : {A : Type 0} (b : Bool) (m k : Action A) → Makes m → Makes k → Makes (if b then m else k)
if-Makes true m k t u = t
if-Makes false m k t u = u

ruleset making = (
  mark_delivered-Makes, mark_dead_letter-Makes, mark_failed-Makes, logged-Makes, tries-Makes,
  >>=-Makes, if-Makes,
)

module _ (m : Merchant) where
  by_code-Makes : (e : OutboxEvent) (code : ℕ) → Makes (by_code m e code)
  unfolding by_code mark_delivered_with_retry
  by_code-Makes e code = search (making)

  by_delivery-Makes : (e : OutboxEvent) (answer : Delivery) → Makes (by_delivery m e answer)
  unfolding by_delivery
  by_delivery-Makes e (bad_url text) = search (making)
  by_delivery-Makes e (no_answer text) = search (making)
  by_delivery-Makes e (answered code) = by_code-Makes e code

  by_target-Makes : (e : OutboxEvent) (url : Option String) → Makes (by_target m e url)
  unfolding by_target
  by_target-Makes e none = search (making)
  by_target-Makes e (some url) = search (making, by_delivery-Makes)

  deliver-Makes : (e : OutboxEvent) → Makes (deliver m e)
  unfolding deliver
  deliver-Makes e = by_target-Makes e e.target_url

  deliver_all-Makes : (es : List OutboxEvent) → Makes (deliver_all m es)
  unfolding deliver_all
  deliver_all-Makes [] = record { makes = λ w. here }
  deliver_all-Makes (e ∷ es) =
      >>=-Makes (deliver m e) _ (deliver-Makes e) (λ _. deliver_all-Makes es)

  -- Whatever the merchants and the server answer, a poll makes a run of these statements.
  pub poll-Steps : (w : World) → Steps w.committed (poll m w).1.committed
  unfolding poll
  poll-Steps w =
      (>>=-Makes (claim_pending_events batch_size) _ (claim_pending_events-Makes batch_size)
          deliver_all-Makes).makes
        w
