-- ===== src/Outbox/Tracked.antt =====
-- Events that the poller of internal/outbox/poller.go will take up again.
use idem_ledger.Base.{
  ℕ, ◌+◌, ◌<◌, ◌≡◌, ◌≢◌, ◌⊎◌, inl, inr, refl, String, Bool, true, Option, none, some, List, [], ◌∷◌,
  arith, All, All-map, update, Bool-cases,
}
use idem_ledger.Db.{Db, OutboxEvent, EventStatus, pending, in_flight, delivered, dead_letter}
use idem_ledger.Server.{World}
use idem_ledger.Store.Outbox.{
  event_by_id, is_due_as, claimed_event, delivered_event, dead_event, failed_event,
}
use idem_ledger.Outbox.Steps.{
  Step, claims, delivers, buries, fails, Steps, here, then_step, poll-Steps,
}
use idem_ledger.Outbox.{Merchant, max_retries, poll}

-- A pending event has tries left, and one that is in flight has a deadline.
pub record IsTracked (e : OutboxEvent) : Type 0 where
  pub deadline : e.status ≡ in_flight → e.next_attempt_at ≢ none
  pub tries_left : e.status ≡ pending → e.attempt_count < max_retries

abbrev pub AllTracked : Db → Type 0
AllTracked d = All IsTracked d.outbox

update-AllTracked :
    (p : OutboxEvent → Bool) (f : OutboxEvent → OutboxEvent) (es : List OutboxEvent)
    → ((e : OutboxEvent) → IsTracked (f e))
    → All IsTracked es
    → All IsTracked (update p f es)
unfolding update
update-AllTracked p f [] keep h = tt
update-AllTracked p f (e ∷ es) keep h = elim (Bool-cases (p e)) [
  | inl hit ↦ (rw hit (keep e), update-AllTracked p f es keep h.1)
  | inr miss ↦ (rw miss h.0, update-AllTracked p f es keep h.1)
]

claimed-IsTracked : (now : ℕ) (e : OutboxEvent) → IsTracked (claimed_event now e)
claimed-IsTracked now e = record { deadline = λ _ h. absurd (cc); tries_left = λ h. absurd (cc) }

delivered-IsTracked : (now : ℕ) (e : OutboxEvent) → IsTracked (delivered_event now e)
delivered-IsTracked now e = record { deadline = λ h. absurd (cc); tries_left = λ h. absurd (cc) }

dead-IsTracked : (reason : String) (now : ℕ) (e : OutboxEvent) → IsTracked (dead_event reason now e)
dead-IsTracked reason now e = record { deadline = λ h. absurd (cc); tries_left = λ h. absurd (cc) }

failed-IsTracked :
    (reason : String) (jitter now : ℕ) (e : OutboxEvent)
    → IsTracked (failed_event reason max_retries jitter now e)
failed-IsTracked reason jitter now e = record {
  deadline = λ h. ground arith;
  tries_left = λ h. ground arith;
}

Step-AllTracked : {d e : Db} → Step d e → AllTracked d → AllTracked e
Step-AllTracked {d} (claims limit now) s =
    update-AllTracked _ (claimed_event now) d.outbox (claimed-IsTracked now) s
Step-AllTracked {d} (delivers id now) s =
    update-AllTracked (event_by_id id) (delivered_event now) d.outbox (delivered-IsTracked now) s
Step-AllTracked {d} (buries id reason now) s =
    update-AllTracked (event_by_id id) (dead_event reason now) d.outbox (dead-IsTracked reason now)
      s
Step-AllTracked {d} (fails id reason jitter now) s =
    update-AllTracked (event_by_id id) (failed_event reason max_retries jitter now) d.outbox
      (failed-IsTracked reason jitter now) s

pub Steps-AllTracked : {d e : Db} → Steps d e → AllTracked d → AllTracked e
Steps-AllTracked here s = s
Steps-AllTracked (then_step r st) s = Step-AllTracked st (Steps-AllTracked r s)

-- A settled event, or one that the poller's claim takes from some time on.
abbrev pub Moves : EventStatus → Option ℕ → Type 0
Moves status next =
    (status ≡ delivered)
    ⊎ ((status ≡ dead_letter) ⊎ ((t : ℕ) × ((k : ℕ) → is_due_as status next (t + k) ≡ true)))

pub tracked-Moves :
    (status : EventStatus) (next : Option ℕ)
    → (status ≡ in_flight → next ≢ none)
    → Moves status next
tracked-Moves pending none h = inr (inr (0, λ k. refl))
tracked-Moves pending (some t) h = inr (inr (t, λ k. ground arith))
tracked-Moves in_flight none h = absurd (h refl refl)
tracked-Moves in_flight (some t) h = inr (inr (t, λ k. ground arith))
tracked-Moves delivered next h = inl refl
tracked-Moves dead_letter next h = inr (inl refl)

-- One poll, whatever the merchants and the server answer (an error or a lost answer included), keeps
-- every event tracked (a pending one has counted fewer than eight attempts, one in flight has a
-- deadline), and afterwards every event is delivered, dead-lettered, or due from some time on.
pub poll-AllTracked :
    (m : Merchant) (w : World)
    → AllTracked w.committed
    → AllTracked (poll m w).1.committed
      × All (λ e. Moves e.status e.next_attempt_at) (poll m w).1.committed.outbox
poll-AllTracked m w s =
    let s' = Steps-AllTracked (poll-Steps m w) s in
    (
      s',
      All-map (poll m w).1.committed.outbox
          (λ e t. tracked-Moves e.status e.next_attempt_at t.deadline) s',
    )
