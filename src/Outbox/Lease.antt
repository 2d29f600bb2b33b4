-- ===== src/Outbox/Lease.antt =====
-- Pollers side by side (internal/store/outbox.go, ClaimPendingEvents): an event that one has claimed is not
-- claimed again before its 30 seconds are over.
use idem_ledger.Base.{
  ℕ, ◌+◌, ◌<◌, ◌≡◌, refl, sym, ◌∙◌, subst, inl, inr, Bool-cases, String, Bool, true, false, ◌&&◌,
  Option, some, List, [], ◌∷◌, ◌++◌, arith, All, All-append, map, where_rows, update, exists_row,
}
use idem_ledger.Db.{Db, OutboxEvent, in_flight, ok}
use idem_ledger.Store.Outbox.{
  event_by_id, new_event, insert_event, stale_in_flight_threshold, is_due, is_among, claimed_event,
  due_events, claim_events, update_event, delivered_event, dead_event, failed_event,
}
use idem_ledger.Ledger.Covers.{exists_row-update}
use idem_ledger.Outbox.Due.{due_events-due, claim_events-eq-ok, exists-claimed}

-- An event of `es` is in flight until then.
abbrev pub IsHeld : List OutboxEvent → ℕ → OutboxEvent → Type 0
IsHeld es until x = is_among es x ≡ true → (x.status ≡ in_flight) × (x.next_attempt_at ≡ some until)

record Leased (es : List OutboxEvent) (until : ℕ) (d : Db) : Type 0 where
  held : All (IsHeld es until) d.outbox
  there :
      (i : ℕ) → exists_row (event_by_id i) es ≡ true → exists_row (event_by_id i) d.outbox ≡ true

held_not_due :
    (x : OutboxEvent) (until now : ℕ)
    → now < until
    → (x.status ≡ in_flight) × (x.next_attempt_at ≡ some until)
    → is_due now x ≡ false
held_not_due x until now early h = rw (h.0, h.1) (ground arith)

module _ (es : List OutboxEvent) (until : ℕ) where
  due-free :
      (i now : ℕ) (rows : List OutboxEvent)
      → now < until
      → All (IsHeld es until) rows
      → exists_row (λ x. event_by_id i x && is_due now x) rows ≡ true
      → exists_row (event_by_id i) es ≡ false
  unfolding exists_row
  due-free i now [] early h e = absurd (cc)
  due-free i now (x ∷ rows) early h e = elim (Bool-cases (event_by_id i x && is_due now x)) [
    | inl hit ↦
        let it : x.id ≡ i = ground arith in
        let due : is_due now x ≡ true = ground arith in
        subst (λ j. exists_row (event_by_id j) es ≡ false) it
          (elim (Bool-cases (is_among es x)) [
            | inl mine ↦ let late = held_not_due x until now early (h.0 mine) in absurd (cc)
            | inr free ↦ free
          ])
    | inr miss ↦ due-free i now rows early h.1 (ground arith)
  ]

  update-IsHeld :
      (p : OutboxEvent → Bool) (f : OutboxEvent → OutboxEvent) (rows : List OutboxEvent)
      → ((x : OutboxEvent) → (f x).id ≡ x.id)
      → ((x : OutboxEvent) → p x ≡ true → is_among es x ≡ false)
      → All (IsHeld es until) rows
      → All (IsHeld es until) (update p f rows)
  unfolding update
  update-IsHeld p f [] same free h = tt
  update-IsHeld p f (x ∷ rows) same free h = (
    elim (Bool-cases (p x)) [
      | inl hit ↦ rw hit (λ e.
          let mine = subst (λ j. exists_row (event_by_id j) es ≡ true) (same x) e in
          let spared = free x hit in absurd (cc))
      | inr miss ↦ rw miss h.0
    ],
    update-IsHeld p f rows same free h.1,
  )

-- The mark that follows a delivery.
pub data Mark : (ℕ → OutboxEvent → OutboxEvent) → Type 0 where
  delivers : Mark delivered_event
  buries : (reason : String) → Mark (dead_event reason)
  fails : (reason : String) (max jitter : ℕ) → Mark (failed_event reason max jitter)

-- What others do to the tables after `es` was claimed: they claim in time, mark events of their own, and
-- add events.
pub data Others (es : List OutboxEvent) (until : ℕ) (d : Db) : Db → Type 0 where
  quiet : Others es until d d
  claim :
      {e f : Db} {es' : List OutboxEvent} (limit now : ℕ)
      → Others es until d e
      → now < until
      → claim_events limit now e ≡ ok (es', f)
      → Others es until d f
  mark :
      {e f : Db} {u : Unit {0}} (id now : ℕ) (g : ℕ → OutboxEvent → OutboxEvent)
      → Others es until d e
      → Mark g
      → exists_row (event_by_id id) es ≡ false
      → update_event id g now e ≡ ok (u, f)
      → Others es until d f
  insert :
      {e f : Db} {u : Unit {0}} (id : ℕ) (event_type payload : String) (url : Option String)
      (now : ℕ)
      → Others es until d e
      → insert_event id event_type payload url now e ≡ ok (u, f)
      → Others es until d f

exists-append :
    (q : OutboxEvent → Bool) (es fs : List OutboxEvent)
    → exists_row q es ≡ true
    → exists_row q (es ++ fs) ≡ true
unfolding exists_row
exists-append q [] fs h = absurd (cc)
exists-append q (e ∷ es) fs h = ground (arith, exists-append q es fs)

claimed-IsHeld :
    (es due : List OutboxEvent) (now : ℕ) (rows : List OutboxEvent)
    → ((i : ℕ) → exists_row (event_by_id i) es ≡ true → exists_row (event_by_id i) due ≡ true)
    → All
        (IsHeld es (now + stale_in_flight_threshold))
        (update (is_among due) (claimed_event now) rows)
unfolding update
claimed-IsHeld es due now [] from = tt
claimed-IsHeld es due now (x ∷ rows) from = (
  elim (Bool-cases (is_among due x)) [
    | inl hit ↦ rw hit (λ e. (refl, refl))
    | inr miss ↦ rw miss (λ e. let among = from x.id e in absurd (cc))
  ],
  claimed-IsHeld es due now rows from,
)

claimed-Leased :
    (limit now : ℕ) (d : Db) {es : List OutboxEvent} {d' : Db}
    → claim_events limit now d ≡ ok (es, d')
    → Leased es (now + stale_in_flight_threshold) d'
claimed-Leased limit now d {es} {d'} h =
    let due = due_events limit now d.outbox in
    let c = claim_events-eq-ok limit now d h in
    let from : (i : ℕ)
        → exists_row (event_by_id i) es ≡ true
        → (exists_row (event_by_id i) due ≡ true) × (exists_row (event_by_id i) d.outbox ≡ true) =
      λ i e.
        exists-claimed i now due d.outbox
          (subst (λ fs. exists_row (event_by_id i) fs ≡ true) c.0 e) in
    subst (Leased es (now + stale_in_flight_threshold)) (sym c.1) (record {
      held = claimed-IsHeld es due now d.outbox (λ i e. (from i e).0);
      there = λ i e.
          exists_row-update (event_by_id i) (is_among due) (claimed_event now) d.outbox (λ x. refl)
          ∙ (from i e).1;
    })

-- Others write no row of `es` and keep every id.
updated-Leased :
    (es : List OutboxEvent) (until : ℕ) (p : OutboxEvent → Bool) (f : OutboxEvent → OutboxEvent)
    (d d' : Db)
    → ((x : OutboxEvent) → (f x).id ≡ x.id)
    → ((x : OutboxEvent) → p x ≡ true → is_among es x ≡ false)
    → Leased es until d
    → d' ≡ record d { outbox = update p f d.outbox }
    → Leased es until d'
updated-Leased es until p f d d' same free l e = subst (Leased es until) (sym e) (record {
  held = update-IsHeld es until p f d.outbox same free l.held;
  there =
      λ i h. exists_row-update (event_by_id i) p f d.outbox (λ x. rw (same x) refl) ∙ l.there i h;
})

Mark-id :
    {g : ℕ → OutboxEvent → OutboxEvent} (m : Mark g) (now : ℕ) (x : OutboxEvent)
    → (g now x).id ≡ x.id
Mark-id delivers now x = refl
Mark-id (buries reason) now x = refl
Mark-id (fails reason max jitter) now x = refl

marked_other :
    (es : List OutboxEvent) (id : ℕ) (x : OutboxEvent)
    → exists_row (event_by_id id) es ≡ false
    → event_by_id id x ≡ true
    → is_among es x ≡ false
marked_other es id x other h =
    let it : id ≡ x.id = ground arith in subst (λ j. exists_row (event_by_id j) es ≡ false) it other

update_event-eq-ok :
    (id : ℕ) (g : ℕ → OutboxEvent → OutboxEvent) (now : ℕ) (d : Db) {u : Unit {0}} {d' : Db}
    → update_event id g now d ≡ ok (u, d')
    → d' ≡ record d { outbox = update (event_by_id id) (g now) d.outbox }
unfolding update_event
update_event-eq-ok id g now d h = ground arith

insert_event-eq-ok :
    (id : ℕ) (event_type payload : String) (url : Option String) (now : ℕ) (d : Db) {u : Unit {0}}
    {d' : Db}
    → insert_event id event_type payload url now d ≡ ok (u, d')
    → (exists_row (event_by_id id) d.outbox ≡ false)
      × (d' ≡ record d { outbox = d.outbox ++ new_event id event_type payload url now ∷ [] })
unfolding insert_event
insert_event-eq-ok id event_type payload url now d h = ground arith

inserted-Leased :
    (es : List OutboxEvent) (until id : ℕ) (event_type payload : String) (url : Option String)
    (now : ℕ) (d : Db) {u : Unit {0}} {d' : Db}
    → Leased es until d
    → insert_event id event_type payload url now d ≡ ok (u, d')
    → Leased es until d'
unfolding new_event
inserted-Leased es until id event_type payload url now d l h =
    let x = insert_event-eq-ok id event_type payload url now d h in
    let fresh = x.0 in
    subst (Leased es until) (sym x.1) (record {
      held =
          All-append (IsHeld es until) d.outbox _ l.held
            ((λ e. let old = l.there id e in absurd (cc)), tt);
      there = λ i e. exists-append (event_by_id i) d.outbox _ (l.there i e);
    })

Others-Leased :
    (es : List OutboxEvent) (until : ℕ) (d : Db) {d' : Db}
    → Leased es until d
    → Others es until d d'
    → Leased es until d'
Others-Leased es until d l quiet = l
Others-Leased es until d l (claim {e = e} limit now o early c) =
    let l' = Others-Leased es until d l o in
    let due = due_events limit now e.outbox in
    updated-Leased es until (is_among due) (claimed_event now) e _ (λ x. refl)
      (λ x h.
        due-free es until x.id now e.outbox early l'.held
          (due_events-due x.id limit now e.outbox h))
      l' (claim_events-eq-ok limit now e c).1
Others-Leased es until d l (mark {e = e} id now g o m other u) =
    updated-Leased es until (event_by_id id) (g now) e _ (Mark-id m now)
      (λ x. marked_other es id x other) (Others-Leased es until d l o)
      (update_event-eq-ok id g now e u)
Others-Leased es until d l (insert {e = e} id event_type payload url now o i) =
    inserted-Leased es until id event_type payload url now e (Others-Leased es until d l o) i

-- A claim of due events that are not of `es`.
All-claimed :
    (es due : List OutboxEvent) (now : ℕ) (rows : List OutboxEvent)
    → ((i : ℕ) → exists_row (event_by_id i) due ≡ true → exists_row (event_by_id i) es ≡ false)
    → All (λ e. is_among es e ≡ false) (map (claimed_event now) (where_rows (is_among due) rows))
unfolding where_rows
All-claimed es due now [] free = tt
All-claimed es due now (x ∷ rows) free = elim (Bool-cases (is_among due x)) [
  | inl hit ↦ rw hit (free x.id hit, All-claimed es due now rows free)
  | inr miss ↦ rw miss (All-claimed es due now rows free)
]

-- One poller claims `es`. Then others claim events, mark events that are not of `es` and add events, in any
-- order and number, and every claim is made less than 30 seconds after the first one. No event of such a
-- claim has the id of an event of `es`. Ids of events need not be distinct.
pub claim_events-exclusive :
    (limit now limit' now' : ℕ) (d d₁ d₂ d₃ : Db) (es es' : List OutboxEvent)
    → claim_events limit now d ≡ ok (es, d₁)
    → Others es (now + stale_in_flight_threshold) d₁ d₂
    → now' < now + stale_in_flight_threshold
    → claim_events limit' now' d₂ ≡ ok (es', d₃)
    → All (λ e. is_among es e ≡ false) es'
claim_events-exclusive limit now limit' now' d d₁ d₂ d₃ es es' first others early second =
    let until = now + stale_in_flight_threshold in
    let l = Others-Leased es until d₁ (claimed-Leased limit now d first) others in
    let c = claim_events-eq-ok limit' now' d₂ second in
    subst (All (λ e. is_among es e ≡ false)) (sym c.0) (
      All-claimed es (due_events limit' now' d₂.outbox) now' d₂.outbox (λ i h.
        due-free es until i now' d₂.outbox early l.held (due_events-due i limit' now' d₂.outbox h)))
