-- ===== src/Outbox/Due.antt =====
-- Which events ClaimPendingEvents of internal/store/outbox.go takes.
use idem_ledger.Base.{
  ℕ, zero, suc, ◌≡◌, refl, subst, inl, inr, Bool-cases, Bool, true, ◌&&◌, ◌||◌, List, [], ◌∷◌,
  arith, map, take, where_rows, update, exists_row,
}
use idem_ledger.Db.{Db, OutboxEvent, ok}
use idem_ledger.Store.Outbox.{
  event_by_id, is_due, insert_by_age, by_age, is_among, claimed_event, due_events, claim_events,
}

module _ (q : OutboxEvent → Bool) where
  exists-take :
      (n : ℕ) (es : List OutboxEvent) → exists_row q (take n es) ≡ true → exists_row q es ≡ true
  unfolding exists_row take
  exists-take zero es h = absurd (cc)
  exists-take (suc n) [] h = absurd (cc)
  exists-take (suc n) (e ∷ es) h = ground (arith, exists-take n es)

  exists-insert_by_age :
      (e : OutboxEvent) (es : List OutboxEvent)
      → exists_row q (insert_by_age e es) ≡ q e || exists_row q es
  unfolding exists_row insert_by_age
  exists-insert_by_age e [] = refl
  exists-insert_by_age e (x ∷ es) = ground (arith, exists-insert_by_age e es)

  exists-by_age : (es : List OutboxEvent) → exists_row q (by_age es) ≡ exists_row q es
  unfolding exists_row by_age
  exists-by_age [] = refl
  exists-by_age (e ∷ es) = ground (arith, exists-insert_by_age e (by_age es), exists-by_age es)

  exists-where_rows :
      (p : OutboxEvent → Bool) (es : List OutboxEvent)
      → exists_row q (where_rows p es) ≡ exists_row (λ x. q x && p x) es
  unfolding exists_row where_rows
  exists-where_rows p [] = refl
  exists-where_rows p (e ∷ es) = ground (arith, exists-where_rows p es)

-- An event that the subquery locks is due.
pub due_events-due :
    (i limit now : ℕ) (es : List OutboxEvent)
    → exists_row (event_by_id i) (due_events limit now es) ≡ true
    → exists_row (λ x. event_by_id i x && is_due now x) es ≡ true
unfolding due_events
due_events-due i limit now es h =
    let taken = exists-take (event_by_id i) limit (by_age (where_rows (is_due now) es)) h in
    let aged = exists-by_age (event_by_id i) (where_rows (is_due now) es) in
    let due = exists-where_rows (event_by_id i) (is_due now) es in ground arith

pub claim_events-eq-ok :
    (limit now : ℕ) (d : Db) {es : List OutboxEvent} {d' : Db}
    → claim_events limit now d ≡ ok (es, d')
    → (es
        ≡ map (claimed_event now) (where_rows (is_among (due_events limit now d.outbox)) d.outbox))
      × (d' ≡ record d {
        outbox = update (is_among (due_events limit now d.outbox)) (claimed_event now) d.outbox;
      })
unfolding claim_events
claim_events-eq-ok limit now d h = ground arith

-- The ids of the claimed events are ids of due events.
pub exists-claimed :
    (i now : ℕ) (due rows : List OutboxEvent)
    → exists_row (event_by_id i) (map (claimed_event now) (where_rows (is_among due) rows)) ≡ true
    → (exists_row (event_by_id i) due ≡ true) × (exists_row (event_by_id i) rows ≡ true)
unfolding exists_row where_rows
exists-claimed i now due [] h = absurd (cc)
exists-claimed i now due (x ∷ rows) h =
    let rest = exists-claimed i now due rows in
    elim (Bool-cases (is_among due x)) [
      | inl among ↦ elim (Bool-cases (event_by_id i x)) [
        | inl it ↦
            let same : x.id ≡ i = ground arith in
            (subst (λ j. exists_row (event_by_id j) due ≡ true) same among, ground arith)
        | inr other ↦ let later = rest (ground arith) in (later.0, ground arith)
      ]
      | inr missed ↦ let later = rest (ground arith) in (later.0, ground arith)
    ]
