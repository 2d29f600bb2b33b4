-- ===== src/ChaosTest/Counts.antt =====
-- How many events the outbox holds.
use idem_ledger.Base.{
  ℕ, zero, suc, ◌+◌, ◌≡◌, ◌∙◌, refl, ap, arith, String, Bool, some, List, [], ◌∷◌, ◌++◌, length,
  update, count_rows,
}
use idem_ledger.Db.{Db, OutboxEvent, EventStatus, ok}
use idem_ledger.Server.{World, ◌>>◌, begin, commit, on_pool}
use idem_ledger.Server.Laws.{>>=-elim, in_tx-Ran, draw-Quiet, on_pool-eq-ok}
use idem_ledger.Server.Transactions.{begin-eq-ok, commit-eq-ok, in_transaction-eq-ok}
use idem_ledger.Store.Outbox.{has_status, new_event, insert_event, insert_outbox_event_in_tx}
use idem_ledger.Outbox.{Merchant, Signal, cancelled, ticked, run_poller, poll}
use idem_ledger.Outbox.Steps.{
  Step, claims, delivers, buries, fails, Steps, here, then_step, poll-Steps,
}
use idem_ledger.ChaosTest.{delete_events, insert_events, seed_events, is_open}

abbrev pub Holds : ℕ → Db → Type 0
Holds n d = length d.outbox ≡ n

length-update :
    (p : OutboxEvent → Bool) (f : OutboxEvent → OutboxEvent) (es : List OutboxEvent)
    → length (update p f es) ≡ length es
unfolding update
length-update p f [] = refl
length-update p f (e ∷ es) = ground (arith, length-update p f es)

Step-length : {d e : Db} → Step d e → length e.outbox ≡ length d.outbox
Step-length {d} (claims limit now) = length-update _ _ d.outbox
Step-length {d} (delivers id now) = length-update _ _ d.outbox
Step-length {d} (buries id reason now) = length-update _ _ d.outbox
Step-length {d} (fails id reason jitter now) = length-update _ _ d.outbox

Steps-Holds : {n : ℕ} {d e : Db} → Steps d e → Holds n d → Holds n e
Steps-Holds here h = h
Steps-Holds (then_step r st) h = Step-length st ∙ Steps-Holds r h

pub poll-Holds :
    (m : Merchant) (n : ℕ) (w : World) → Holds n w.committed → Holds n (poll m w).1.committed
poll-Holds m n w h = Steps-Holds (poll-Steps m w) h

pub run_poller-Holds :
    (m : Merchant) (n : ℕ) (signals : List Signal) (w : World)
    → Holds n w.committed
    → Holds n (run_poller m signals w).committed
unfolding run_poller
run_poller-Holds m n [] w h = h
run_poller-Holds m n (cancelled ∷ signals) w h = h
run_poller-Holds m n (ticked ∷ signals) w h = run_poller-Holds m n signals _ (poll-Holds m n w h)

length-snoc : (es : List OutboxEvent) (e : OutboxEvent) → length (es ++ e ∷ []) ≡ suc (length es)
length-snoc [] e = refl
length-snoc (x ∷ es) e = ap suc (length-snoc es e)

module _ (uuid : ℕ → ℕ) (payload url : String) where
  insert_event-length :
      (id now : ℕ) (d : Db) {u : Unit {0}} {d' : Db}
      → insert_event id "chaos.test" payload (some url) now d ≡ ok (u, d')
      → length d'.outbox ≡ suc (length d.outbox)
  unfolding insert_event
  insert_event-length id now d h =
      let more = length-snoc d.outbox (new_event id "chaos.test" payload (some url) now) in
      ground arith

  insert_one :
      (w : World) {u : Unit {0}} {w' : World}
      → insert_outbox_event_in_tx uuid "chaos.test" payload (some url) w ≡ (ok u, w')
      → length w'.db.outbox ≡ suc (length w.db.outbox)
  unfolding insert_outbox_event_in_tx
  insert_one w h = >>=-elim _ _ w h λ id w1 e1 h1.
      let q = draw-Quiet uuid w e1 in
      let r = in_tx-Ran _ w1 h1 in rw⁻¹ q.db (insert_event-length id w1.now w1.db r.effect)

  insert_events-length :
      (n : ℕ) (w : World) {u : Unit {0}} {w' : World}
      → insert_events uuid payload url n w ≡ (ok u, w')
      → length w'.db.outbox ≡ n + length w.db.outbox
  unfolding insert_events
  insert_events-length zero w h = ground arith
  insert_events-length (suc n) w h = >>=-elim _ _ w h λ u w1 e1 h1.
      let one = insert_one w e1 in let rest = insert_events-length n w1 h1 in omega arith

  -- The tables after the seeding of an emptied outbox.
  pub seeds-Holds :
      (n : ℕ) (w : World) {u : Unit {0}} {w' : World}
      → (on_pool delete_events >> seed_events uuid payload url n) w ≡ (ok u, w')
      → Holds n w'.committed
  unfolding seed_events
  seeds-Holds n w h = >>=-elim _ _ w h λ u w1 e1 h1.
      let (now, gone) = on_pool-eq-ok delete_events w e1 in
      let empty : length w1.committed.outbox ≡ 0 = ground arith in
      let (v, ran, same) =
        in_transaction-eq-ok (begin >> (insert_events uuid payload url n >> commit)) w1 h1 in
      >>=-elim _ _ w1 ran λ u2 w2 e2 h2. >>=-elim _ _ w2 h2 λ u3 w3 e3 h3.
        let (sees, kept) = begin-eq-ok w1 e2 in
        let more = insert_events-length n w2 e3 in
        let there = commit-eq-ok w3 h3 in
        rw (same ∙ there) (more ∙ rw sees (rw empty (omega arith)))

-- Each event has one of the four statuses.
pub counts :
    (es : List OutboxEvent)
    → count_rows is_open es
        + (count_rows (has_status EventStatus.delivered) es
            + count_rows (has_status EventStatus.dead_letter) es)
      ≡ length es
unfolding count_rows
counts [] = refl
counts (e ∷ es) = let rest = counts es in ground arith
