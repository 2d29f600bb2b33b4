-- ===== src/Guarantees/Announced.antt =====
-- The outbox against the transfers, over histories of calls.
use idem_ledger.Base.{
  ℕ, ◌≡◌, refl, ap, ◌∙◌, sym, subst, String, Option, none, some, List, [], ◌∷◌, ◌++◌, map, arith,
  All, All-map, All-append, update, Bool,
}
use idem_ledger.Base.Int.{ℤ}
use mathlib.Core.List.{map-append}
use idem_ledger.Db.{Db, Account, OutboxEvent, Transfer}
use idem_ledger.Store.Outbox.{
  new_event, claimed_event, delivered_event, dead_event, failed_event, event_by_id,
}
use idem_ledger.Outbox.{max_retries}
use idem_ledger.Outbox.Steps.{Step, claims, buries, fails, Steps, here, then_step}
use idem_ledger.Outbox.Tracked.{IsTracked, AllTracked, Steps-AllTracked, Moves, tracked-Moves}
use idem_ledger.Ledger.Attempt.{Commits}
use idem_ledger.Ledger.Execute.{HasIds}
use idem_ledger.Ledger.{Env, Request}
use idem_ledger.Guarantees.{Reachable, started, called}
use idem_ledger.Guarantees.Effects.{EffectBy, Effect, Call-Effect}
use idem_ledger.Guarantees.Sound.{Effect-HasIds}

-- The text of a transfer, and those of a list of transfers whose newest stands first, oldest first.
abbrev pub text_of : Env → Transfer → Option String
text_of env t = elim (env.marshal t) [ none ↦ none | some body ↦ some (env.jsonb body) ]

abbrev pub announcements : Env → List Transfer → List (Option String)
announcements env [] = []
announcements env (t ∷ ts) = announcements env ts ++ text_of env t ∷ []

-- One event for each transfer, in their order, with its text; and every event is tracked.
pub record IsAnnounced (env : Env) (d : Db) : Type 0 where
  pub payloads : map (λ e. some e.payload) d.outbox ≡ announcements env d.transfers
  pub tracked : AllTracked d

payloads-update :
    (p : OutboxEvent → Bool) (f : OutboxEvent → OutboxEvent) (es : List OutboxEvent)
    → ((e : OutboxEvent) → (f e).payload ≡ e.payload)
    → map (λ e. some e.payload) (update p f es) ≡ map (λ e. some e.payload) es
unfolding update
payloads-update p f [] same = refl
payloads-update p f (e ∷ es) same = ground (arith, same e, payloads-update p f es same)

module _ (env : Env) where
  Step-payloads :
      {d e : Db}
      → Step d e
      → (map (λ x. some x.payload) e.outbox ≡ map (λ x. some x.payload) d.outbox)
        × (e.transfers ≡ d.transfers)
  Step-payloads {d} (claims limit now) =
      (payloads-update _ (claimed_event now) d.outbox (λ e. refl), refl)
  Step-payloads {d} (Step.delivers id now) =
      (payloads-update (event_by_id id) (delivered_event now) d.outbox (λ e. refl), refl)
  Step-payloads {d} (buries id reason now) =
      (payloads-update (event_by_id id) (dead_event reason now) d.outbox (λ e. refl), refl)
  Step-payloads {d} (fails id reason jitter now) = (
    payloads-update (event_by_id id) (failed_event reason max_retries jitter now) d.outbox
        (λ e. refl),
    refl,
  )

  Steps-payloads :
      {d e : Db}
      → Steps d e
      → (map (λ x. some x.payload) e.outbox ≡ map (λ x. some x.payload) d.outbox)
        × (e.transfers ≡ d.transfers)
  Steps-payloads here = (refl, refl)
  Steps-payloads (then_step r st) =
      let (p, q) = Steps-payloads r in let (p', q') = Step-payloads st in (p' ∙ p, q' ∙ q)

  new_event-IsTracked :
      (id : ℕ) (kind payload : String) (url : Option String) (now : ℕ)
      → IsTracked (new_event id kind payload url now)
  unfolding new_event
  new_event-IsTracked id kind payload url now = record {
    deadline = λ h. absurd (cc);
    tries_left = λ h. omega arith;
  }

  new_event-payload :
      (id : ℕ) (kind payload : String) (url : Option String) (now : ℕ)
      → (new_event id kind payload url now).payload ≡ payload
  unfolding new_event
  new_event-payload id kind payload url now = refl

  Commits-IsAnnounced :
      (f : ℤ → Account → Account) (req : Request) (t : Transfer) (d d' : Db)
      → Commits env f req t d d'
      → IsAnnounced env d
      → IsAnnounced env d'
  Commits-IsAnnounced f req t d d' c s =
      let p = c.posted in
      let text : text_of env t ≡ some (env.jsonb p.body) = ground (arith, p.marshalled) in
      record {
        payloads =
            ap (map (λ e. some e.payload)) p.outbox
            ∙ map-append (λ e. some e.payload) d.outbox _
            ∙ (rw (s.payloads, text, new_event-payload))
            ∙ ap (announcements env) (sym p.transfers);
        tracked =
            subst (All IsTracked) (sym p.outbox)
              (All-append IsTracked d.outbox _ s.tracked (new_event-IsTracked _ _ _ _ _, tt));
      }

  Effect-IsAnnounced : {d d' : Db} → Effect env d d' → IsAnnounced env d → IsAnnounced env d'
  Effect-IsAnnounced EffectBy.nothing s = s
  Effect-IsAnnounced (EffectBy.opens name currency url now) s = record {
    payloads = s.payloads;
    tracked = s.tracked;
  }
  Effect-IsAnnounced (EffectBy.points id url) s = record {
    payloads = s.payloads;
    tracked = s.tracked;
  }
  Effect-IsAnnounced {d} {d'} (EffectBy.transfers f req t is_debit c) s =
      Commits-IsAnnounced f req t d d' c s
  Effect-IsAnnounced (EffectBy.delivers r) s =
      let (p, q) = Steps-payloads r in
      record {
        payloads = p ∙ s.payloads ∙ ap (announcements env) (sym q);
        tracked = Steps-AllTracked r s.tracked;
      }

  Reachable-both :
      {start d : Db}
      → HasIds start
      → IsAnnounced env start
      → Reachable env start d
      → HasIds d × IsAnnounced env d
  Reachable-both b s started = (b, s)
  Reachable-both b s (called r c) =
      let (b', s') = Reachable-both b s r in
      let e = Call-Effect env c b' in (Effect-HasIds e b', Effect-IsAnnounced e s')

  -- From tables with distinct account ids and an outbox that announces the transfers, after any history of
  -- transfers, polls and other calls, and whatever server and merchants answered: the outbox holds one
  -- event for each transfer, oldest first, whose payload is the transfer's JSON text, and every event is
  -- delivered, dead-lettered, or due from some time on.
  pub outbox_announces :
      {start d : Db}
      → HasIds start
      → IsAnnounced env start
      → Reachable env start d
      → (map (λ e. some e.payload) d.outbox ≡ announcements env d.transfers)
        × All (λ e. Moves e.status e.next_attempt_at) d.outbox
  outbox_announces {start} {d} b s reached =
      let s' = (Reachable-both b s reached).1 in
      (
        s'.payloads,
        All-map d.outbox (λ e t. tracked-Moves e.status e.next_attempt_at t.deadline) s'.tracked,
      )
