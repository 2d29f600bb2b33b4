-- ===== src/Outbox.antt =====
-- internal/outbox/poller.go: the poller that delivers the events of the outbox.
pub mod Steps
pub mod Tracked
pub mod Retries
pub mod Due
pub mod Lease
use idem_ledger.Base.{
  ℕ, zero, suc, String, Bool, ◌&&◌, Option, none, some, List, [], ◌∷◌, leb, ltb, if◌then◌else◌,
  str_eq,
}
use idem_ledger.Db.{OutboxEvent, Result, ok, err}
use idem_ledger.Server.{World, Action, pure, ◌>>=◌, ◌>>◌}
use idem_ledger.Store.Outbox.{claim_pending_events, mark_delivered, mark_dead_letter, mark_failed}

abbrev pub batch_size : ℕ
batch_size = 50

abbrev pub max_retries : ℕ
max_retries = 8

-- What net/http answers to the POST of an event: the address is malformed, or no response came, with
-- the error's text, or the response has a status code.
pub data Delivery : Type 0 where
  bad_url no_answer : String → Delivery
  answered : ℕ → Delivery

-- The world outside: the merchants behind http.Client, http.StatusText, the text of a bad address,
-- and the random part of a backoff.
pub record Merchant : Type 0 where
  pub post : OutboxEvent → Delivery
  pub status_text : ℕ → String
  pub bad_target : String → String
  pub jitter : OutboxEvent → ℕ

-- An error that is only logged.
unfoldable pub logged : Action (Unit {0}) → Action (Unit {0})
logged m w = (ok tt, (m w).1)

unfoldable pub tries : ℕ → Action (Unit {0}) → Action (Unit {0})
tries zero m w = (ok tt, w)
tries (suc n) m w =
    let (r, w') = m w in let rest = tries n m w' in elim r [ ok _ ↦ (ok tt, w') | err _ ↦ rest ]

-- markDeliveredWithRetry
unfoldable pub mark_delivered_with_retry : ℕ → Action (Unit {0})
unfolding tries mark_delivered
mark_delivered_with_retry id = tries 3 (mark_delivered id)

-- What select takes next: the end of the context, or a tick.
pub data Signal : Type 0 where
  cancelled ticked : Signal

module _ (m : Merchant) where
  -- switch on resp.StatusCode
  by_code : OutboxEvent → ℕ → Action (Unit {0})
  unfolding mark_delivered_with_retry logged mark_dead_letter mark_failed
  by_code e code =
      if leb 200 code && ltb code 300
      then mark_delivered_with_retry e.id
      else if leb 400 code && ltb code 500
      then logged (mark_dead_letter e.id (m.status_text code))
      else logged (mark_failed e.id (m.status_text code) max_retries (m.jitter e))

  by_delivery : OutboxEvent → Delivery → Action (Unit {0})
  unfolding by_code
  by_delivery e (bad_url text) = logged (mark_dead_letter e.id (m.bad_target text))
  by_delivery e (no_answer text) = logged (mark_failed e.id text max_retries (m.jitter e))
  by_delivery e (answered code) = by_code e code

  by_target : OutboxEvent → Option String → Action (Unit {0})
  unfolding by_delivery
  by_target e none = logged (mark_delivered e.id)
  by_target e (some url) =
      if str_eq url "" then logged (mark_delivered e.id) else by_delivery e (m.post e)

  -- deliver
  unfoldable pub deliver : OutboxEvent → Action (Unit {0})
  unfolding by_target
  deliver e = by_target e e.target_url

  unfoldable pub deliver_all : List OutboxEvent → Action (Unit {0})
  deliver_all [] = pure tt
  deliver_all (e ∷ es) = deliver e >> deliver_all es

  -- poll
  unfoldable pub poll : Action (Unit {0})
  unfolding deliver_all claim_pending_events
  poll = do events ← claim_pending_events batch_size; deliver_all events

  -- Run; an error of a poll is only logged.
  unfoldable pub run_poller : List Signal → World → World
  unfolding poll
  run_poller [] w = w
  run_poller (cancelled ∷ signals) w = w
  run_poller (ticked ∷ signals) w = run_poller signals (poll w).1
