-- ===== src/Api/Accounts.antt =====
-- cmd/api/main.go: the handlers that open an account and that read the tables.
pub mod Opens
pub mod Reads
pub mod RoundTrip
pub mod Succeeds
pub mod Histories
use idem_ledger.Base.{
  ℕ, String, len, false, not, Option, none, some, List, ◌==◌, if◌then◌else◌, str_eq,
}
use idem_ledger.Base.Int.{ℤ, pos}
use idem_ledger.Db.{Account, Posting, Error, Result, ok, err, not_found}
use idem_ledger.Server.{World, Action, Sql, on_pool}
use idem_ledger.Store.Accounts.{create_account, get_account}
use idem_ledger.Store.History.{get_postings}
use idem_ledger.Store.Outbox.{OutboxMetrics, get_outbox_metrics}
use idem_ledger.Api.{
  Response, Content, one_account, postings_page, event_counts, health_status, failure,
}
use idem_ledger.Api.Webhook.{Resolver, validate_webhook_url}

abbrev pub success : ℕ → Content → Response
success status content = record { status = status; is_replay = false; content = content }

-- The fields of a body that the JSON decoder gives.
pub record AccountBody : Type 0 where
  pub name : String
  pub currency : String
  pub webhook_url : String

abbrev pub reply_created : Result Account → Response
reply_created (ok a) = success 201 (one_account a)
reply_created (err e) = failure 500 "internal server error"

unfoldable pub open_account : String → String → Option String → World → Response × World
open_account name currency url w =
    let (r, w') = create_account name currency url w in (reply_created r, w')

-- encoding/json on the body, strings.TrimSpace and strings.ToUpper.
module _ (net : Resolver) (decode : String → Option AccountBody)
    (trim to_upper : String → String) where
  abbrev pub if_accepted : String → String → String → Option String → World → Response × World
  if_accepted name currency raw none w = open_account name currency (some raw) w
  if_accepted name currency raw (some text) w = (failure 422 text, w)

  unfoldable pub check_account : String → String → String → World → Response × World
  unfolding open_account
  check_account name currency raw w =
      if str_eq name ""
      then (failure 422 "name is required", w)
      else if not (len currency == 3)
      then (failure 422 "currency must be a 3-letter ISO 4217 code", w)
      else if str_eq raw ""
      then open_account name currency none w
      else if_accepted name currency raw (validate_webhook_url net raw) w

  abbrev pub decoded_account : Option AccountBody → World → Response × World
  decoded_account none w = (failure 400 "invalid request body", w)
  decoded_account (some t) w =
      check_account (trim t.name) (to_upper (trim t.currency)) t.webhook_url w

  -- POST /accounts
  unfoldable pub post_accounts : String → World → Response × World
  unfolding check_account
  post_accounts body w = decoded_account (decode body) w

abbrev pub failed_read : Error → Response
failed_read not_found = failure 404 "account not found"
failed_read _ = failure 500 "internal server error"

abbrev pub reply_account : Result Account → Response
reply_account (ok a) = success 200 (one_account a)
reply_account (err e) = failed_read e

abbrev pub reply_history : Result (List Posting) → Response
reply_history (ok ps) = success 200 (postings_page ps)
reply_history (err e) = failure 500 "internal server error"

-- strconv.ParseInt with base 10 and 64 bits.
module _ (parse_int : String → Option ℤ) where
  abbrev pub show_account : Option ℤ → World → Response × World
  show_account none w = (failure 400 "invalid account id", w)
  show_account (some id) w = let (r, w') = get_account id w in (reply_account r, w')

  -- GET /accounts/{id}
  unfoldable pub get_accounts : String → World → Response × World
  get_accounts id w = show_account (parse_int id) w

  -- The cursor "" is 0.
  abbrev pub cursor : String → Option ℤ
  cursor after = if str_eq after "" then some (pos 0) else parse_int after

  abbrev pub list_from : ℤ → Option ℤ → World → Response × World
  list_from id none w = (failure 400 "invalid after cursor", w)
  list_from id (some after) w = let (r, w') = get_postings id after 50 w in (reply_history r, w')

  abbrev pub list_if : ℤ → String → Result Account → World → Response × World
  list_if id after (err e) w = (failed_read e, w)
  list_if id after (ok a) w = list_from id (cursor after) w

  abbrev pub list_history : Option ℤ → String → World → Response × World
  list_history none after w = (failure 400 "invalid account id", w)
  list_history (some id) after w = let (r, w') = get_account id w in list_if id after r w'

  -- GET /accounts/{id}/history, with the query's `after` ("" if there is none).
  unfoldable pub get_history : String → String → World → Response × World
  get_history id after w = list_history (parse_int id) after w

abbrev pub reply_metrics : Result OutboxMetrics → Response
reply_metrics (ok m) = success 200 (event_counts m)
reply_metrics (err e) = failure 500 "internal server error"

-- GET /metrics
unfoldable pub get_metrics : World → Response × World
get_metrics w = let (r, w') = get_outbox_metrics w in (reply_metrics r, w')

-- pool.Ping: an empty statement.
abbrev pub ping : Sql (Unit {0})
ping now d = ok (tt, d)

abbrev pub reply_health : (Error → String) → Result (Unit {0}) → Response
reply_health text_of (ok u) = success 200 (health_status "ok" none)
reply_health text_of (err e) = success 503 (health_status "db_unavailable" (some (text_of e)))

-- GET /health
unfoldable pub get_health : (Error → String) → World → Response × World
get_health text_of w = let (r, w') = on_pool ping w in (reply_health text_of r, w')
