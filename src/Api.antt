-- ===== src/Api.antt =====
-- cmd/api/main.go, POST /transfers: from a request's header and body to the response's status and body.
pub mod Replays
pub mod Webhook
pub mod Accounts
use idem_ledger.Base.{
  ℕ, String, List, len, Bool, true, false, not, Option, none, some, ◌==◌, if◌then◌else◌, str_eq,
}
use idem_ledger.Base.Int.{ℤ, pos, leb_ℤ}
use idem_ledger.Store.Outbox.{OutboxMetrics}
use idem_ledger.Db.{
  Account, Posting, Transfer, Error, Result, ok, err, duplicate_request, in_progress,
  insufficient_funds, account_not_found, currency_mismatch, invalid_amount, same_account,
  invalid_currency,
}
use idem_ledger.Server.{World}
use idem_ledger.Idempotency.{hash_request}
use idem_ledger.Ledger.{Env, Request, Answer, created, replayed, execute}
use idem_ledger.Ledger.Strategies.{execute_with_for_update}

-- cfg.Strategy; any other value than the two is `conditional_update`.
pub data Strategy : Type 0 where
  conditional_update select_for_update optimistic : Strategy

pub data Content : Type 0 where
  message : String → Content
  stored_body : String → Content
  new_transfer : Transfer → Content
  one_account : Account → Content
  postings_page : List Posting → Content
  event_counts : OutboxMetrics → Content
  health_status : String → Option String → Content

-- `is_replay` is the header Idempotent-Replayed.
pub record Response : Type 0 where
  pub status : ℕ
  pub is_replay : Bool
  pub content : Content

abbrev pub failure : ℕ → String → Response
failure status text = record { status = status; is_replay = false; content = message text }

-- The fields of a body that json.Unmarshal decodes.
pub record TransferBody : Type 0 where
  pub from_account : ℕ
  pub to_account : ℕ
  pub amount : ℤ
  pub currency : String

abbrev pub failure_of : Error → Response
failure_of duplicate_request = failure 422 "idempotency key already used with a different request"
failure_of in_progress = failure 409 "request already in progress"
failure_of insufficient_funds = failure 422 "insufficient funds"
failure_of account_not_found = failure 404 "account not found"
failure_of currency_mismatch =
    failure 422 "currency mismatch: from_account, to_account, and transfer currency must all match"
failure_of invalid_amount = failure 422 "amount must be positive"
failure_of same_account = failure 422 "from_account and to_account must differ"
failure_of invalid_currency = failure 422 "currency must be a 3-letter ISO 4217 code"
failure_of _ = failure 500 "internal server error"

abbrev pub respond : Result Answer → Response
respond (err e) = failure_of e
respond (ok (replayed s)) = record {
  status = s.code;
  is_replay = true;
  content = stored_body s.body;
}
respond (ok (created t)) = record { status = 201; is_replay = false; content = new_transfer t }

-- The switch on the strategy, and the response.
unfoldable pub transfer_by : Env → Strategy → Request → World → Response × World
transfer_by env conditional_update req w = let (r, w') = execute env req w in (respond r, w')
transfer_by env select_for_update req w =
    let (r, w') = execute_with_for_update env req w in (respond r, w')
transfer_by env optimistic req w = (
  failure 422
      "optimistic strategy does not support idempotency keys; set STRATEGY=conditional_update or STRATEGY=select_for_update",
  w,
)

-- encoding/json on the body, into any value and into the request's fields, SHA-256, strings.ToUpper.
module _ {Value : Type 0} (unmarshal : String → Option Value) (marshal : Value → Option String)
    (digest : String → String) (decode : String → Option TransferBody) (to_upper : String → String)
    (env : Env) (strategy : Strategy) where
  abbrev pub request_of : String → String → TransferBody → Request
  request_of key body t = record {
    from_account = t.from_account;
    to_account = t.to_account;
    amount = t.amount;
    currency = to_upper t.currency;
    idempotency_key = key;
    request_hash = hash_request unmarshal marshal digest body;
  }

  unfoldable pub check_transfer : String → String → TransferBody → World → Response × World
  unfolding transfer_by
  check_transfer key body t w =
      if leb_ℤ t.amount (pos 0)
      then (failure 422 "amount must be positive", w)
      else if t.from_account == t.to_account
      then (failure 422 "from_account and to_account must differ", w)
      else if not (len t.currency == 3)
      then (failure 422 "currency must be a 3-letter ISO 4217 code", w)
      else transfer_by env strategy (request_of key body t) w

  decoded : String → String → Option TransferBody → World → Response × World
  unfolding check_transfer
  decoded key body none w = (failure 400 "invalid request body", w)
  decoded key body (some t) w = check_transfer key body t w

  read_body : String → Option String → World → Response × World
  unfolding decoded
  read_body key none w = (failure 400 "failed to read request body", w)
  read_body key (some body) w = decoded key body (decode body) w

  -- POST /transfers: the header Idempotency-Key ("" if there is none), and what io.ReadAll gave.
  unfoldable pub post_transfers : String → Option String → World → Response × World
  unfolding read_body
  post_transfers key body w =
      if str_eq key ""
      then (failure 422 "Idempotency-Key header is required", w)
      else read_body key body w
