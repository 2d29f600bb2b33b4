-- ===== src/Db.antt =====
-- The tables of the database, column by column (migrations/*.up.sql, and the Go structs that the
-- rows are scanned into: store.Account, store.Posting, store.OutboxEvent, ledger.Transfer,
-- idempotency.StoredResponse), and the errors that a call returns.
mod Errors
pub use Errors.*
use idem_ledger.Base.{ℕ, String, Option, none, List, []}
use idem_ledger.Base.Int.{ℤ}

-- Row ids are positive 64-bit integers that the code only compares, times are milliseconds.
pub record Account : Type 0 where
  pub id : ℕ
  pub name : String
  pub currency : String
  pub balance : ℤ
  pub version : ℕ
  pub webhook_url : Option String
  pub created_at : ℕ

pub data TransferStatus : Type 0 where
  posted failed : TransferStatus

-- A row of `transfers`, and the Go struct `Transfer`.
pub record Transfer : Type 0 where
  pub id : ℕ
  pub idempotency_key : String
  pub status : TransferStatus
  pub amount : ℤ
  pub currency : String
  pub from_account : ℕ
  pub to_account : ℕ
  pub created_at : ℕ

pub record Posting : Type 0 where
  pub id : ℕ
  pub transfer_id : ℕ
  pub account_id : ℕ
  pub amount : ℤ
  pub created_at : ℕ

pub data KeyStatus : Type 0 where
  claimed done : KeyStatus

-- A row of `idempotency_keys`; the status `in_progress` is `claimed` here.
pub record KeyRow : Type 0 where
  pub key : String
  pub request_hash : String
  pub status : KeyStatus
  pub response_code : Option ℕ
  pub response_body : String
  pub claimed_at : ℕ

pub record StoredResponse : Type 0 where
  pub code : ℕ
  pub body : String

pub data EventStatus : Type 0 where
  pending in_flight delivered dead_letter : EventStatus

-- A row of `outbox`.
pub record OutboxEvent : Type 0 where
  pub id : ℕ
  pub event_type : String
  pub payload : String
  pub target_url : Option String
  pub status : EventStatus
  pub attempt_count : ℕ
  pub next_attempt_at : Option ℕ
  pub failure_reason : Option String
  pub created_at : ℕ
  pub delivered_at : Option ℕ

-- New rows stand first, but for the outbox. The two counters are the identity sequences.
pub record Db : Type 0 where
  pub accounts : List Account
  pub transfers : List Transfer
  pub postings : List Posting
  pub keys : List KeyRow
  pub outbox : List OutboxEvent
  pub next_account : ℕ
  pub next_posting : ℕ

-- The database after the migrations.
abbrev pub empty_db : Db
empty_db = record {
  accounts = [];
  transfers = [];
  postings = [];
  keys = [];
  outbox = [];
  next_account = 1;
  next_posting = 1;
}
