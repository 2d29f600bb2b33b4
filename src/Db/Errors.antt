-- ===== src/Db/Errors.antt =====
-- Errors as values: the server's SQLSTATE codes, the sentinel errors of internal/ledger,
-- internal/idempotency and internal/store, and results.
use mathlib.Core.Bool.{Bool, true, false}

pub data SqlState : Type 0 where
  deadlock : SqlState  -- 40P01
  serialization : SqlState  -- 40001
  foreign_key : SqlState  -- 23503
  unique : SqlState  -- 23505
  check : SqlState  -- 23514
  out_of_range : SqlState  -- 22003
  too_long : SqlState  -- 22001
  other_state : SqlState

-- `errors.As` sees a server error through the `%w` of a wrapper, so a wrapped error is the error.
pub data Error : Type 0 where
  insufficient_funds account_not_found currency_mismatch invalid_amount same_account : Error
  invalid_currency duplicate_request in_progress null_response_code : Error
  key_unsupported too_many_retries marshal_failed scan_failed no_rows not_found : Error
  again : Error  -- the `continue` of a retry loop, which the loop catches
  pg : SqlState → Error
  connection : Error

pub data Result (A : Type 0) : Type 0 where
  ok : A → Result A
  err : Error → Result A

abbrev pub is_retriable_state : SqlState → Bool
is_retriable_state deadlock = true
is_retriable_state serialization = true
is_retriable_state _ = false

-- strategies.go, isRetriableConflict
abbrev pub is_retriable_conflict : Error → Bool
is_retriable_conflict (pg s) = is_retriable_state s
is_retriable_conflict _ = false
