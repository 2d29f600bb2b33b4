-- ===== src/Tests/Data.antt =====
-- Two funded accounts, requests between them, and stand-ins for the packages that are called.
use idem_ledger.Base.{ℕ, ◌+◌, String, none, some, List, [], ◌∷◌, ◌==◌, if◌then◌else◌}
use idem_ledger.Base.Int.{ℤ, pos}
use idem_ledger.Db.{Db, Account, empty_db}
use idem_ledger.Server.{World, Reply}
use idem_ledger.Ledger.{Env, Request}

abbrev pub env : Env
env = record {
  uuid = λ n. n + 100;
  uuid_text = λ n. "a-uuid";
  marshal = λ t. some "{a transfer}";
  jsonb = λ s. s;
}

abbrev pub account : ℕ → ℤ → Account
account id balance = record {
  id = id;
  name = "name";
  currency = "INR";
  balance = balance;
  version = 0;
  webhook_url = none;
  created_at = 0;
}

abbrev pub seed : ℕ → ℤ
seed id = if id == 1 then pos 500 else pos 0

abbrev pub two_accounts : Db
two_accounts = record empty_db {
  accounts = account 2 (pos 0) ∷ account 1 (pos 500) ∷ [];
  next_account = 3;
}

abbrev pub world : Db → List Reply → World
world d tape = record { committed = d; db = d; tape = tape; now = 1000; wall = 1000; drawn = 0 }

abbrev pub start : World
start = world two_accounts []

abbrev pub request : ℤ → String → Request
request amount key = record {
  from_account = 1;
  to_account = 2;
  amount = amount;
  currency = "INR";
  idempotency_key = key;
  request_hash = "hash";
}
