-- ===== src/Idempotency.antt =====
-- internal/idempotency/idempotency.go: the claim of an idempotency key, the stored response and the
-- request's hash. A time is in milliseconds.
pub mod Claims
pub mod Calls
pub mod Atomic
use idem_ledger.Base.{
  ℕ, ◌+◌, String, Bool, true, false, not, ◌&&◌, Option, none, some, List, [], ◌∷◌, ltb, ◌==◌,
  if◌then◌else◌, str_eq, select, exists_row, update, count_rows,
}
use idem_ledger.Db.{
  Db, KeyRow, KeyStatus, claimed, done, StoredResponse, Result, ok, err, duplicate_request,
  in_progress, null_response_code, no_rows,
}
use idem_ledger.Server.{World, Action, Sql, pure, raise, raise_if, ◌>>=◌, ◌>>◌, in_tx}

-- 30 * time.Second
abbrev pub stale_claim_threshold : ℕ
stale_claim_threshold = 30000

abbrev pub has_key : String → KeyRow → Bool
has_key k r = str_eq r.key k

abbrev pub claimed_row : String → String → ℕ → KeyRow
claimed_row key hash now = record {
  key = key;
  request_hash = hash;
  status = claimed;
  response_code = none;
  response_body = "";
  claimed_at = now;
}

-- INSERT … ON CONFLICT (key) DO NOTHING; answers the number of rows inserted.
unfoldable pub insert_key : String → String → Sql ℕ
insert_key key hash now d =
    if exists_row (has_key key) d.keys
    then ok (0, d)
    else ok (1, record d { keys = claimed_row key hash now ∷ d.keys })

found : Db → Option KeyRow → Result (KeyRow × Db)
found d none = err no_rows
found d (some r) = ok (r, d)

unfoldable pub select_key : String → Sql KeyRow
unfolding found
select_key key now d = found d (select (has_key key) d.keys)

abbrev pub is_claimed : KeyStatus → Bool
is_claimed claimed = true
is_claimed done = false

-- WHERE key=$2 AND status='in_progress' AND claimed_at < now()-$3
abbrev pub is_stealable : String → ℕ → KeyRow → Bool
is_stealable key now r =
    has_key key r && is_claimed r.status && ltb (r.claimed_at + stale_claim_threshold) now

abbrev pub stolen_row : String → ℕ → KeyRow → KeyRow
stolen_row hash now r = record r { status = claimed; request_hash = hash; claimed_at = now }

unfoldable pub steal_key : String → String → Sql ℕ
steal_key key hash now d = ok (
  count_rows (is_stealable key now) d.keys,
  record d { keys = update (is_stealable key now) (stolen_row hash now) d.keys },
)

-- The first two results of `ClaimInTx`: (true, nil) or (false, stored).
pub data Claim : Type 0 where
  won : Claim
  replay : StoredResponse → Claim

is_stale : KeyRow → Action Bool
is_stale r w = (ok (ltb (r.claimed_at + stale_claim_threshold) w.wall), w)

steal : String → String → Action Claim
unfolding steal_key
steal key hash = do n ← in_tx (steal_key key hash); if n == 1 then pure won else raise in_progress

reply_of : String → Option ℕ → Action Claim
reply_of body none = raise null_response_code
reply_of body (some code) = pure (replay (record { code = code; body = body }))

examine : String → String → KeyRow → KeyStatus → Action Claim
unfolding is_stale steal reply_of
examine key hash r claimed = do
  stale ← is_stale r
  if stale then steal key hash else raise in_progress
examine key hash r done = reply_of r.response_body r.response_code

read_claim : String → String → Action Claim
unfolding select_key examine
read_claim key hash = do
  r ← in_tx (select_key key)
  raise_if (not (str_eq r.request_hash hash)) duplicate_request
  examine key hash r r.status

-- ClaimInTx
unfoldable pub claim_in_tx : String → String → Action Claim
unfolding insert_key read_claim
claim_in_tx key hash = do
  n ← in_tx (insert_key key hash)
  if n == 1 then pure won else read_claim key hash

abbrev pub done_row : ℕ → String → KeyRow → KeyRow
done_row code body r = record r { status = done; response_code = some code; response_body = body }

-- UPDATE idempotency_keys SET status='done' …; `body` is the text that the JSONB column gives back.
unfoldable pub complete_key : String → ℕ → String → Sql ℕ
complete_key key code body now d = ok (
  count_rows (has_key key) d.keys,
  record d { keys = update (has_key key) (done_row code body) d.keys },
)

-- Complete
unfoldable pub complete : String → ℕ → String → Action (Unit {0})
unfolding complete_key
complete key code body = do in_tx (complete_key key code body); pure tt

-- HashRequest: `unmarshal` and `marshal` are encoding/json's on `any`, `digest` the hex SHA-256.
module _ {Value : Type 0} (unmarshal : String → Option Value) (marshal : Value → Option String)
    (digest : String → String) where
  normalized : String → Option Value → String
  normalized body none = body
  normalized body (some v) = elim (marshal v) [ none ↦ body | some norm ↦ norm ]

  pub hash_request : String → String
  unfolding normalized
  hash_request body = digest (normalized body (unmarshal body))
