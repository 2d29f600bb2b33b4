-- ===== src/Idempotency/Claims.antt =====
-- What a claim answers and what it does to the keys, if it succeeds.
use idem_ledger.Base.{
  ℕ, ◌≡◌, refl, subst, ◌⊎◌, inl, inr, String, false, some, List, ◌∷◌, arith, ◌==◌, eq_iff, select,
  exists_row, update, Bool-cases, if◌then◌else◌,
}
use idem_ledger.Db.{Db, KeyRow, claimed, done, KeyStatus, StoredResponse, Result, ok}
use idem_ledger.Server.{World, pure}
use idem_ledger.Server.Laws.{>>=-elim, Ran, in_tx-Ran, Quiet}
use idem_ledger.Idempotency.{
  has_key, insert_key, select_key, steal_key, is_stealable, Claim, won, replay, is_stale, steal,
  reply_of, examine, read_claim, claim_in_tx, found, claimed_row, stolen_row,
}

-- The keys after a successful claim: a new row, or the stale one taken over.
abbrev pub TakesKey : String → String → ℕ → List KeyRow → List KeyRow → Type 0
TakesKey key hash now ks ks' =
    ((exists_row (has_key key) ks ≡ false) × (ks' ≡ claimed_row key hash now ∷ ks))
    ⊎ ((r : KeyRow) × (select (has_key key) ks ≡ some r)
        × (r.status ≡ claimed)
        × (r.request_hash ≡ hash)
        × (ks' ≡ update (is_stealable key now) (stolen_row hash now) ks))

-- A claim that is answered with a stored response changed nothing, and a row with this key and hash
-- holds the response.
pub record Replays (key hash : String) (s : StoredResponse) (w w' : World) : Type 0 where
  pub row : KeyRow
  pub found : select (has_key key) w.db.keys ≡ some row
  pub same_hash : row.request_hash ≡ hash
  pub finished : row.status ≡ done
  pub code : row.response_code ≡ some s.code
  pub body : row.response_body ≡ s.body
  pub quiet : Quiet w w'

pub record Takes (key hash : String) (w w' : World) : Type 0 where
  pub keys : TakesKey key hash w.now w.db.keys w'.db.keys
  pub db : w'.db ≡ record w.db { keys = w'.db.keys }
  pub committed : w'.committed ≡ w.committed
  pub now : w'.now ≡ w.now

abbrev pub Claims : String → String → World → Claim → World → Type 0
Claims key hash w won w' = Takes key hash w w'
Claims key hash w (replay s) w' = Replays key hash s w w'

steal-Claims :
    (key hash : String) (r : KeyRow) (w : World) (c : Claim) {w' : World}
    → select (has_key key) w.db.keys ≡ some r
    → r.status ≡ claimed
    → r.request_hash ≡ hash
    → steal key hash w ≡ (ok c, w')
    → Claims key hash w c w'
unfolding steal steal_key
steal-Claims key hash r w won {w'} sel st same h = >>=-elim _ _ w h λ n v e k.
    let x = in_tx-Ran (steal_key key hash) w e in
    let keys : w'.db.keys ≡ update (is_stealable key w.now) (stolen_row hash w.now) w.db.keys =
      ground arith in
    record {
      keys = inr (r, sel, st, same, keys);
      db = ground arith;
      committed = ground arith;
      now = ground arith;
    }
steal-Claims key hash r w (replay s) sel st same h =
    >>=-elim _ _ w h λ n v e k. absurd (ground arith)

examine-Claims :
    (key hash : String) (r : KeyRow) (st : KeyStatus) (w : World) (c : Claim) {w' : World}
    → select (has_key key) w.db.keys ≡ some r
    → r.status ≡ st
    → r.request_hash ≡ hash
    → examine key hash r st w ≡ (ok c, w')
    → Claims key hash w c w'
unfolding examine is_stale reply_of
examine-Claims key hash r claimed w c sel st same h = >>=-elim _ _ w h λ old v e k.
    let here : v ≡ w = ground arith in steal-Claims key hash r w c sel st same (ground arith)
examine-Claims key hash r done w won sel st same h = absurd (ground arith)
examine-Claims key hash r done w (replay s) sel st same h = record {
  row = r;
  found = sel;
  same_hash = same;
  finished = st;
  code = ground arith;
  body = ground arith;
  quiet = ground arith;
}

Quiet-Claims :
    (key hash : String) (w v : World) (c : Claim) (w' : World)
    → Quiet w v
    → Claims key hash v c w'
    → Claims key hash w c w'
Quiet-Claims key hash w v won w' q c = record {
  keys =
      subst (λ n. TakesKey key hash n w.db.keys w'.db.keys) q.now
        (subst (λ (d : Db). TakesKey key hash v.now d.keys w'.db.keys) q.db c.keys);
  db = ground arith;
  committed = ground arith;
  now = ground arith;
}
Quiet-Claims key hash w v (replay s) w' q c = record {
  row = c.row;
  found = ground arith;
  same_hash = c.same_hash;
  finished = c.finished;
  code = c.code;
  body = c.body;
  quiet = ground arith;
}

read_claim-Claims :
    (key hash : String) (w : World) (c : Claim) {w' : World}
    → read_claim key hash w ≡ (ok c, w')
    → Claims key hash w c w'
unfolding read_claim select_key found
read_claim-Claims key hash w c {w'} h = >>=-elim _ _ w h λ r v e k. >>=-elim _ _ v k λ u v' e' k'.
    let x = in_tx-Ran (select_key key) w e in
    let q : Quiet w v' = ground arith in
    let same : r.request_hash ≡ hash = ground (arith, eq_iff r.request_hash hash) in
    let sel : select (has_key key) w.db.keys ≡ some r = ground arith in
    Quiet-Claims key hash w v' c w' q
      (examine-Claims key hash r r.status v' c (ground arith) refl same k')

inserted_fresh :
    (key hash : String) (w v : World) (c : Claim) {w' : World}
    → exists_row (has_key key) w.db.keys ≡ false
    → Ran (insert_key key hash) w 1 v
    → ◌≡◌ {A = Result Claim × World} (ok won, v) (ok c, w')
    → Claims key hash w c w'
unfolding insert_key
inserted_fresh key hash w v won new x h = record {
  keys = inl (new, ground arith);
  db = ground arith;
  committed = ground arith;
  now = ground arith;
}
inserted_fresh key hash w v (replay s) new x h = absurd (cc)

inserted-Claims :
    (key hash : String) (n : ℕ) (w v : World) (c : Claim) {w' : World}
    → Ran (insert_key key hash) w n v
    → (if n == 1 then pure won else read_claim key hash) v ≡ (ok c, w')
    → Claims key hash w c w'
unfolding insert_key
inserted-Claims key hash n w v c {w'} x h = elim (Bool-cases (exists_row (has_key key) w.db.keys)) [
  | inl old ↦
      Quiet-Claims key hash w v c w' (ground arith) (read_claim-Claims key hash v c (ground arith))
  | inr new ↦ inserted_fresh key hash w v c new (ground arith) (ground arith)
]

-- A claim that is answered without an error has taken the key, or found its stored response.
pub claim_in_tx-Claims :
    (key hash : String) (w : World) (c : Claim) {w' : World}
    → claim_in_tx key hash w ≡ (ok c, w')
    → Claims key hash w c w'
unfolding claim_in_tx
claim_in_tx-Claims key hash w c h =
    >>=-elim _ _ w h
      λ n v e k. inserted-Claims key hash n w v c (in_tx-Ran (insert_key key hash) w e) k
