-- ===== src/Ledger/Keyed.antt =====
-- The idempotency key around the work: the claim before it and the stored response after it.
use idem_ledger.Base.{
  ℕ, ◌≡◌, refl, sym, subst, String, Bool, true, false, some, List, arith, if◌then◌else◌, update,
  Bool-cases, inl, inr,
}
use idem_ledger.Base.Int.{ℤ}
use idem_ledger.Db.{Db, Account, KeyRow, Transfer, StoredResponse, ok, marshal_failed}
use idem_ledger.Server.{World, pure}
use idem_ledger.Server.Laws.{>>=-elim, in_tx-Ran, Quiet}
use idem_ledger.Idempotency.{has_key, done_row, won, replay, claim_in_tx, complete_key, complete}
use idem_ledger.Idempotency.Claims.{TakesKey, Takes, Claims, claim_in_tx-Claims}
use idem_ledger.Ledger.Effect.{or_raise-eq-ok}
use idem_ledger.Ledger.Posted.{Posted}
use idem_ledger.Ledger.Attempt.{IsStored, Commits}
use idem_ledger.Ledger.{Env, Request, is_keyed, claim_request, record_response, store_response}

module _ (env : Env) (req : Request) where
  -- A claim that is won.
  pub record Claimed (w w' : World) : Type 0 where
    pub taken : is_keyed req ≡ true → Takes req.idempotency_key req.request_hash w w'
    pub skipped : is_keyed req ≡ false → w'.db.keys ≡ w.db.keys
    pub db : w'.db ≡ record w.db { keys = w'.db.keys }
    pub committed : w'.committed ≡ w.committed
    pub now : w'.now ≡ w.now

  claim_branch :
      (b : Bool) (w : World) {w' : World}
      → (if b then claim_in_tx req.idempotency_key req.request_hash else pure won) w ≡ (ok won, w')
      → (b ≡ true → Takes req.idempotency_key req.request_hash w w') × (b ≡ false → w' ≡ w)
  claim_branch true w h = ((λ e. claim_in_tx-Claims _ _ w won h), (λ e. absurd (cc)))
  claim_branch false w h = ((λ e. absurd (cc)), (λ e. ground arith))

  pub claim_request-Claimed :
      (w : World) {w' : World} → claim_request env req w ≡ (ok won, w') → Claimed w w'
  unfolding claim_request
  claim_request-Claimed w {w'} h =
      let c = claim_branch (is_keyed req) w h in
      elim (Bool-cases (is_keyed req)) [
        | inl e ↦
            let k = c.0 e in
            record {
              taken = c.0;
              skipped = λ x. absurd (cc);
              db = k.db;
              committed = k.committed;
              now = k.now;
            }
        | inr e ↦
            let k = c.1 e in
            record {
              taken = c.0;
              skipped = λ _. ground arith;
              db = ground arith;
              committed = ground arith;
              now = ground arith;
            }
      ]

  -- What leaves the tables alone leaves the claim as it is.
  pub Claimed-Quiet : (w w' w'' : World) → Claimed w w' → Quiet w' w'' → Claimed w w''
  Claimed-Quiet w w' w'' c q = record {
    taken = λ e.
        let k = c.taken e in
        record {
          keys =
              subst
                (λ (d : Db). TakesKey req.idempotency_key req.request_hash w.now w.db.keys d.keys)
                (sym q.db) k.keys;
          db = ground arith;
          committed = ground arith;
          now = ground arith;
        };
    skipped = λ e. let k = c.skipped e in ground arith;
    db = ground arith;
    committed = ground arith;
    now = ground arith;
  }

  stored_branch :
      (b : Bool) (w : World) {s : StoredResponse} {w' : World}
      → (if b then claim_in_tx req.idempotency_key req.request_hash else pure won) w
        ≡ (ok (replay s), w')
      → (b ≡ true) × Claims req.idempotency_key req.request_hash w (replay s) w'
  stored_branch true w h = (refl, claim_in_tx-Claims _ _ w (replay _) h)
  stored_branch false w h = absurd (cc)

  -- An answer from the keys: the transaction saw the row that holds it.
  pub claim_request-IsStored :
      (w : World) (d : Db) {s : StoredResponse} {w' : World}
      → w.db ≡ d
      → claim_request env req w ≡ (ok (replay s), w')
      → IsStored req s d × (w'.committed ≡ w.committed)
  unfolding claim_request
  claim_request-IsStored w d e h =
      let (keyed, r) = stored_branch (is_keyed req) w h in
      (
        record {
          row = r.row;
          keyed = keyed;
          found = ground arith;
          same_hash = r.same_hash;
          finished = r.finished;
          code = r.code;
          body = r.body;
        },
        r.quiet.committed,
      )

  -- The response is recorded.
  pub record Recorded (t : Transfer) (w w' : World) : Type 0 where
    pub stored :
        is_keyed req ≡ true
        → (body : String) × (env.marshal t ≡ some body)
          × (w'.db.keys
              ≡ update (has_key req.idempotency_key) (done_row 201 (env.jsonb body)) w.db.keys)
    pub skipped : is_keyed req ≡ false → w' ≡ w
    pub db : w'.db ≡ record w.db { keys = w'.db.keys }
    pub committed : w'.committed ≡ w.committed

  store_response-Recorded :
      (t : Transfer) (w : World) {u : Unit {0}} {w' : World}
      → store_response env req.idempotency_key t w ≡ (ok u, w')
      → (body : String) × (env.marshal t ≡ some body)
        × (w'.db ≡ record w.db {
          keys = update (has_key req.idempotency_key) (done_row 201 (env.jsonb body)) w.db.keys;
        })
        × (w'.committed ≡ w.committed)
  unfolding store_response complete complete_key
  store_response-Recorded t w h = >>=-elim _ _ w h λ body v e k. >>=-elim _ _ v k λ n v' e' k'.
      let o = or_raise-eq-ok (env.marshal t) marshal_failed w e in
      let x = in_tx-Ran (complete_key req.idempotency_key 201 (env.jsonb body)) v e' in
      (body, o.0, ground arith, ground arith)

  response_branch :
      (b : Bool) (t : Transfer) (w : World) {u : Unit {0}} {w' : World}
      → is_keyed req ≡ b
      → (if b then store_response env req.idempotency_key t else pure tt) w ≡ (ok u, w')
      → Recorded t w w'
  response_branch true t w e h =
      let (body, m, d, c) = store_response-Recorded t w h in
      record {
        stored = λ _. (body, m, ground arith);
        skipped = λ x. absurd (cc);
        db = ground arith;
        committed = c;
      }
  response_branch false t w {w' = w'} e h =
      let same : w' ≡ w = ground arith in
      record {
        stored = λ x. absurd (cc);
        skipped = λ _. same;
        db = ground arith;
        committed = ground arith;
      }

  pub record_response-Recorded :
      (t : Transfer) (w : World) {u : Unit {0}} {w' : World}
      → record_response env req t w ≡ (ok u, w')
      → Recorded t w w'
  unfolding record_response
  record_response-Recorded t w h = response_branch (is_keyed req) t w refl h

  -- The work does not look at the keys.
  Posted-keys :
      (f : ℤ → Account → Account) (t : Transfer) (now : ℕ) (d d' : Db) (ks ks' : List KeyRow)
      → Posted env f req t now d d'
      → Posted env f req t now (record d { keys = ks }) (record d' { keys = ks' })
  Posted-keys f t now d d' ks ks' p = record {
    id = p.id;
    key = p.key;
    event_id = p.event_id;
    body = p.body;
    row = p.row;
    own_key = p.own_key;
    fresh = p.fresh;
    positive = p.positive;
    distinct = p.distinct;
    covered = p.covered;
    from_known = p.from_known;
    to_known = p.to_known;
    marshalled = p.marshalled;
    accounts = p.accounts;
    transfers = p.transfers;
    postings = p.postings;
    outbox = p.outbox;
    next_account = p.next_account;
    next_posting = p.next_posting;
  }

  -- Claim, work and response make one commit.
  pub Keyed-Commits :
      (f : ℤ → Account → Account) (t : Transfer) (w1 w2 w3 w4 : World)
      → Claimed w1 w2
      → Posted env f req t w2.now w2.db w3.db
      → w3.db.keys ≡ w2.db.keys
      → Recorded t w3 w4
      → Commits env f req t w1.db w4.db
  Keyed-Commits f t w1 w2 w3 w4 c p same r =
      let before : record w2.db { keys = w1.db.keys } ≡ w1.db = ground arith in
      let moved_over = Posted-keys f t w2.now w2.db w3.db w1.db.keys w4.db.keys p in
      record {
        now = w1.now;
        posted =
            subst (λ n. Posted env f req t n w1.db w4.db) c.now
              (subst (λ d. Posted env f req t w2.now d w4.db) before
                (subst (λ d. Posted env f req t w2.now (record w2.db { keys = w1.db.keys }) d)
                  (sym r.db) moved_over));
        unkeyed = λ e. let x = c.skipped e in let y = r.skipped e in ground arith;
        keyed = λ e.
            let (body, m, ks) = r.stored e in
            record {
              taken = w2.db.keys;
              body = body;
              marshalled = m;
              claim = (c.taken e).keys;
              keys = ground arith;
            };
      }
