-- ===== src/Ledger/Succeeds.antt =====
-- A transfer that can be made, from its claim to its COMMIT, in a session whose calls are answered.
use idem_ledger.Base.{
  ℕ, suc, ◌≡◌, refl, true, false, String, some, List, [], ◌∷◌, arith, exists_row, update,
}
use idem_ledger.Db.{Db, Transfer, KeyRow, ok}
use idem_ledger.Server.{World, Action, rollback}
use idem_ledger.Server.Fine.{
  then_do, in_tx-calm, begin-calm, commit-calm, map_error-run, in_transaction-run,
}
use idem_ledger.Idempotency.{
  won, has_key, claimed_row, insert_key, done_row, claim_in_tx, complete, complete_key,
}
use idem_ledger.Ledger.Attempt.{Commits, Ended-Commits}
use idem_ledger.Ledger.Execute.{HasIds, execute-Ended}
use idem_ledger.Ledger.Rows.{debit_row}
use idem_ledger.Ledger.{
  Env, Request, created, is_keyed, claim_request, record_response, store_response, finish_once,
  execute_once, execute, attempts, retriable,
}
use idem_ledger.Ledger.Ready.{IsReady, validate-run, new_row, after_event, exec-run}

module _ (env : Env) (req : Request) where
  -- The claim writes the keys only.
  pub with_keys :
      (drawn : ℕ) (d : Db) (ks : List KeyRow)
      → IsReady env req drawn d
      → IsReady env req drawn (record d { keys = ks })
  with_keys drawn d ks r = record {
    valid = r.valid;
    keyed = r.keyed;
    from_row = r.from_row;
    to_row = r.to_row;
    from_found = r.from_found;
    to_found = r.to_found;
    from_currency = r.from_currency;
    to_currency = r.to_currency;
    covered = r.covered;
    balances = r.balances;
    room = r.room;
    fresh_transfer = r.fresh_transfer;
    fresh_event = r.fresh_event;
    text = r.text;
  }

  pub response-run :
      (t : Transfer) (w : World) {body : String}
      → w.tape ≡ []
      → is_keyed req ≡ true
      → env.marshal t ≡ some body
      → (v : World) × (record_response env req t w ≡ (ok tt, v)) × (v.tape ≡ [])
  unfolding record_response store_response complete complete_key
  response-run t w {body} calm keyed text = (
    record w {
      db = record w.db {
        keys = update (has_key req.idempotency_key) (done_row 201 (env.jsonb body)) w.db.keys;
      };
    },
    rw keyed (
        then_do _ _ w (rw text) (
          then_do _ _ w
            (in_tx-calm w calm (complete_key req.idempotency_key 201 (env.jsonb body)) refl) refl)),
    calm,
  )

  pub claim-run :
      (w : World)
      → w.tape ≡ []
      → is_keyed req ≡ true
      → exists_row (has_key req.idempotency_key) w.db.keys ≡ false
      → claim_request env req w ≡ (
        ok won,
        record w {
          db = record w.db {
            keys = claimed_row req.idempotency_key req.request_hash w.now ∷ w.db.keys;
          };
        },
      )
  unfolding claim_request claim_in_tx insert_key
  claim-run w calm keyed fresh =
      let inserted : insert_key req.idempotency_key req.request_hash w.now w.db
          ≡ ok (
            1,
            record w.db {
              keys = claimed_row req.idempotency_key req.request_hash w.now ∷ w.db.keys;
            },
          ) =
        ground arith in
      rw keyed (
        then_do _ _ w (in_tx-calm w calm (insert_key req.idempotency_key req.request_hash) inserted)
          refl)

  work-run :
      (w : World)
      → w.tape ≡ []
      → IsReady env req w.drawn w.db
      → (t : Transfer) × (v : World) × (finish_once env req won w ≡ (ok (created t), v))
  unfolding finish_once
  work-run w calm r =
      let (v, stored, calm') =
        response-run (new_row env req w calm r) (after_event env req w calm r) calm r.keyed
          ((r.text (new_row env req w calm r)).1) in
      (
        new_row env req w calm r,
        record v { committed = v.db },
        then_do _ _ w (exec-run env req w calm r) (
            then_do _ _ (after_event env req w calm r) stored
              (then_do _ _ v (commit-calm v calm') refl)),
      )

  once-run :
      (w : World)
      → w.tape ≡ []
      → IsReady env req w.drawn w.committed
      → exists_row (has_key req.idempotency_key) w.committed.keys ≡ false
      → (t : Transfer) × (v : World) × (execute_once env req w ≡ (ok (created t), v))
  unfolding execute_once
  once-run w calm r fresh =
      let w1 : World = record w { db = w.committed } in
      let ks = claimed_row req.idempotency_key req.request_hash w.now ∷ w.committed.keys in
      let w2 : World = record w { db = record w.committed { keys = ks } } in
      let (t, v, done) = work-run w2 calm (with_keys w.drawn w.committed ks r) in
      (
        t,
        rollback v,
        in_transaction-run _ w (
            then_do _ _ w (begin-calm w calm)
              (then_do _ _ w1 (claim-run w1 calm r.keyed fresh) done)),
      )

  pub attempts-run :
      {A : Type 0} (n : ℕ) (m : Action A) (w : World) {a : A} {v : World}
      → m w ≡ (ok a, v)
      → attempts (suc n) m w ≡ (ok a, v)
  unfolding attempts
  attempts-run n m w h = ground arith

  -- Where every call is answered, the account ids are distinct and below the sequence, the key is new and
  -- the transfer can be made (a positive amount that the first account covers and the second has room
  -- for, two different accounts in the request's currency, new identifiers): `Execute` returns the new
  -- transfer and has committed it.
  pub execute_succeeds :
      (w : World)
      → w.tape ≡ []
      → HasIds w.committed
      → IsReady env req w.drawn w.committed
      → exists_row (has_key req.idempotency_key) w.committed.keys ≡ false
      → (t : Transfer) × (w' : World) × (execute env req w ≡ (ok (created t), w'))
        × Commits env debit_row req t w.committed w'.committed
  unfolding execute
  execute_succeeds w calm b r fresh =
      let (t, v, done) = once-run w calm r fresh in
      let whole =
        then_do _ _ w (validate-run req w r.valid)
          (attempts-run 4 (retriable (execute_once env req)) w (map_error-run _ _ w done)) in
      (
        t,
        v,
        whole,
        Ended-Commits env debit_row req w.committed t v whole (execute-Ended env req w b),
      )
