-- ===== src/Ledger/Effect.antt =====
-- What the journal part of a transfer, insertTransferAndPostings, does to the tables if it succeeds.
use idem_ledger.Base.{
  ℕ, ◌+◌, ◌≡◌, ◌≢◌, String, true, false, ◌||◌, ◌==◌, str_eq, Option, some, [], ◌∷◌, ◌++◌, arith,
  select, exists_row,
}
use idem_ledger.Base.Int.{pos, ◌-ℤ◌, ◌≤ℤ◌}
use idem_ledger.Db.{Db, Transfer, ok, Error, marshal_failed}
use idem_ledger.Server.{World}
use idem_ledger.Server.Laws.{>>=-elim, in_tx-Ran, Quiet, draw-Quiet, map_error-eq-ok}
use idem_ledger.Store.Accounts.{by_id, select_account, webhook_of, or_raise, get_webhook_url_in_tx}
use idem_ledger.Store.Outbox.{new_event, insert_event, insert_outbox_event_in_tx}
use idem_ledger.Ledger.Rows.{posting_row, transfer_row}
use idem_ledger.Ledger.Rows.Success.{insert_transfer-eq-ok, insert_postings-eq-ok}
use idem_ledger.Ledger.{
  Env, Request, is_keyed, transfer_key, announce, insert_transfer_and_postings,
}

-- The address of the destination's webhook.
abbrev pub webhook_at : ℕ → Db → Option String
webhook_at id d = webhook_of (select (by_id id) d.accounts)

get_webhook_url_in_tx-Quiet :
    (id : ℕ) (w : World) {url : Option String} {w' : World}
    → get_webhook_url_in_tx id w ≡ (ok url, w')
    → Quiet w w' × (url ≡ webhook_at id w.db)
unfolding get_webhook_url_in_tx select_account
get_webhook_url_in_tx-Quiet id w h =
    >>=-elim _ _ w h λ row v e k. ground (arith, in_tx-Ran (select_account id) w e)

insert_event-eq-ok :
    (id : ℕ) (kind payload : String) (url : Option String) (now : ℕ) (d : Db) {u : Unit {0}}
    {d' : Db}
    → insert_event id kind payload url now d ≡ ok (u, d')
    → d' ≡ record d { outbox = d.outbox ++ new_event id kind payload url now ∷ [] }
unfolding insert_event
insert_event-eq-ok id kind payload url now d h = ground arith

insert_outbox_event_in_tx-eq-ok :
    (uuid : ℕ → ℕ) (kind payload : String) (url : Option String) (w : World) {u : Unit {0}}
    {w' : World}
    → insert_outbox_event_in_tx uuid kind payload url w ≡ (ok u, w')
    → (id : ℕ) × (w'.db
        ≡ record w.db { outbox = w.db.outbox ++ new_event id kind payload url w.now ∷ [] })
      × (w'.committed ≡ w.committed)
      × (w'.now ≡ w.now)
unfolding insert_outbox_event_in_tx
insert_outbox_event_in_tx-eq-ok uuid kind payload url w h = >>=-elim _ _ w h λ id v e k.
    let q = draw-Quiet uuid w e in
    let r = in_tx-Ran _ v k in
    let s = insert_event-eq-ok id kind payload url v.now v.db r.effect in
    (id, ground arith, ground arith, ground arith)

pub or_raise-eq-ok :
    {A : Type 0} (o : Option A) (e : Error) (w : World) {a : A} {w' : World}
    → or_raise o e w ≡ (ok a, w')
    → (o ≡ some a) × (w' ≡ w)
or_raise-eq-ok o e w h = ground arith

module _ (env : Env) where
  -- The event of a transfer that succeeded.
  record Announced (req : Request) (t : Transfer) (w w' : World) : Type 0 where
    id : ℕ
    body : String
    marshalled : env.marshal t ≡ some body
    db : w'.db ≡ record w.db {
      outbox =
          w.db.outbox
          ++ new_event id "transfer.created" (env.jsonb body) (webhook_at req.to_account w.db) w.now
            ∷ [];
    }
    committed : w'.committed ≡ w.committed
    now : w'.now ≡ w.now

  announce-Announced :
      (req : Request) (t : Transfer) (w : World) {u : Unit {0}} {w' : World}
      → announce env req t w ≡ (ok u, w')
      → Announced req t w w'
  unfolding announce
  announce-Announced req t w h = >>=-elim _ _ w h λ url w1 e1 h1.
      >>=-elim _ _ w1 h1 λ body w2 e2 h2.
        let q = get_webhook_url_in_tx-Quiet req.to_account w e1 in
        let o = or_raise-eq-ok (env.marshal t) marshal_failed w1 e2 in
        let r =
          insert_outbox_event_in_tx-eq-ok env.uuid "transfer.created" (env.jsonb body) url w2 h2 in
        record {
          id = r.0;
          body = body;
          marshalled = o.0;
          db = ground arith;
          committed = ground arith;
          now = ground arith;
        }

  -- The rows that a transfer adds, and what the tables' constraints have checked of them.
  pub record Journals (req : Request) (t : Transfer) (w w' : World) : Type 0 where
    pub id : ℕ
    pub key : String
    pub event_id : ℕ
    pub body : String
    pub row : t ≡ transfer_row id key req.amount req.currency req.from_account req.to_account w.now
    pub own_key : is_keyed req ≡ true → key ≡ req.idempotency_key
    pub fresh : exists_row (λ u. u.id == id || str_eq u.idempotency_key key) w.db.transfers ≡ false
    pub positive : pos 1 ≤ℤ req.amount
    pub distinct : req.from_account ≢ req.to_account
    pub from_known : exists_row (by_id req.from_account) w.db.accounts ≡ true
    pub to_known : exists_row (by_id req.to_account) w.db.accounts ≡ true
    pub marshalled : env.marshal t ≡ some body
    pub db : w'.db ≡ record w.db {
      transfers = t ∷ w.db.transfers;
      postings =
          posting_row (w.db.next_posting + 1) t.id req.to_account req.amount w.now
          ∷ posting_row w.db.next_posting t.id req.from_account (pos 0 -ℤ req.amount) w.now
          ∷ w.db.postings;
      next_posting = w.db.next_posting + 2;
      outbox =
          w.db.outbox
          ++ new_event event_id "transfer.created"
              (env.jsonb body)
              (webhook_at req.to_account w.db)
              w.now
            ∷ [];
    }
    pub committed : w'.committed ≡ w.committed

  transfer_key-Quiet :
      (req : Request) (w : World) {key : String} {w' : World}
      → transfer_key env req w ≡ (ok key, w')
      → Quiet w w' × (is_keyed req ≡ true → key ≡ req.idempotency_key)
  unfolding transfer_key
  transfer_key-Quiet req w h = ground arith

  pub insert_transfer_and_postings-Journals :
      (req : Request) (w : World) {t : Transfer} {w' : World}
      → insert_transfer_and_postings env req w ≡ (ok t, w')
      → Journals req t w w'
  unfolding insert_transfer_and_postings
  insert_transfer_and_postings-Journals req w h = >>=-elim _ _ w h λ key w1 e1 h1.
      >>=-elim _ _ w1 h1 λ id w2 e2 h2. >>=-elim _ _ w2 h2 λ t w3 e3 h3.
        >>=-elim _ _ w3 h3 λ u w4 e4 h4. >>=-elim _ _ w4 h4 λ u' w5 e5 h5.
          let k = transfer_key-Quiet req w e1 in
          let q = draw-Quiet env.uuid w1 e2 in
          let r = in_tx-Ran _ w2 (map_error-eq-ok _ _ w2 e3) in
          let s =
            insert_transfer-eq-ok id key req.amount req.currency req.from_account req.to_account
              w2.now w2.db r.effect in
          let r' = in_tx-Ran _ w3 e4 in
          let s' =
            insert_postings-eq-ok t.id req.from_account (pos 0 -ℤ req.amount) req.to_account
              req.amount w3.now w3.db r'.effect in
          let a = announce-Announced req t w4 e5 in
          record {
            id = id;
            key = key;
            event_id = a.id;
            body = a.body;
            row = ground arith;
            own_key = k.1;
            fresh = ground arith;
            positive = s.2;
            distinct = s.3;
            from_known = ground arith;
            to_known = ground arith;
            marshalled = ground arith;
            db = ground arith;
            committed = ground arith;
          }
