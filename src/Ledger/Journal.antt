-- ===== src/Ledger/Journal.antt =====
-- insertTransferAndPostings of internal/ledger/transfer.go, in a session whose calls are answered.
use idem_ledger.Base.{
  ℕ, ◌+◌, ◌≡◌, ◌≢◌, refl, true, false, ◌||◌, ◌==◌, str_eq, String, Option, some, [], ◌∷◌, ◌++◌,
  count, ◌≤◌, arith, select, exists_row,
}
use idem_ledger.Base.Int.{pos, ◌-ℤ◌, ◌≤ℤ◌}
use idem_ledger.Db.{Transfer, ok}
use idem_ledger.Server.{World, draw}
use idem_ledger.Server.Fine.{then_do, in_tx-calm, map_error-run}
use idem_ledger.Store.Accounts.{by_id, select_account, webhook_of, get_webhook_url_in_tx}
use idem_ledger.Store.Outbox.{event_by_id, new_event, insert_event, insert_outbox_event_in_tx}
use idem_ledger.Ledger.Rows.{transfer_row, insert_transfer, insert_postings, posting_row}
use idem_ledger.Ledger.{Env, Request, transfer_key, announce, insert_transfer_and_postings}

-- The tables take the rows of the transfer, with the key `key` and the identifiers after the `drawn`-th.
pub record IsOpen (env : Env) (req : Request) (key : String) (drawn : ℕ) (w : World) : Type 0 where
  pub calm : w.tape ≡ []
  pub named : transfer_key env req w ≡ (ok key, record w { drawn = drawn })
  pub positive : pos 1 ≤ℤ req.amount
  pub short : count req.currency ≤ 3
  pub distinct : req.from_account ≢ req.to_account
  pub from_known : exists_row (by_id req.from_account) w.db.accounts ≡ true
  pub to_known : exists_row (by_id req.to_account) w.db.accounts ≡ true
  pub fresh_transfer :
      exists_row (λ u. u.id == env.uuid drawn || str_eq u.idempotency_key key) w.db.transfers
      ≡ false
  pub fresh_event : exists_row (event_by_id (env.uuid (drawn + 1))) w.db.outbox ≡ false
  pub text : (t : Transfer) → (body : String) × (env.marshal t ≡ some body)

module _ (env : Env) (req : Request) (key : String) (drawn : ℕ) (w : World)
    (r : IsOpen env req key drawn w) where
  abbrev pub journal_row : Transfer
  journal_row =
      transfer_row (env.uuid drawn) key req.amount req.currency req.from_account req.to_account
        w.now

  abbrev pub with_row : World
  with_row = record w {
    db = record w.db { transfers = journal_row ∷ w.db.transfers };
    drawn = drawn + 1;
  }

  abbrev pub with_postings : World
  with_postings = record with_row {
    db = record with_row.db {
      postings =
          posting_row (w.db.next_posting + 1) (env.uuid drawn) req.to_account req.amount w.now
          ∷ posting_row w.db.next_posting (env.uuid drawn) req.from_account (pos 0 -ℤ req.amount)
              w.now
          ∷ w.db.postings;
      next_posting = w.db.next_posting + 2;
    };
  }

  insert_transfer-run :
      insert_transfer
        (env.uuid drawn)
        key
        req.amount
        req.currency
        req.from_account
        req.to_account
        w.now
        w.db
      ≡ ok (journal_row, with_row.db)
  unfolding insert_transfer
  insert_transfer-run =
      let p = r.positive in
      let s = r.short in
      let ne = r.distinct in
      let fresh = r.fresh_transfer in let a = r.from_known in let b = r.to_known in ground arith

  insert_postings-run :
      insert_postings
        (env.uuid drawn)
        req.from_account
        (pos 0 -ℤ req.amount)
        req.to_account
        req.amount
        w.now
        with_row.db
      ≡ ok (tt, with_postings.db)
  unfolding insert_postings exists_row
  insert_postings-run = let a = r.from_known in let b = r.to_known in ground arith

  abbrev pub webhook : Option String
  webhook = webhook_of (select (by_id req.to_account) w.db.accounts)

  webhook-run : get_webhook_url_in_tx req.to_account with_postings ≡ (ok webhook, with_postings)
  unfolding get_webhook_url_in_tx select_account
  webhook-run = then_do _ _ with_postings (in_tx-calm with_postings r.calm _ refl) refl

  abbrev pub with_event : World
  with_event = record with_postings {
    db = record with_postings.db {
      outbox =
          w.db.outbox
          ++ new_event (env.uuid (drawn + 1)) "transfer.created" (env.jsonb (r.text journal_row).0)
              webhook w.now
            ∷ [];
    };
    drawn = drawn + 1 + 1;
  }

  event-run :
      insert_outbox_event_in_tx env.uuid "transfer.created"
        (env.jsonb (r.text journal_row).0)
        webhook
        with_postings
      ≡ (ok tt, with_event)
  unfolding insert_outbox_event_in_tx insert_event draw
  event-run =
      let fresh = r.fresh_event in
      then_do _ _ with_postings refl
        (in_tx-calm (record with_postings { drawn = drawn + 1 + 1 }) r.calm _ (ground arith))

  announce-run : announce env req journal_row with_postings ≡ (ok tt, with_event)
  unfolding announce
  announce-run =
      then_do _ _ with_postings webhook-run
        (then_do _ _ with_postings (rw ((r.text journal_row).1)) event-run)

  pub journal-run : insert_transfer_and_postings env req w ≡ (ok journal_row, with_event)
  unfolding insert_transfer_and_postings draw
  journal-run = then_do _ _ w r.named (
      then_do _ _ (record w { drawn = drawn }) refl
        (then_do _ _ (record w { drawn = drawn + 1 })
          (map_error-run _ _ _
            (in_tx-calm (record w { drawn = drawn + 1 }) r.calm _ insert_transfer-run))
          (then_do _ _ with_row (in_tx-calm with_row r.calm _ insert_postings-run)
            (then_do _ _ with_postings announce-run refl))))
