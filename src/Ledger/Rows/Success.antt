-- ===== src/Ledger/Rows/Success.antt =====
-- What a statement on accounts, transfers or postings that succeeds has checked and done.
use idem_ledger.Base.{
  ℕ, ◌+◌, ◌≡◌, ◌≢◌, String, Bool, true, false, not, ◌&&◌, ◌||◌, ◌∷◌, ◌==◌, str_eq, arith,
  exists_row, update, count_rows,
}
use idem_ledger.Base.Int.{ℤ, pos, ◌≤ℤ◌, ltb_ℤ}
use idem_ledger.Db.{Db, Account, Transfer, ok}
use idem_ledger.Store.Accounts.{by_id}
use idem_ledger.Ledger.Rows.{
  fits_bigint, update_accounts, transfer_row, insert_transfer, posting_row, insert_postings,
}

pub update_accounts-eq-ok :
    (p : Account → Bool) (f : Account → Account) (now : ℕ) (d : Db) {n : ℕ} {d' : Db}
    → update_accounts p f now d ≡ ok (n, d')
    → (n ≡ count_rows p d.accounts)
      × (d' ≡ record d { accounts = update p f d.accounts })
      × (exists_row (λ a. p a && not (fits_bigint (f a).balance)) d.accounts ≡ false)
      × (exists_row (λ a. p a && ltb_ℤ (f a).balance (pos 0)) d.accounts ≡ false)
unfolding update_accounts
update_accounts-eq-ok p f now d h = ground arith

pub insert_transfer-eq-ok :
    (id : ℕ) (key : String) (amount : ℤ) (currency : String) (from to now : ℕ) (d : Db)
    {t : Transfer} {d' : Db}
    → insert_transfer id key amount currency from to now d ≡ ok (t, d')
    → (t ≡ transfer_row id key amount currency from to now)
      × (d' ≡ record d { transfers = t ∷ d.transfers })
      × (pos 1 ≤ℤ amount)
      × (from ≢ to)
      × (exists_row (λ t. t.id == id || str_eq t.idempotency_key key) d.transfers ≡ false)
      × (exists_row (by_id from) d.accounts ≡ true)
      × (exists_row (by_id to) d.accounts ≡ true)
unfolding insert_transfer
insert_transfer-eq-ok id key amount currency from to now d h = ground arith

pub insert_postings-eq-ok :
    (transfer_id account₁ : ℕ) (amount₁ : ℤ) (account₂ : ℕ) (amount₂ : ℤ) (now : ℕ) (d : Db)
    {u : Unit {0}} {d' : Db}
    → insert_postings transfer_id account₁ amount₁ account₂ amount₂ now d ≡ ok (u, d')
    → d' ≡ record d {
      postings =
          posting_row (d.next_posting + 1) transfer_id account₂ amount₂ now
          ∷ posting_row d.next_posting transfer_id account₁ amount₁ now
          ∷ d.postings;
      next_posting = d.next_posting + 2;
    }
unfolding insert_postings
insert_postings-eq-ok transfer_id account₁ amount₁ account₂ amount₂ now d h = ground arith
