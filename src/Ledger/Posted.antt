-- ===== src/Ledger/Posted.antt =====
-- The net effect of one transfer on the tables: what execTxWithDebit has done if it succeeds.
use idem_ledger.Base.{
  ℕ, ◌+◌, ◌≡◌, ◌≢◌, ◌∙◌, sym, subst, inl, inr, Option-cases, true, false, ◌||◌, String, some, List,
  [], ◌∷◌, ◌++◌, arith, ◌==◌, str_eq, eq_iff, All, select, exists_row, update,
}
use idem_ledger.Base.Int.{ℤ, pos, ◌-ℤ◌, ◌≤ℤ◌}
use idem_ledger.Db.{Db, Account, Transfer, ok, account_not_found}
use idem_ledger.Server.{World}
use idem_ledger.Server.Laws.{>>=-elim, Ran, in_tx-Ran}
use idem_ledger.Store.Accounts.{by_id}
use idem_ledger.Store.Accounts.Unique.{Below}
use idem_ledger.Store.Outbox.{new_event}
use idem_ledger.Ledger.Rows.{
  debit_row, credit_row, update_accounts, select_currencies, posting_row, transfer_row,
}
use idem_ledger.Ledger.Rows.Success.{update_accounts-eq-ok}
use idem_ledger.Ledger.Debit.{DebitFn}
use idem_ledger.Ledger.Debit.Covered.{Debited, IsDebit}
use idem_ledger.Ledger.Effect.{
  webhook_at, or_raise-eq-ok, Journals, insert_transfer_and_postings-Journals,
}
use idem_ledger.Ledger.{Env, Request, is_keyed, credit, exec_tx_with_debit}

-- The accounts after the debit, which `f` writes, and the credit.
abbrev pub moved : (ℤ → Account → Account) → Request → List Account → List Account
moved f req rows =
    update (by_id req.to_account) (credit_row req.amount)
      (update (by_id req.from_account) (f req.amount) rows)

-- Everything but the idempotency keys.
pub record Posted (env : Env) (f : ℤ → Account → Account) (req : Request) (t : Transfer) (now : ℕ)
    (d d' : Db) : Type 0 where
  pub id : ℕ
  pub key : String
  pub event_id : ℕ
  pub body : String
  pub row : t ≡ transfer_row id key req.amount req.currency req.from_account req.to_account now
  pub own_key : is_keyed req ≡ true → key ≡ req.idempotency_key
  pub fresh : exists_row (λ u. u.id == id || str_eq u.idempotency_key key) d.transfers ≡ false
  pub positive : pos 1 ≤ℤ req.amount
  pub distinct : req.from_account ≢ req.to_account
  pub covered : All (λ x. by_id req.from_account x ≡ true → req.amount ≤ℤ x.balance) d.accounts
  pub from_known : exists_row (by_id req.from_account) d.accounts ≡ true
  pub to_known : exists_row (by_id req.to_account) d'.accounts ≡ true
  pub marshalled : env.marshal t ≡ some body
  pub accounts : d'.accounts ≡ moved f req d.accounts
  pub transfers : d'.transfers ≡ t ∷ d.transfers
  pub postings :
      d'.postings
      ≡ posting_row (d.next_posting + 1) t.id req.to_account req.amount now
        ∷ posting_row d.next_posting t.id req.from_account (pos 0 -ℤ req.amount) now
        ∷ d.postings
  pub outbox :
      d'.outbox
      ≡ d.outbox
        ++ new_event event_id "transfer.created" (env.jsonb body) (webhook_at req.to_account d') now
          ∷ []
  pub next_account : d'.next_account ≡ d.next_account
  pub next_posting : d'.next_posting ≡ d.next_posting + 2

module _ (env : Env) where
  -- A debit, a credit and the journal make one transfer.
  pub Journals-Posted :
      (f : ℤ → Account → Account) (req : Request) (t : Transfer) (w w1 w2 w3 : World) (m : ℕ)
      → Debited (f req.amount) req.from_account req.amount w w1
      → Ran (update_accounts (by_id req.to_account) (credit_row req.amount)) w1 m w2
      → Journals env req t w2 w3
      → Posted env f req t w.now w.db w3.db
        × (w3.db.keys ≡ w.db.keys)
        × (w3.committed ≡ w.committed)
  Journals-Posted f req t w w1 w2 w3 m debit credited j =
      let s =
        update_accounts-eq-ok (by_id req.to_account) (credit_row req.amount) w1.now w1.db
          credited.effect in
      (
        record {
          id = j.id;
          key = j.key;
          event_id = j.event_id;
          body = j.body;
          row = ground arith;
          own_key = j.own_key;
          fresh = ground arith;
          positive = j.positive;
          distinct = j.distinct;
          covered = debit.covered;
          from_known = debit.found;
          to_known = ground arith;
          marshalled = j.marshalled;
          accounts = ground arith;
          transfers = ground arith;
          postings = ground arith;
          outbox = ground arith;
          next_account = ground arith;
          next_posting = ground arith;
        },
        ground arith,
        ground arith,
      )

  credit-Ran :
      (req : Request) (w : World) {u : Unit {0}} {w' : World}
      → credit env req w ≡ (ok u, w')
      → (m : ℕ) × Ran (update_accounts (by_id req.to_account) (credit_row req.amount)) w m w'
  unfolding credit
  credit-Ran req w {w' = w'} h = >>=-elim _ _ w h λ m v e k.
      let same : w' ≡ v = ground arith in (m, subst (Ran _ w m) (sym same) (in_tx-Ran _ w e))

  -- Both accounts are held in the currency of the transfer.
  abbrev pub SameCurrency : Request → List Account → Type 0
  SameCurrency req rows =
      (a : Account) × (b : Account) × (select (by_id req.from_account) rows ≡ some a)
      × (select (by_id req.to_account) rows ≡ some b)
      × (a.currency ≡ req.currency)
      × (b.currency ≡ req.currency)

  select_currencies-eq-ok :
      (from to now : ℕ) (d d' : Db) (c c' : String)
      → select_currencies from to now d ≡ ok (some (c, c'), d')
      → (a : Account) × (b : Account) × (select (by_id from) d.accounts ≡ some a)
        × (select (by_id to) d.accounts ≡ some b)
        × (a.currency ≡ c)
        × (b.currency ≡ c')
        × (d' ≡ d)
  unfolding select_currencies
  select_currencies-eq-ok from to now d d' c c' h =
      elim (Option-cases (select (by_id from) d.accounts)) [
        | inl e ↦ absurd (ground arith)
        | inr (a, e) ↦ elim (Option-cases (select (by_id to) d.accounts)) [
          | inl e' ↦ absurd (ground arith)
          | inr (b, e') ↦ (a, b, e, e', ground arith, ground arith, ground arith)
        ]
      ]

  pub exec_tx_with_debit-Posted :
      (debit : DebitFn) (req : Request) (n : ℕ) (w : World) {t : Transfer} {w' : World}
      → IsDebit debit
      → Below n w.db.accounts
      → exec_tx_with_debit env debit req w ≡ (ok t, w')
      → Posted env debit_row req t w.now w.db w'.db
        × (w'.db.keys ≡ w.db.keys)
        × (w'.committed ≡ w.committed)
        × SameCurrency req w.db.accounts
  unfolding exec_tx_with_debit
  exec_tx_with_debit-Posted debit req n w {t} {w'} is_debit b h = >>=-elim _ _ w h λ row w1 e1 h1.
      >>=-elim _ _ w1 h1 λ pair w2 e2 h2. >>=-elim _ _ w2 h2 λ u w3 e3 h3.
        >>=-elim _ _ w3 h3 λ u' w4 e4 h4. >>=-elim _ _ w4 h4 λ u'' w5 e5 h5.
          let x = in_tx-Ran (select_currencies req.from_account req.to_account) w e1 in
          let o = or_raise-eq-ok row account_not_found w1 e2 in
          let c =
            select_currencies-eq-ok req.from_account req.to_account w.now w.db w1.db pair.0 pair.1
              (ground arith) in
          let same : w3.db ≡ w.db = ground arith in
          let now : w3.now ≡ w.now = ground arith in
          let d =
            is_debit req.from_account req.amount n w3 u' w4
              (subst (λ (r : Db). Below n r.accounts) (sym same) b) e4 in
          let (m, r) = credit-Ran req w4 e5 in
          let j = insert_transfer_and_postings-Journals env req w5 h5 in
          let p = Journals-Posted debit_row req t w3 w4 w5 w' m d r j in
          let from_matches : pair.0 ≡ req.currency = ground (arith, eq_iff pair.0 req.currency) in
          let to_matches : pair.1 ≡ req.currency =
            ground (arith, eq_iff pair.0 req.currency, eq_iff pair.1 req.currency) in
          (
            subst (λ k. Posted env debit_row req t k w.db w'.db) now
                (subst (λ k. Posted env debit_row req t w3.now k w'.db) same p.0),
            ground arith,
            ground arith,
            (c.0, c.1, c.2, c.3, c.4 ∙ from_matches, c.5 ∙ to_matches),
          )
