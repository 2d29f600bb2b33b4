-- ===== src/Ledger/Ready.antt =====
-- A transfer that can be made: its statements before the response is recorded, in a session whose
-- calls are answered.
use idem_ledger.Base.{
  ℕ, ◌+◌, ◌≡◌, ◌≢◌, refl, ◌∙◌, inl, inr, Bool-cases, true, false, ◌||◌, ◌==◌, str_eq, eq_iff, len,
  String, some, List, [], ◌∷◌, arith, All, All-map, select, exists_row, update, count_rows,
  if◌then◌else◌, count-len,
}
use idem_ledger.Base.Int.{pos, ◌+ℤ◌, ◌≤ℤ◌, leb_ℤ, int_laws}
use idem_ledger.Db.{Db, Account, Transfer, ok}
use idem_ledger.Server.{◌>>=◌, World}
use idem_ledger.Server.Fine.{then_do, in_tx-calm}
use idem_ledger.Store.Accounts.{by_id}
use idem_ledger.Store.Outbox.{event_by_id}
use idem_ledger.Ledger.Covers.{
  IsBalance, max_balance, count_rows-exists, select-exists_and, select-exists, exists_row-update,
  All-update, update_accounts-run, debit_row-IsBalance,
}
use idem_ledger.Ledger.Rows.{debit_row, credit_row, select_currencies, update_accounts}
use idem_ledger.Ledger.Debit.{DebitFn, is_covered, debit_conditional_update}
use idem_ledger.Ledger.Journal.{IsOpen, journal_row, with_event, journal-run}
use idem_ledger.Ledger.{
  validate, Env, Request, is_keyed, credit, transfer_key, insert_transfer_and_postings,
  exec_tx_with_debit,
}

-- The request passes the guards.
pub record IsValid (req : Request) : Type 0 where
  pub positive : pos 1 ≤ℤ req.amount
  pub distinct : req.from_account ≢ req.to_account
  pub code : len req.currency ≡ 3

pub validate-run : (req : Request) (w : World) → IsValid req → validate req w ≡ (ok tt, w)
unfolding validate ◌>>=◌
validate-run req w valid = ground arith

-- A valid request with a key, between two accounts of its currency, the first of which covers the
-- amount and the second of which has room for it, where the identifiers that will be drawn are new.
pub record IsReady (env : Env) (req : Request) (drawn : ℕ) (d : Db) : Type 0 where
  pub valid : IsValid req
  pub keyed : is_keyed req ≡ true
  pub from_row : Account
  pub to_row : Account
  pub from_found : select (by_id req.from_account) d.accounts ≡ some from_row
  pub to_found : select (by_id req.to_account) d.accounts ≡ some to_row
  pub from_currency : from_row.currency ≡ req.currency
  pub to_currency : to_row.currency ≡ req.currency
  pub covered : req.amount ≤ℤ from_row.balance
  pub balances : All (λ x. IsBalance x.balance) d.accounts
  pub room :
      All (λ x. by_id req.to_account x ≡ true → x.balance +ℤ req.amount ≤ℤ max_balance) d.accounts
  pub fresh_transfer :
      exists_row
        (λ u. u.id == env.uuid drawn || str_eq u.idempotency_key req.idempotency_key)
        d.transfers
      ≡ false
  pub fresh_event : exists_row (event_by_id (env.uuid (drawn + 1))) d.outbox ≡ false
  pub text : (t : Transfer) → (body : String) × (env.marshal t ≡ some body)

pub All-both :
    {A : Type 0} (P Q : A → Type 0) (rows : List A)
    → All P rows
    → All Q rows
    → All (λ x. P x × Q x) rows
All-both P Q [] h k = tt
All-both P Q (x ∷ rows) h k = ((h.0, k.0), All-both P Q rows h.1 k.1)

module _ (env : Env) (req : Request) where
  abbrev pub debited : List Account → List Account
  debited rows = update (is_covered req.from_account req.amount) (debit_row req.amount) rows

  abbrev pub credited : List Account → List Account
  credited rows = update (by_id req.to_account) (credit_row req.amount) (debited rows)

  module _ (w : World) (calm : w.tape ≡ []) (r : IsReady env req w.drawn w.db) where
    abbrev pub after_debit : World
    after_debit = record w { db = record w.db { accounts = debited w.db.accounts } }

    pub covered_row : count_rows (is_covered req.from_account req.amount) w.db.accounts ≢ 0
    covered_row = count_rows-exists (is_covered req.from_account req.amount) w.db.accounts (
        select-exists_and (by_id req.from_account) (λ x. leb_ℤ req.amount x.balance) w.db.accounts
          r.from_row r.from_found (let c = r.covered in ground arith))

    pub debit_update-run :
        update_accounts (is_covered req.from_account req.amount) (debit_row req.amount) w.now w.db
        ≡ ok (count_rows (is_covered req.from_account req.amount) w.db.accounts, after_debit.db)
    debit_update-run =
        update_accounts-run (is_covered req.from_account req.amount) (debit_row req.amount) w.now
          w.db
          (All-map w.db.accounts
            (λ x fits hit.
              debit_row-IsBalance req.amount x.balance r.valid.positive (ground arith) fits)
            r.balances)

    debit-run : debit_conditional_update req.from_account req.amount w ≡ (ok tt, after_debit)
    unfolding debit_conditional_update
    debit-run =
        let some_row = covered_row in
        then_do _ _ w (in_tx-calm w calm _ debit_update-run) (ground arith)

    abbrev pub after_credit : World
    after_credit = record w { db = record w.db { accounts = credited w.db.accounts } }

    credit_row-IsBalance :
        (x : Account)
        → IsBalance x.balance
          × (by_id req.to_account x ≡ true → x.balance +ℤ req.amount ≤ℤ max_balance)
        → let y = if is_covered req.from_account req.amount x then debit_row req.amount x else x in
          by_id req.to_account y ≡ true → IsBalance (y.balance +ℤ req.amount)
    credit_row-IsBalance x (fits, room) =
        let p = r.valid.positive in
        let ne = r.valid.distinct in
        elim (Bool-cases (is_covered req.from_account req.amount x)) [
          | inl e ↦ rw e (λ hit. absurd (ground arith))
          | inr e ↦ rw e (λ hit. let k = room hit in omega int_laws)
        ]

    known :
        (id : ℕ)
        → exists_row (by_id id) (credited w.db.accounts) ≡ exists_row (by_id id) w.db.accounts
    known id =
        exists_row-update (by_id id) (by_id req.to_account) (credit_row req.amount)
          (debited w.db.accounts) (λ x. refl)
        ∙ exists_row-update (by_id id) (is_covered req.from_account req.amount)
            (debit_row req.amount) w.db.accounts (λ x. refl)

    credit-run : credit env req after_debit ≡ (ok tt, after_credit)
    unfolding credit
    credit-run =
        let made =
          update_accounts-run (by_id req.to_account) (credit_row req.amount) w.now after_debit.db (
            All-update _ (λ y. by_id req.to_account y ≡ true → IsBalance (y.balance +ℤ req.amount))
              (is_covered req.from_account req.amount) (debit_row req.amount) w.db.accounts
              credit_row-IsBalance (All-both _ _ w.db.accounts r.balances r.room)) in
        let some_row = count_rows-exists (by_id req.to_account) (debited w.db.accounts) (
          exists_row-update (by_id req.to_account) (is_covered req.from_account req.amount)
            (debit_row req.amount) w.db.accounts (λ x. refl)
          ∙ select-exists (by_id req.to_account) w.db.accounts r.to_row r.to_found) in
        then_do _ _ after_debit (in_tx-calm after_debit calm _ made) (ground arith)

    from_known : exists_row (by_id req.from_account) (credited w.db.accounts) ≡ true
    from_known = known req.from_account ∙ select-exists _ w.db.accounts r.from_row r.from_found

    to_known : exists_row (by_id req.to_account) (credited w.db.accounts) ≡ true
    to_known = known req.to_account ∙ select-exists _ w.db.accounts r.to_row r.to_found

    pub is_open : IsOpen env req req.idempotency_key w.drawn after_credit
    unfolding transfer_key
    is_open = record {
      calm = calm;
      named = let k = r.keyed in ground arith;
      positive = r.valid.positive;
      short = let c = r.valid.code in let fits = count-len req.currency in omega arith;
      distinct = r.valid.distinct;
      from_known = from_known;
      to_known = to_known;
      fresh_transfer = r.fresh_transfer;
      fresh_event = r.fresh_event;
      text = r.text;
    }

    abbrev pub new_row : Transfer
    new_row = journal_row env req req.idempotency_key w.drawn after_credit is_open

    abbrev pub after_event : World
    after_event = with_event env req req.idempotency_key w.drawn after_credit is_open

    journal_of_ready : insert_transfer_and_postings env req after_credit ≡ (ok new_row, after_event)
    journal_of_ready = journal-run env req req.idempotency_key w.drawn after_credit is_open

    currencies-run :
        select_currencies req.from_account req.to_account w.now w.db
        ≡ ok (some (r.from_row.currency, r.to_row.currency), w.db)
    unfolding select_currencies
    currencies-run = let a = r.from_found in let b = r.to_found in ground arith

    -- A debit by any strategy that leaves the tables of `after_debit`.
    pub exec_with-run :
        (debit : DebitFn)
        → debit req.from_account req.amount w ≡ (ok tt, after_debit)
        → exec_tx_with_debit env debit req w ≡ (ok new_row, after_event)
    unfolding exec_tx_with_debit
    exec_with-run debit runs =
        let a = r.from_currency in
        let b = r.to_currency in
        then_do _ _ w (in_tx-calm w calm _ currencies-run) (
          then_do _ _ w refl (
            then_do _ _ w
              (ground (
                arith,
                eq_iff r.from_row.currency req.currency,
                eq_iff r.to_row.currency req.currency,
              ))
              (then_do _ _ w runs (then_do _ _ after_debit credit-run journal_of_ready))))

    pub exec-run : exec_tx_with_debit env debit_conditional_update req w ≡ (ok new_row, after_event)
    exec-run = exec_with-run debit_conditional_update debit-run
