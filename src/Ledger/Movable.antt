-- ===== src/Ledger/Movable.antt =====
-- The statements of ExecuteOptimistic (internal/ledger/strategies.go), where the transfer can be made and the
-- calls are answered.
use idem_ledger.Base.{
  ℕ, ◌+◌, ◌≡◌, ◌≢◌, refl, ◌∙◌, sym, subst, ap, inl, inr, Bool-cases, Bool, true, false, ◌||◌, ◌==◌,
  str_eq, String, some, List, [], arith, All, All-map, select, exists_row, update, count_rows,
  if◌then◌else◌, count-len,
}
use idem_ledger.Base.Int.{◌+ℤ◌, ◌≤ℤ◌, int_laws}
use idem_ledger.Db.{Db, Account, Transfer, ok, account_not_found}
use idem_ledger.Server.{World}
use idem_ledger.Server.Fine.{then_do, in_tx-calm, map_error-run}
use idem_ledger.Store.Accounts.{by_id, or_raise, select_account}
use idem_ledger.Store.Accounts.Unique.{select_unique}
use idem_ledger.Store.Outbox.{event_by_id}
use idem_ledger.Ledger.Execute.{HasIds}
use idem_ledger.Ledger.Covers.{
  IsBalance, max_balance, count_rows-exists, select-exists_and, select-exists, exists_row-update,
  All-update, update_accounts-run, debit_row-IsBalance,
}
use idem_ledger.Ledger.Rows.{credit_row, update_accounts}
use idem_ledger.Ledger.Strategies.{
  has_version, debit_versioned_row, versioned_debit, optimistic_update, optimistic_transfer,
}
use idem_ledger.Ledger.{Env, Request, is_keyed, transfer_key}
use idem_ledger.Ledger.Ready.{IsValid, All-both}
use idem_ledger.Ledger.Journal.{IsOpen, journal_row, with_event, journal-run}

-- A valid request without a key, from an account that covers the amount to one that has room for it,
-- where the identifiers that will be drawn are new. Nothing is said of the currencies of the accounts.
pub record IsMovable (env : Env) (req : Request) (drawn : ℕ) (d : Db) : Type 0 where
  pub valid : IsValid req
  pub unkeyed : is_keyed req ≡ false
  pub from_row : Account
  pub to_row : Account
  pub from_found : select (by_id req.from_account) d.accounts ≡ some from_row
  pub to_found : select (by_id req.to_account) d.accounts ≡ some to_row
  pub covered : req.amount ≤ℤ from_row.balance
  pub balances : All (λ x. IsBalance x.balance) d.accounts
  pub room :
      All (λ x. by_id req.to_account x ≡ true → x.balance +ℤ req.amount ≤ℤ max_balance) d.accounts
  pub fresh_transfer :
      exists_row
        (λ u.
          u.id == env.uuid (drawn + 1) || str_eq u.idempotency_key (env.uuid_text (env.uuid drawn)))
        d.transfers
      ≡ false
  pub fresh_event : exists_row (event_by_id (env.uuid (drawn + 1 + 1))) d.outbox ≡ false
  pub text : (t : Transfer) → (body : String) × (env.marshal t ≡ some body)

module _ (env : Env) (req : Request) where
  module _ (w : World) (calm : w.tape ≡ []) (b : HasIds w.db)
      (r : IsMovable env req w.drawn w.db) where
    abbrev pub meets : Account → Bool
    meets = has_version req.from_account r.from_row.version

    abbrev pub debited : List Account
    debited = update meets (debit_versioned_row req.amount) w.db.accounts

    abbrev pub credited : List Account
    credited = update (by_id req.to_account) (credit_row req.amount) debited

    abbrev pub after_debit : World
    after_debit = record w { db = record w.db { accounts = debited } }

    abbrev pub after_credit : World
    after_credit = record w { db = record w.db { accounts = credited } }

    debit-run :
        versioned_debit req r.from_row w.now w.db
        ≡ ok (count_rows meets w.db.accounts, after_debit.db)
    debit-run =
        let (only, known) =
          select_unique req.from_account w.db.next_account w.db.accounts b r.from_found in
        update_accounts-run meets (debit_versioned_row req.amount) w.now w.db (
          All-map w.db.accounts
            (λ x (fits, same) hit.
              debit_row-IsBalance req.amount x.balance r.valid.positive
                (subst (λ (a : Account). req.amount ≤ℤ a.balance) (sym (same (ground arith)))
                  r.covered)
                fits)
            (All-both _ _ w.db.accounts r.balances only))

    met : count_rows meets w.db.accounts ≢ 0
    met = count_rows-exists meets w.db.accounts (
        select-exists_and (by_id req.from_account) (λ x. x.version == r.from_row.version)
          w.db.accounts r.from_row r.from_found (ground arith))

    credit_row-IsBalance :
        (x : Account)
        → IsBalance x.balance
          × (by_id req.to_account x ≡ true → x.balance +ℤ req.amount ≤ℤ max_balance)
        → let y = if meets x then debit_versioned_row req.amount x else x in
          by_id req.to_account y ≡ true → IsBalance (y.balance +ℤ req.amount)
    credit_row-IsBalance x (fits, room) =
        let p = r.valid.positive in
        let ne = r.valid.distinct in
        elim (Bool-cases (meets x)) [
          | inl e ↦ rw e (λ hit. absurd (ground arith))
          | inr e ↦ rw e (λ hit. let k = room hit in omega int_laws)
        ]

    credit-run :
        update_accounts (by_id req.to_account) (credit_row req.amount) w.now after_debit.db
        ≡ ok (count_rows (by_id req.to_account) debited, after_credit.db)
    credit-run =
        update_accounts-run (by_id req.to_account) (credit_row req.amount) w.now after_debit.db (
          All-update _ (λ y. by_id req.to_account y ≡ true → IsBalance (y.balance +ℤ req.amount))
            meets (debit_versioned_row req.amount) w.db.accounts credit_row-IsBalance
            (All-both _ _ w.db.accounts r.balances r.room))

    paid : count_rows (by_id req.to_account) debited ≢ 0
    paid = count_rows-exists (by_id req.to_account) debited (
        exists_row-update (by_id req.to_account) meets (debit_versioned_row req.amount)
          w.db.accounts (λ x. refl)
        ∙ select-exists (by_id req.to_account) w.db.accounts r.to_row r.to_found)

    known : (id : ℕ) → exists_row (by_id id) credited ≡ exists_row (by_id id) w.db.accounts
    known id =
        exists_row-update (by_id id) (by_id req.to_account) (credit_row req.amount) debited
          (λ x. refl)
        ∙ exists_row-update (by_id id) meets (debit_versioned_row req.amount) w.db.accounts
            (λ x. refl)

    abbrev pub new_key : String
    new_key = env.uuid_text (env.uuid w.drawn)

    pub is_open : IsOpen env req new_key (w.drawn + 1) after_credit
    unfolding transfer_key
    is_open = record {
      calm = calm;
      named = let k = r.unkeyed in ground arith;
      positive = r.valid.positive;
      short = let c = r.valid.code in let fits = count-len req.currency in omega arith;
      distinct = r.valid.distinct;
      from_known = known req.from_account ∙ select-exists _ w.db.accounts r.from_row r.from_found;
      to_known = known req.to_account ∙ select-exists _ w.db.accounts r.to_row r.to_found;
      fresh_transfer = r.fresh_transfer;
      fresh_event = r.fresh_event;
      text = r.text;
    }

    abbrev pub new_row : Transfer
    new_row = journal_row env req new_key (w.drawn + 1) after_credit is_open

    abbrev pub after_event : World
    after_event = with_event env req new_key (w.drawn + 1) after_credit is_open

    update-run : optimistic_update env req r.from_row w ≡ (ok new_row, after_event)
    unfolding optimistic_update
    update-run =
        let m = met in
        let n = paid in
        then_do _ _ w (map_error-run _ _ w (in_tx-calm w calm _ debit-run)) (
          then_do _ _ after_debit (ground arith) (
            then_do _ _ after_debit
              (map_error-run _ _ after_debit (in_tx-calm after_debit calm _ credit-run))
              (then_do _ _ after_credit (ground arith)
                (journal-run env req new_key (w.drawn + 1) after_credit is_open))))

    pub transfer-run : optimistic_transfer env req w ≡ (ok new_row, after_event)
    unfolding optimistic_transfer select_account
    transfer-run =
        let c = r.covered in
        then_do _ _ w (in_tx-calm w calm (select_account req.from_account) refl) (
          then_do _ _ w (ap (λ row. or_raise row account_not_found w) r.from_found)
            (then_do _ _ w (ground arith) update-run))
