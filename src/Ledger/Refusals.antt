-- ===== src/Ledger/Refusals.antt =====
-- The statements of a transfer that cannot be made (execTxWithDebit of internal/ledger/transfer.go), in a session
-- whose calls are answered.
use idem_ledger.Base.{
  ℕ, ◌≡◌, ◌≢◌, ◌⊎◌, refl, ◌∙◌, ap, inl, inr, Bool-cases, Option-cases, Bool, true, false, eq_iff,
  none, some, List, [], ◌∷◌, arith, All, All-map, select, update, count_rows,
}
use idem_ledger.Base.Int.{ltb_ℤ}
use idem_ledger.Db.{Account, ok, err, account_not_found, currency_mismatch, insufficient_funds}
use idem_ledger.Server.{World}
use idem_ledger.Server.Fine.{then_do, >>=-stop, in_tx-calm}
use idem_ledger.Store.Accounts.{by_id}
use idem_ledger.Store.Accounts.Unique.{select_unique}
use idem_ledger.Ledger.Covers.{select-exists, update_accounts-run}
use idem_ledger.Ledger.Rows.{debit_row, select_currencies, update_accounts}
use idem_ledger.Ledger.Debit.{is_covered, account_exists, debit_conditional_update}
use idem_ledger.Ledger.Execute.{HasIds}
use idem_ledger.Ledger.{Env, Request, exec_tx_with_debit}

pub count_rows-none :
    {A : Type 0} (q : A → Bool) (rows : List A)
    → All (λ x. q x ≡ false) rows
    → count_rows q rows ≡ 0
unfolding count_rows
count_rows-none q [] h = refl
count_rows-none q (x ∷ rows) h = ground (arith, count_rows-none q rows h.1)

pub update-none :
    {A : Type 0} (q : A → Bool) (f : A → A) (rows : List A)
    → All (λ x. q x ≡ false) rows
    → update q f rows ≡ rows
unfolding update
update-none q f [] h = refl
update-none q f (x ∷ rows) h = ground (arith, update-none q f rows h.1)

module _ (env : Env) (req : Request) where
  module _ (w : World) (calm : w.tape ≡ []) where
    pub missing-run :
        (select (by_id req.from_account) w.db.accounts ≡ none)
          ⊎ (select (by_id req.to_account) w.db.accounts ≡ none)
        → exec_tx_with_debit env debit_conditional_update req w ≡ (err account_not_found, w)
    unfolding exec_tx_with_debit select_currencies
    missing-run gone =
        let read : select_currencies req.from_account req.to_account w.now w.db ≡ ok (none, w.db) =
          elim gone [
            | inl e ↦ ground arith
            | inr e ↦ elim (Option-cases (select (by_id req.from_account) w.db.accounts)) [
              | inl e' ↦ ground arith
              | inr (a, e') ↦ ground arith
            ]
          ] in
        then_do _ _ w (in_tx-calm w calm (select_currencies req.from_account req.to_account) read)
          (>>=-stop _ _ w refl)

    module _ (a b : Account) (from_found : select (by_id req.from_account) w.db.accounts ≡ some a)
        (to_found : select (by_id req.to_account) w.db.accounts ≡ some b) where
      read-run :
          select_currencies req.from_account req.to_account w.now w.db
          ≡ ok (some (a.currency, b.currency), w.db)
      unfolding select_currencies
      read-run = ground arith

      pub mismatch-run :
          (a.currency ≢ req.currency) ⊎ (b.currency ≢ req.currency)
          → exec_tx_with_debit env debit_conditional_update req w ≡ (err currency_mismatch, w)
      unfolding exec_tx_with_debit
      mismatch-run differ =
          then_do _ _ w
            (in_tx-calm w calm (select_currencies req.from_account req.to_account) read-run)
            (then_do _ _ w refl (
              >>=-stop _ _ w
                (ground (arith, eq_iff a.currency req.currency, eq_iff b.currency req.currency))))

      short-debit :
          HasIds w.db
          → ltb_ℤ a.balance req.amount ≡ true
          → debit_conditional_update req.from_account req.amount w ≡ (err insufficient_funds, w)
      unfolding debit_conditional_update account_exists
      short-debit ids short =
          let q = is_covered req.from_account req.amount in
          let only =
            (select_unique req.from_account w.db.next_account w.db.accounts {a = a} ids
              from_found).0 in
          let none_covered =
            All-map w.db.accounts
              (λ x (same : by_id req.from_account x ≡ true → x ≡ a). uncovered x same short) only in
          let made = update_accounts-run q (debit_row req.amount) w.now w.db (
            All-map w.db.accounts (λ x (no : q x ≡ false) (hit : q x ≡ true). absurd (cc))
              none_covered) in
          let zero_rows = count_rows-none q w.db.accounts none_covered in
          let unchanged = update-none q (debit_row req.amount) w.db.accounts none_covered in
          let there = select-exists (by_id req.from_account) w.db.accounts a from_found in
          let nothing : update_accounts q (debit_row req.amount) w.now w.db ≡ ok (0, w.db) =
            made
            ∙ ap (λ (x : ℕ × List Account). ok (x.0, record w.db { accounts = x.1 }))
                (rw (zero_rows, unchanged)) in
          then_do _ _ w (in_tx-calm w calm (update_accounts q (debit_row req.amount)) nothing) (
            then_do _ _ w
              (in_tx-calm w calm (account_exists req.from_account) {a = true} {d = w.db} (rw there))
              refl)
        where
          uncovered :
              (x : Account)
              → (by_id req.from_account x ≡ true → x ≡ a)
              → ltb_ℤ a.balance req.amount ≡ true
              → is_covered req.from_account req.amount x ≡ false
          uncovered x same short = elim (Bool-cases (by_id req.from_account x)) [
            | inl e ↦ let one = same e in ground arith
            | inr e ↦ ground arith
          ]

      pub short-run :
          HasIds w.db
          → a.currency ≡ req.currency
          → b.currency ≡ req.currency
          → ltb_ℤ a.balance req.amount ≡ true
          → exec_tx_with_debit env debit_conditional_update req w ≡ (err insufficient_funds, w)
      unfolding exec_tx_with_debit
      short-run ids from_same to_same short =
          then_do _ _ w
            (in_tx-calm w calm (select_currencies req.from_account req.to_account) read-run)
            (then_do _ _ w refl (
              then_do _ _ w
                (ground (arith, eq_iff a.currency req.currency, eq_iff b.currency req.currency))
                (>>=-stop _ _ w (short-debit ids short))))
