-- ===== src/Ledger/Debit/Covered.antt =====
-- Fix A and Fix B debit alike: if the debit succeeds, the account was covered and is debited.
use idem_ledger.Base.{
  ℕ, ◌≡◌, ◌≢◌, ◌∙◌, subst, sym, refl, Bool, true, false, some, arith, ◌==◌, All, All-map, select,
  exists_row, update, if◌then◌else◌,
}
use idem_ledger.Base.Int.{ℤ, ◌≤ℤ◌, leb_ℤ}
use idem_ledger.Db.{Account, ok}
use idem_ledger.Server.{World, pure}
use idem_ledger.Server.Laws.{>>=-elim, in_tx-Ran}
use idem_ledger.Store.Accounts.{by_id, select_account}
use idem_ledger.Store.Accounts.Unique.{Below, update-narrow, select_unique}
use idem_ledger.Ledger.Rows.{debit_row, update_accounts}
use idem_ledger.Ledger.Rows.Success.{update_accounts-eq-ok}
use idem_ledger.Ledger.Debit.{
  DebitFn, is_covered, why_not_debited, debit_conditional_update, debit_select_for_update,
}

-- The row `from` is there and covers the amount, and is written as `f` says; nothing else changes.
pub record Debited (f : Account → Account) (from : ℕ) (amount : ℤ) (w w' : World) : Type 0 where
  pub covered : All (λ x. by_id from x ≡ true → amount ≤ℤ x.balance) w.db.accounts
  pub found : exists_row (by_id from) w.db.accounts ≡ true
  pub db : w'.db ≡ record w.db { accounts = update (by_id from) f w.db.accounts }
  pub committed : w'.committed ≡ w.committed
  pub now : w'.now ≡ w.now

leb_ℤ→≤ℤ : (a b : ℤ) → leb_ℤ a b ≡ true → a ≤ℤ b
leb_ℤ→≤ℤ a b h = ground arith

-- A strategy whose success is a debit of a covered account, where the ids are distinct.
abbrev pub IsDebit : DebitFn → Type 0
IsDebit debit =
    (from : ℕ) (amount : ℤ) (n : ℕ) (w : World) (u : Unit {0}) (w' : World)
    → Below n w.db.accounts
    → debit from amount w ≡ (ok u, w')
    → Debited (debit_row amount) from amount w w'

why_not_debited-ne-ok :
    (from : ℕ) (w : World) {u : Unit {0}} {w' : World} → ¬ (why_not_debited from w ≡ (ok u, w'))
unfolding why_not_debited
why_not_debited-ne-ok from w h = >>=-elim _ _ w h λ known v e k. ground arith

debit_branch :
    (from : ℕ) (b : Bool) (v : World) {u : Unit {0}} {w' : World}
    → (if b then why_not_debited from else pure tt) v ≡ (ok u, w')
    → (b ≡ false) × (w' ≡ v)
debit_branch from true v h = absurd (why_not_debited-ne-ok from v h)
debit_branch from false v h = (refl, ground arith)

pub debit_conditional_update-IsDebit : IsDebit debit_conditional_update
unfolding debit_conditional_update
debit_conditional_update-IsDebit from amount n w u w' b h = >>=-elim _ _ w h λ rows v e k.
    let x = in_tx-Ran (update_accounts (is_covered from amount) (debit_row amount)) w e in
    let s = update_accounts-eq-ok (is_covered from amount) (debit_row amount) w.now w.db x.effect in
    let some_row = debit_branch from (rows == 0) v k in
    let met : rows ≢ 0 = ground arith in
    let one =
      update-narrow from n (λ a. leb_ℤ amount a.balance) (debit_row amount) w.db.accounts b
        (λ z. met (s.0 ∙ z)) in
    record {
      covered = All-map w.db.accounts (λ y p q. leb_ℤ→≤ℤ amount y.balance (p q)) one.1;
      found = one.2;
      db = ground arith;
      committed = ground arith;
      now = ground arith;
    }

pub debit_select_for_update-IsDebit : IsDebit debit_select_for_update
unfolding debit_select_for_update select_account
debit_select_for_update-IsDebit from amount n w u w' b h = >>=-elim _ _ w h λ row v1 e1 h1.
    >>=-elim _ _ v1 h1 λ a v2 e2 h2. >>=-elim _ _ v2 h2 λ u1 v3 e3 h3.
      >>=-elim _ _ v3 h3 λ m v4 e4 h4.
        let x = in_tx-Ran (select_account from) w e1 in
        let y = in_tx-Ran (update_accounts (by_id from) (debit_row amount)) v3 e4 in
        let s = update_accounts-eq-ok (by_id from) (debit_row amount) v3.now v3.db y.effect in
        let sel : select (by_id from) w.db.accounts ≡ some a = ground arith in
        let enough : amount ≤ℤ a.balance = ground arith in
        let one = select_unique from n w.db.accounts b sel in
        record {
          covered =
              All-map w.db.accounts
                (λ y p q. subst (λ (r : Account). amount ≤ℤ r.balance) (sym (p q)) enough) one.0;
          found = one.1;
          db = ground arith;
          committed = ground arith;
          now = ground arith;
        }
