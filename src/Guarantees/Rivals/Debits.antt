-- ===== src/Guarantees/Rivals/Debits.antt =====
-- The UPDATE of ExecuteOptimistic, after other sessions have committed since its SELECT.
use idem_ledger.Base.{
  ℕ, ◌≡◌, ◌≢◌, refl, sym, subst, inl, inr, Bool-cases, Bool, true, false, ◌&&◌, some, List, [], ◌∷◌,
  arith, ◌==◌, All, All-map, select, update, count_rows,
}
use idem_ledger.Base.Int.{pos, ◌-ℤ◌, ◌≤ℤ◌, ltb_ℤ, int_laws}
use idem_ledger.Db.{Db, Account, ok}
use idem_ledger.Store.Accounts.{by_id}
use idem_ledger.Store.Accounts.Unique.{
  Below, exists_row-Below, update-absent, update-narrow, select_unique,
}
use idem_ledger.Outbox.Steps.{poll-Steps}
use idem_ledger.Ledger.Covers.{max_balance, IsBalance, update_accounts-run}
use idem_ledger.Ledger.Execute.{HasIds}
use idem_ledger.Ledger.Refusals.{count_rows-none, update-none}
use idem_ledger.Ledger.Optimistic.{execute_optimistic-Ended}
use idem_ledger.Ledger.Strategies.{has_version, debit_versioned_row, versioned_debit}
use idem_ledger.Ledger.{Env, Request}
use idem_ledger.Guarantees.Views.{All-select}
use idem_ledger.Guarantees.{
  Call, creates, sets_webhook, executes, executes_for_update, executes_optimistic, polls,
}
use idem_ledger.Guarantees.Effects.{
  EffectBy, Call-Effect, Ended-Effect, create_account-Effect, set_webhook_url-Effect, between,
}
use idem_ledger.Guarantees.Sound.{Effect-HasIds}
use idem_ledger.Guarantees.Rivals.{IsOptimistic, Rivals, alone, joined}
use idem_ledger.Guarantees.Rivals.Later.{Later, Later-refl, Later-trans, IsVersioned, Effect-Later}

Call-Later : (env : Env) {d d' : Db} (c : Call env d d') → IsOptimistic c → HasIds d → Later d d'
Call-Later env c o b = Effect-Later env (versioned c o b) b
  where
    versioned :
        {d d' : Db} (c : Call env d d') → IsOptimistic c → HasIds d → EffectBy env IsVersioned d d'
    versioned (creates name currency url w from there) o =
        between env IsVersioned w from there
          (λ _. create_account-Effect env IsVersioned name currency url w)
    versioned (sets_webhook id url w from there) o =
        between env IsVersioned w from there (λ _. set_webhook_url-Effect env IsVersioned id url w)
    versioned (executes req w from there) o = absurd o
    versioned (executes_for_update req w from there) o = absurd o
    versioned (executes_optimistic req w from there) o = between env IsVersioned w from there (λ b.
        Ended-Effect env IsVersioned _ req _ _ w.committed refl
          (execute_optimistic-Ended env req w b))
    versioned (polls m w from there) o =
        between env IsVersioned w from there (λ _. EffectBy.delivers (poll-Steps m w))

Rivals-Later : (env : Env) (d : Db) {d' : Db} → HasIds d → Rivals env d d' → HasIds d' × Later d d'
Rivals-Later env d b alone = (b, Later-refl d)
Rivals-Later env d b (joined {e = e} {f = f} r c o) =
    let (b', l) = Rivals-Later env d b r in
    (Effect-HasIds (Call-Effect env c b') b', Later-trans d e f l (Call-Later env c o b'))

count_rows-Below :
    (i n : ℕ) (q : Account → Bool) (rows : List Account) {a : Account}
    → Below n rows
    → select (by_id i) rows ≡ some a
    → q a ≡ true
    → count_rows (λ x. by_id i x && q x) rows ≡ 1
unfolding select count_rows
count_rows-Below i n q [] b h k = absurd (cc)
count_rows-Below i n q (x ∷ rows) {a} b h k = elim (Bool-cases (by_id i x)) [
  | inl hit ↦
      let none_left =
        update-absent i q (λ y. y) rows (exists_row-Below i x.id rows b.1 (ground arith)) in
      let same : x ≡ a = ground arith in ground (arith, none_left.2)
  | inr miss ↦
      let rest = count_rows-Below i x.id q rows {a = a} b.1 (ground arith) k in ground arith
]

-- What the UPDATE does to tables that hold the account in the version `row`.
pub record DebitsCovered (req : Request) (a : Account) (now : ℕ) (d : Db) : Type 0 where
  pub row : Account
  pub found : select (by_id req.from_account) d.accounts ≡ some row
  pub missed : row.version ≢ a.version → versioned_debit req a now d ≡ ok (0, d)
  pub covered : row.version ≡ a.version → req.amount ≤ℤ row.balance
  pub debited :
      row.version ≡ a.version
      → versioned_debit req a now d
        ≡ ok (
          1,
          record d {
            accounts = update (by_id req.from_account) (debit_versioned_row req.amount) d.accounts;
          },
        )

module _ (req : Request) (a b : Account) (now : ℕ) (d : Db) (ids : HasIds d)
    (sel : select (by_id req.from_account) d.accounts ≡ some b) where
  stale_row :
      (x : Account)
      → (by_id req.from_account x ≡ true → x ≡ b)
      → b.version ≢ a.version
      → has_version req.from_account a.version x ≡ false
  stale_row x same ne = elim (Bool-cases (by_id req.from_account x)) [
    | inl hit ↦ let it = same hit in ground arith
    | inr miss ↦ ground arith
  ]

  versioned_debit-missed : b.version ≢ a.version → versioned_debit req a now d ≡ ok (0, d)
  versioned_debit-missed ne =
      let one = select_unique req.from_account d.next_account d.accounts ids sel in
      let p = has_version req.from_account a.version in
      let f = debit_versioned_row req.amount in
      let fails : All (λ x. p x ≡ false) d.accounts =
        All-map d.accounts (λ x same. stale_row x same ne) one.0 in
      let idle = update-none p f d.accounts fails in
      let nothing = count_rows-none p d.accounts fails in
      let unwritten : All (λ x. p x ≡ true → IsBalance (f x).balance) d.accounts =
        All-map d.accounts (λ x no yes. absurd (cc)) fails in
      let run = update_accounts-run p f now d unwritten in ground arith

  versioned_debit-debited :
      b.version ≡ a.version
      → pos 1 ≤ℤ req.amount
      → req.amount ≤ℤ b.balance
      → b.balance ≤ℤ max_balance
      → versioned_debit req a now d
        ≡ ok (
          1,
          record d {
            accounts = update (by_id req.from_account) (debit_versioned_row req.amount) d.accounts;
          },
        )
  versioned_debit-debited same positive covered small =
      let one = select_unique req.from_account d.next_account d.accounts ids sel in
      let p = has_version req.from_account a.version in
      let q : Account → Bool = λ x. x.version == a.version in
      let f = debit_versioned_row req.amount in
      let passes : q b ≡ true = ground arith in
      let count = count_rows-Below req.from_account d.next_account q d.accounts ids sel passes in
      let narrow =
        update-narrow req.from_account d.next_account q f d.accounts ids
          (λ e. absurd (ground arith)) in
      let left : IsBalance (b.balance -ℤ req.amount) = omega int_laws in
      let run = update_accounts-run p f now d (
        All-map d.accounts
          (λ x same yes.
            subst (λ (r : Account). IsBalance (r.balance -ℤ req.amount)) (sym (same (ground arith)))
              left)
          one.0) in
      ground arith

-- From tables with ascending account ids, `ExecuteOptimistic` reads the account `a`, finds that it covers
-- the positive amount, and then other sessions commit any calls but `Execute` and `ExecuteWithForUpdate`,
-- with any answers of the server, in tables whose balances are in their range. Its UPDATE finds the account
-- again. If the version differs it writes nothing and counts no row, which is a retry. If the version is the
-- same, the present balance still covers the amount, and the UPDATE debits that one row. It never overdraws.
pub versioned_debit-DebitsCovered :
    (env : Env) (req : Request) (a : Account) (now : ℕ) (d d' : Db)
    → HasIds d
    → pos 1 ≤ℤ req.amount
    → select (by_id req.from_account) d.accounts ≡ some a
    → ltb_ℤ a.balance req.amount ≡ false
    → Rivals env d d'
    → All (λ x. IsBalance x.balance) d'.accounts
    → DebitsCovered req a now d'
versioned_debit-DebitsCovered env req a now d d' ids positive sel enough rivals fit =
    let (ids', later) = Rivals-Later env d ids rivals in
    let x = later req.from_account a sel in
    let kept = x.later.balance in
    let covered : x.row.version ≡ a.version → req.amount ≤ℤ x.row.balance =
      λ same. let no_less = kept same in ground arith in
    let small =
      (All-select (λ r. IsBalance r.balance) (by_id req.from_account) d'.accounts x.row
        (All-map d'.accounts (λ r in_range hit. in_range) fit) x.found).1 in
    record {
      row = x.row;
      found = x.found;
      missed = versioned_debit-missed req a x.row now d' ids' x.found;
      covered = covered;
      debited = λ same.
          versioned_debit-debited req a x.row now d' ids' x.found same positive (covered same)
            small;
    }
