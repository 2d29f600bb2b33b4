-- ===== src/Guarantees/Rivals/Refused.antt =====
-- A debit that leaves the version alone, between the SELECT and the UPDATE of ExecuteOptimistic.
use idem_ledger.Base.{
  ℕ, ◌≡◌, refl, sym, subst, inl, inr, Bool-cases, Bool, true, false, not, ◌&&◌, ◌^◌, ◌-◌, ◌+◌, ◌<◌,
  some, List, [], ◌∷◌, arith, All-map, select, exists_row,
}
use idem_ledger.Base.Int.{ℤ, pos, pos_part, neg_part, negsuc, ◌-ℤ◌, ◌≤ℤ◌, ltb_ℤ, int_laws}
use idem_ledger.Db.{Db, Account, Transfer, err, pg, check}
use idem_ledger.Store.Accounts.{by_id}
use idem_ledger.Store.Accounts.Unique.{select_unique}
use idem_ledger.Ledger.Covers.{IsBalance, exists_row-none}
use idem_ledger.Ledger.Rows.{fits_bigint, credit_row, debit_row, update_accounts}
use idem_ledger.Ledger.Attempt.{Commits}
use idem_ledger.Ledger.Execute.{HasIds}
use idem_ledger.Server.{World}
use idem_ledger.Server.Fine.{>>=-stop, map_error-stop, in_tx-calm_err}
use idem_ledger.Ledger.Strategies.{
  versioned_debit, optimistic_update, has_version, debit_versioned_row, versioned_debit,
}
use idem_ledger.Ledger.{Env, Request, again_if_conflict}
use idem_ledger.Ledger.Sound.{debit_row-IsDebitRow}
use idem_ledger.Guarantees.Views.{All-select}
use idem_ledger.Guarantees.Effects.{EffectBy}
use idem_ledger.Guarantees.Sound.{Effect-HasIds}
use idem_ledger.Guarantees.Rivals.Later.{select-update}

select-hit :
    (p : Account → Bool) (rows : List Account) {a : Account} → select p rows ≡ some a → p a ≡ true
unfolding select
select-hit p [] h = absurd (cc)
select-hit p (x ∷ rows) {a} h = elim (Bool-cases (p x)) [
  | inl e ↦ let same : x ≡ a = ground arith in ground arith
  | inr e ↦ select-hit p rows {a = a} (ground arith)
]

select-exists_if :
    (p q : Account → Bool) (rows : List Account) {a : Account}
    → select p rows ≡ some a
    → q a ≡ true
    → exists_row q rows ≡ true
unfolding select exists_row
select-exists_if p q [] h k = absurd (cc)
select-exists_if p q (x ∷ rows) {a} h k = elim (Bool-cases (p x)) [
  | inl e ↦ let same : x ≡ a = ground arith in ground arith
  | inr e ↦ let rest = select-exists_if p q rows {a = a} (ground arith) k in ground arith
]

-- The payer's row after a transfer that leaves the versions alone.
debited_row :
    (env : Env) (rival : Request) (t : Transfer) (d d' : Db) {a : Account}
    → select (by_id rival.from_account) d.accounts ≡ some a
    → Commits env debit_row rival t d d'
    → select (by_id rival.from_account) d'.accounts ≡ some (debit_row rival.amount a)
debited_row env rival t d d' {a} sel c =
    let p = c.posted in
    let accounts = p.accounts in
    let distinct = p.distinct in
    let hit = select-hit (by_id rival.from_account) d.accounts sel in
    let first =
      select-update rival.from_account (by_id rival.from_account) (debit_row rival.amount)
        d.accounts (λ x. refl) sel in
    let both =
      select-update rival.from_account (by_id rival.to_account) (credit_row rival.amount) _
        (λ x. refl) first in
    ground arith

ltb_ℤ→<ℤ : (x y : ℤ) → ltb_ℤ x y ≡ true → pos_part x + neg_part y < pos_part y + neg_part x
ltb_ℤ→<ℤ x y h = ground arith

ltb_ℤ→≤ℤ : (x y : ℤ) → ltb_ℤ x y ≡ false → y ≤ℤ x
ltb_ℤ→≤ℤ x y h = ground arith

-- Two amounts that a balance covers one at a time, but not together.
twice_short :
    (b x y : ℤ)
    → IsBalance b
    → x ≤ℤ b
    → ltb_ℤ b y ≡ false
    → ltb_ℤ (b -ℤ x) y ≡ true
    → (b -ℤ x -ℤ y ≤ℤ negsuc 0) × (negsuc (2 ^ 63 - 1) ≤ℤ b -ℤ x -ℤ y)
twice_short b x y fits covered enough short =
    let less = ltb_ℤ→<ℤ (b -ℤ x) y short in
    let more = ltb_ℤ→≤ℤ b y enough in (omega int_laws, omega int_laws)

guarded : (b : Bool) {c : Bool} → (b ≡ true → c ≡ false) → b && c ≡ false
guarded true h = h refl
guarded false h = refl

-- An UPDATE of one row that would leave a negative balance within BIGINT.
update_accounts-eq-err :
    (id : ℕ) (p : Account → Bool) (f : Account → Account) (now : ℕ) (d : Db) {b : Account}
    → HasIds d
    → select (by_id id) d.accounts ≡ some b
    → ((x : Account) → p x ≡ true → by_id id x ≡ true)
    → p b ≡ true
    → (f b).balance ≤ℤ negsuc 0
    → negsuc (2 ^ 63 - 1) ≤ℤ (f b).balance
    → update_accounts p f now d ≡ err (pg check)
unfolding update_accounts fits_bigint
update_accounts-eq-err id p f now d {b} ids sel only hit low high =
    let one = select_unique id d.next_account d.accounts ids sel in
    let fits_b : not (fits_bigint (f b).balance) ≡ false = ground arith in
    let fits : exists_row (λ x. p x && not (fits_bigint (f x).balance)) d.accounts ≡ false =
      exists_row-none (λ x. p x && not (fits_bigint (f x).balance)) d.accounts
        (All-map d.accounts
          (λ x same. guarded (p x) (λ e.
            subst (λ (y : Account). not (fits_bigint (f y).balance) ≡ false) (sym (same (only x e)))
              fits_b))
          one.0) in
    let negative =
      select-exists_if (by_id id) (λ x. p x && ltb_ℤ (f x).balance (pos 0)) d.accounts sel
        (ground arith) in
    ground arith

-- Between the SELECT and the UPDATE of `ExecuteOptimistic`, one call of `Execute` or `ExecuteWithForUpdate`
-- commits a transfer from the same account, so that the balance `a` that was read no longer covers the
-- amount. Such a transfer leaves the version alone, so the UPDATE meets the row and violates the CHECK on
-- the balance. Where the account ids ascend, the balance that was read is in its range and the server answers
-- every call, the attempt then ends with that error of the database, and not with the one that the loop retries.
pub optimistic_update-eq-err :
    (env : Env) (req rival : Request) (t : Transfer) (a : Account) (d : Db) (w : World)
    → HasIds d
    → select (by_id req.from_account) d.accounts ≡ some a
    → IsBalance a.balance
    → ltb_ℤ a.balance req.amount ≡ false
    → rival.from_account ≡ req.from_account
    → ltb_ℤ (a.balance -ℤ rival.amount) req.amount ≡ true
    → Commits env debit_row rival t d w.db
    → w.tape ≡ []
    → optimistic_update env req a w ≡ (err (pg check), w)
unfolding optimistic_update
optimistic_update-eq-err env req rival t a d w ids sel fits enough same short c calm =
    let p = c.posted in
    let ids' =
      Effect-HasIds {env = env} (EffectBy.transfers debit_row rival t debit_row-IsDebitRow c) ids in
    let sel' : select (by_id rival.from_account) d.accounts ≡ some a = rw same sel in
    let row : select (by_id req.from_account) w.db.accounts ≡ some (debit_row rival.amount a) =
      subst (λ i. select (by_id i) w.db.accounts ≡ some (debit_row rival.amount a)) same
        (debited_row env rival t d w.db sel' c) in
    let rival_covered : rival.amount ≤ℤ a.balance =
      All-select (λ x. rival.amount ≤ℤ x.balance) (by_id rival.from_account) d.accounts a p.covered
        sel' in
    let left = twice_short a.balance rival.amount req.amount fits rival_covered enough short in
    let hit = select-hit (by_id req.from_account) d.accounts sel in
    let refused =
      update_accounts-eq-err req.from_account (has_version req.from_account a.version)
        (debit_versioned_row req.amount) w.now w.db ids' row (λ x e. ground arith) (ground arith)
        left.0 left.1 in
    >>=-stop _ _ w
      (map_error-stop again_if_conflict _ w (in_tx-calm_err w calm (versioned_debit req a) refused))
