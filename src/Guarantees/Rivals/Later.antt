-- ===== src/Guarantees/Rivals/Later.antt =====
-- What rivals that move the version on can have done to an account.
use idem_ledger.Base.{
  ℕ, ◌+◌, ◌≤◌, ◌≡◌, refl, subst, inl, inr, arith, String, Option, Bool, some, List, [], ◌∷◌, ◌==◌,
  if◌then◌else◌, select, update, Bool-cases,
}
use idem_ledger.Base.Int.{ℤ, pos, ◌≤ℤ◌, int_laws}
use idem_ledger.Db.{Db, Account, Transfer}
use idem_ledger.Store.Accounts.{by_id, account_row, webhook_row}
use idem_ledger.Store.Accounts.Unique.{Below, exists_row-Below}
use idem_ledger.Outbox.Steps.{Step, claims, delivers, buries, fails, Steps, here, then_step}
use idem_ledger.Ledger.Rows.{credit_row}
use idem_ledger.Ledger.Attempt.{Commits}
use idem_ledger.Ledger.Strategies.{debit_versioned_row}
use idem_ledger.Ledger.{Env, Request}
use idem_ledger.Guarantees.Effects.{EffectBy}
use idem_ledger.Guarantees.Views.{select-none}

-- The version may have risen. If it has not, the balance has not fallen.
pub record LaterRow (a b : Account) : Type 0 where
  pub version : a.version ≤ b.version
  pub balance : b.version ≡ a.version → a.balance ≤ℤ b.balance

pub record Found (i : ℕ) (d : Db) (a : Account) : Type 0 where
  pub row : Account
  pub found : select (by_id i) d.accounts ≡ some row
  pub later : LaterRow a row

abbrev pub Later : Db → Db → Type 0
Later d d' = (i : ℕ) (a : Account) → select (by_id i) d.accounts ≡ some a → Found i d' a

pub Later-refl : (d : Db) → Later d d
Later-refl d i a h = record {
  row = a;
  found = h;
  later = record { version = omega arith; balance = λ e. omega arith };
}

pub Later-trans : (d e f : Db) → Later d e → Later e f → Later d f
Later-trans d e f p q i a h =
    let x = p i a h in
    let y = q i x.row x.found in
    record { row = y.row; found = y.found; later = LaterRow-trans a x.row y.row x.later y.later }
  where
    LaterRow-trans : (a b c : Account) → LaterRow a b → LaterRow b c → LaterRow a c
    LaterRow-trans a b c p q = record {
      version = omega (arith, p.version, q.version);
      balance = λ e.
          let v = p.version in
          let v' = q.version in
          let low = p.balance (omega arith) in let high = q.balance (omega arith) in omega arith;
    }

pub select-update :
    (i : ℕ) (p : Account → Bool) (f : Account → Account) (rows : List Account) {a : Account}
    → ((x : Account) → (f x).id ≡ x.id)
    → select (by_id i) rows ≡ some a
    → select (by_id i) (update p f rows) ≡ some (if p a then f a else a)
unfolding select update
select-update i p f [] same h = absurd (cc)
select-update i p f (x ∷ rows) {a} same h =
    ground (arith, same x, select-update i p f rows {a = a} same)

-- One row under the two UPDATEs of an optimistic transfer.
moved_row-LaterRow :
    (req : Request) (a : Account)
    → pos 1 ≤ℤ req.amount
    → let b = if by_id req.from_account a then debit_versioned_row req.amount a else a in
      LaterRow a (if by_id req.to_account b then credit_row req.amount b else b)
moved_row-LaterRow req a positive = elim (Bool-cases (by_id req.from_account a)) [
  | inl e ↦ rw e (elim (Bool-cases (by_id req.to_account a)) [
    | inl e' ↦ rw e' (record { version = omega arith; balance = λ v. absurd (omega arith) })
    | inr e' ↦ rw e' (record { version = omega arith; balance = λ v. absurd (omega arith) })
  ])
  | inr e ↦ rw e (elim (Bool-cases (by_id req.to_account a)) [
    | inl e' ↦ rw e' (record { version = omega arith; balance = λ v. omega int_laws })
    | inr e' ↦ rw e' (record { version = omega arith; balance = λ v. omega arith })
  ])
]

Commits-Later :
    (env : Env) (req : Request) (t : Transfer) (d d' : Db)
    → Commits env debit_versioned_row req t d d'
    → Later d d'
Commits-Later env req t d d' c i a h =
    let p = c.posted in
    let accounts = p.accounts in
    let first =
      select-update i (by_id req.from_account) (debit_versioned_row req.amount) d.accounts
        (λ x. refl) h in
    let both = select-update i (by_id req.to_account) (credit_row req.amount) _ (λ x. refl) first in
    record { row = _; found = rw accounts both; later = moved_row-LaterRow req a p.positive }

opened-Later :
    (name currency : String) (url : Option String) (now : ℕ) (d : Db)
    → Below d.next_account d.accounts
    → Later d (record d {
      accounts = account_row d.next_account name currency url now ∷ d.accounts;
      next_account = d.next_account + 1;
    })
unfolding select
opened-Later name currency url now d b i a h = elim (Bool-cases (d.next_account == i)) [
  | inl e ↦
      let absent = exists_row-Below i d.next_account d.accounts b (ground arith) in
      let none_found = select-none (by_id i) d.accounts absent in absurd (cc)
  | inr e ↦ record {
    row = a;
    found = rw e h;
    later = record { version = omega arith; balance = λ v. omega arith };
  }
]

pointed-Later :
    (id : ℕ) (url : String) (d : Db)
    → Later d (record d { accounts = update (by_id id) (webhook_row url) d.accounts })
pointed-Later id url d i a h = record {
  row = if by_id id a then webhook_row url a else a;
  found = select-update i (by_id id) (webhook_row url) d.accounts (λ x. refl) h;
  later = elim (Bool-cases (by_id id a)) [
    | inl e ↦ rw e (record { version = omega arith; balance = λ v. omega arith })
    | inr e ↦ rw e (record { version = omega arith; balance = λ v. omega arith })
  ];
}

-- Later reads the accounts only.
same_accounts-Later : (d e f : Db) → f.accounts ≡ e.accounts → Later d e → Later d f
same_accounts-Later d e f same l i a h =
    let x = l i a h in record { row = x.row; found = rw same x.found; later = x.later }

Steps-Later : (d : Db) {e : Db} → Steps d e → Later d e
Steps-Later d here = Later-refl d
Steps-Later d (then_step {e = e} r st) = step (Steps-Later d r) st
  where
    step : {f : Db} → Later d e → Step e f → Later d f
    step l (claims limit now) = same_accounts-Later d e _ refl l
    step l (delivers id now) = same_accounts-Later d e _ refl l
    step l (buries id reason now) = same_accounts-Later d e _ refl l
    step l (fails id reason jitter now) = same_accounts-Later d e _ refl l

abbrev pub IsVersioned : (ℤ → Account → Account) → Type 0
IsVersioned f = f ≡ debit_versioned_row

pub Effect-Later :
    (env : Env) {d d' : Db}
    → EffectBy env IsVersioned d d'
    → Below d.next_account d.accounts
    → Later d d'
Effect-Later env {d} EffectBy.nothing b = Later-refl d
Effect-Later env {d} (EffectBy.opens name currency url now) b =
    opened-Later name currency url now d b
Effect-Later env {d} (EffectBy.points id url) b = pointed-Later id url d
Effect-Later env {d} {d'} (EffectBy.transfers f req t versioned c) b =
    Commits-Later env req t d d' (subst (λ g. Commits env g req t d d') versioned c)
Effect-Later env {d} (EffectBy.delivers r) b = Steps-Later d r
