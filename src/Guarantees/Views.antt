-- ===== src/Guarantees/Views.antt =====
-- The rows that a view of the tables shows, before and after an UPDATE.
use idem_ledger.Base.{
  ℕ, ◌≡◌, refl, subst, inl, inr, String, Bool, true, false, Option, none, some, List, [], ◌∷◌,
  arith, All, str_eq, eq_iff, ◌==◌, if◌then◌else◌, select, exists_row, update, Bool-cases,
}
use idem_ledger.Base.Int.{ℤ}
use idem_ledger.Db.{Account, KeyRow}
use idem_ledger.Store.Accounts.{by_id}
use idem_ledger.Idempotency.{has_key, is_stealable, stolen_row}
use idem_ledger.Idempotency.Claims.{TakesKey}
use idem_ledger.Guarantees.Contract.{balance_of, answered_by}

pub select-none :
    {A : Type 0} (p : A → Bool) (rows : List A) → exists_row p rows ≡ false → select p rows ≡ none
unfolding select exists_row
select-none p [] h = refl
select-none p (x ∷ rows) h = ground (arith, select-none p rows)

pub exists-select :
    {A : Type 0} (p : A → Bool) (rows : List A)
    → exists_row p rows ≡ true
    → (a : A) × (select p rows ≡ some a)
unfolding select exists_row
exists-select p [] h = absurd (cc)
exists-select p (x ∷ rows) h = elim (Bool-cases (p x)) [
  | inl e ↦ (x, rw e)
  | inr e ↦ rw e (exists-select p rows (ground arith))
]

pub All-select :
    {A : Type 0} (P : A → Type 0) (p : A → Bool) (rows : List A) (a : A)
    → All (λ x. p x ≡ true → P x) rows
    → select p rows ≡ some a
    → P a
unfolding select
All-select P p [] a h e = absurd (cc)
All-select P p (x ∷ rows) a h e = elim (Bool-cases (p x)) [
  | inl hit ↦ let same : x ≡ a = ground arith in subst P same (h.0 hit)
  | inr miss ↦ All-select P p rows a h.1 (ground arith)
]

abbrev pub balance_after : (ℤ → ℤ) → Option ℤ → Option ℤ
balance_after g none = none
balance_after g (some b) = some (g b)

-- An UPDATE by id changes the balance of that row only.
pub balance-update :
    (i j : ℕ) (f : Account → Account) (g : ℤ → ℤ) (rows : List Account)
    → ((a : Account) → ((f a).id ≡ a.id) × ((f a).balance ≡ g a.balance))
    → balance_of (select (by_id j) (update (by_id i) f rows)) ≡ (
        if i == j
        then balance_after g (balance_of (select (by_id j) rows))
        else balance_of (select (by_id j) rows))
unfolding select update
balance-update i j f g [] h = ground arith
balance-update i j f g (a ∷ rows) h = ground (arith, h a, balance-update i j f g rows h)

-- An UPDATE of rows with one key leaves the others alone.
pub answered-update :
    (key j : String) (q : KeyRow → Bool) (g : KeyRow → KeyRow) (ks : List KeyRow)
    → str_eq key j ≡ false
    → ((k : KeyRow) → q k ≡ true → str_eq k.key key ≡ true)
    → ((k : KeyRow) → (g k).key ≡ k.key)
    → answered_by (select (has_key j) (update q g ks)) ≡ answered_by (select (has_key j) ks)
unfolding select update
answered-update key j q g [] ne only same = refl
answered-update key j q g (k ∷ ks) ne only same =
    let rest = answered-update key j q g ks ne only same in
    elim (Bool-cases (q k)) [
      | inl e ↦
          let hit = only k e in
          ground (arith, same k, eq_iff k.key key, eq_iff k.key j, eq_iff key j)
      | inr e ↦ ground arith
    ]

pub answered-taken :
    (key hash j : String) (now : ℕ) (ks ks' : List KeyRow)
    → TakesKey key hash now ks ks'
    → (answered_by (select (has_key key) ks) ≡ false)
      × (str_eq key j ≡ false
          → answered_by (select (has_key j) ks') ≡ answered_by (select (has_key j) ks))
unfolding select
answered-taken key hash j now ks ks' (inl (none_yet, e)) =
    (rw (select-none (has_key key) ks none_yet), λ ne. rw e (ground arith))
answered-taken key hash j now ks ks' (inr (r, sel, st, same, e)) = (
  ground arith,
  λ ne. rw e (
      answered-update key j (is_stealable key now) (stolen_row hash now) ks ne (λ k h. ground arith)
        (λ k. refl)),
)

pub balance_kept : (b : Bool) (o : Option ℤ) → (if b then balance_after (λ x. x) o else o) ≡ o
balance_kept b o = ground arith
