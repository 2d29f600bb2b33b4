-- ===== src/Store/Accounts/Unique.antt =====
-- Account ids are distinct: the identity column hands them out in ascending order. So a WHERE clause
-- on the id meets one row, and a further condition that meets any row meets that one.
use idem_ledger.Base.{
  ℕ, ◌≤◌, ◌<◌, ◌≡◌, ◌≢◌, refl, inl, inr, Bool-cases, Bool, true, false, ◌&&◌, some, List, [], ◌∷◌,
  arith, All, select, exists_row, update, count_rows,
}
use idem_ledger.Db.{Account}
use idem_ledger.Store.Accounts.{by_id}

-- Ids fall along the list and stay below the next one.
abbrev pub Below : ℕ → List Account → Type 0
Below n [] = Unit {0}
Below n (a ∷ as') = (a.id < n) × Below a.id as'

pub exists_row-Below :
    (i n : ℕ) (rows : List Account) → Below n rows → n ≤ i → exists_row (by_id i) rows ≡ false
unfolding exists_row
exists_row-Below i n [] b h = refl
exists_row-Below i n (a ∷ rows) b h = ground (arith, exists_row-Below i a.id rows b.1)

pub update-absent :
    (i : ℕ) (q : Account → Bool) (f : Account → Account) (rows : List Account)
    → exists_row (by_id i) rows ≡ false
    → (update (λ a. by_id i a && q a) f rows ≡ rows)
      × (update (by_id i) f rows ≡ rows)
      × (count_rows (λ a. by_id i a && q a) rows ≡ 0)
unfolding exists_row update count_rows
update-absent i q f [] h = (refl, refl, refl)
update-absent i q f (a ∷ rows) h = ground (arith, update-absent i q f rows)

All-absent :
    (P : Account → Type 0) (i : ℕ) (rows : List Account)
    → exists_row (by_id i) rows ≡ false
    → All (λ x. by_id i x ≡ true → P x) rows
unfolding exists_row
All-absent P i [] h = tt
All-absent P i (a ∷ rows) h = ((λ e. absurd (ground arith)), All-absent P i rows (ground arith))

-- An UPDATE with a further condition that meets a row is the UPDATE by id.
pub update-narrow :
    (i n : ℕ) (q : Account → Bool) (f : Account → Account) (rows : List Account)
    → Below n rows
    → count_rows (λ a. by_id i a && q a) rows ≢ 0
    → (update (λ a. by_id i a && q a) f rows ≡ update (by_id i) f rows)
      × All (λ x. by_id i x ≡ true → q x ≡ true) rows
      × (exists_row (by_id i) rows ≡ true)
unfolding exists_row update count_rows
update-narrow i n q f [] b h = absurd (h refl)
update-narrow i n q f (a ∷ rows) b h = elim (Bool-cases (by_id i a)) [
  | inl hit ↦
      let absent = exists_row-Below i a.id rows b.1 (ground arith) in
      let same = update-absent i q f rows absent in
      let passes : q a ≡ true = ground arith in
      (ground arith, ((λ e. passes), All-absent (λ x. q x ≡ true) i rows absent), ground arith)
  | inr miss ↦
      let rest = update-narrow i a.id q f rows b.1 (ground arith) in
      (ground arith, ((λ e. absurd (cc)), rest.1), ground arith)
]

pub select_unique :
    (i n : ℕ) (rows : List Account) {a : Account}
    → Below n rows
    → select (by_id i) rows ≡ some a
    → All (λ x. by_id i x ≡ true → x ≡ a) rows × (exists_row (by_id i) rows ≡ true)
unfolding select exists_row
select_unique i n [] b h = absurd (cc)
select_unique i n (x ∷ rows) {a} b h = elim (Bool-cases (by_id i x)) [
  | inl hit ↦
      let absent = exists_row-Below i x.id rows b.1 (ground arith) in
      let same : x ≡ a = ground arith in
      (((λ e. same), All-absent (λ y. y ≡ a) i rows absent), ground arith)
  | inr miss ↦
      let rest = select_unique i x.id rows {a = a} b.1 (ground arith) in
      (((λ e. absurd (cc)), rest.0), ground arith)
]
