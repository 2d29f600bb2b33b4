-- ===== src/Ledger/Covers.antt =====
-- The tables in which a transfer can be made, and what its UPDATEs find in them.
use idem_ledger.Base.{
  ℕ, ◌-◌, ◌^◌, ◌≡◌, ◌≢◌, refl, inl, inr, Bool-cases, Bool, true, false, not, ◌&&◌, some, List, [],
  ◌∷◌, arith, All, All-map, select, exists_row, update, count_rows, if◌then◌else◌,
}
use idem_ledger.Base.Int.{ℤ, pos, ◌-ℤ◌, ◌≤ℤ◌, ltb_ℤ, int_laws}
use idem_ledger.Db.{Db, Account, ok}
use idem_ledger.Ledger.Rows.{fits_bigint, update_accounts}

abbrev pub max_balance : ℤ
max_balance = pos (2 ^ 63 - 1)

-- A balance that the table may hold.
abbrev pub IsBalance : ℤ → Type 0
IsBalance b = (pos 0 ≤ℤ b) × (b ≤ℤ max_balance)

pub exists_row-none :
    {A : Type 0} (q : A → Bool) (rows : List A)
    → All (λ x. q x ≡ false) rows
    → exists_row q rows ≡ false
unfolding exists_row
exists_row-none q [] h = refl
exists_row-none q (x ∷ rows) h = ground (arith, exists_row-none q rows h.1)

pub count_rows-exists :
    {A : Type 0} (q : A → Bool) (rows : List A) → exists_row q rows ≡ true → count_rows q rows ≢ 0
unfolding exists_row count_rows
count_rows-exists q [] h = absurd (cc)
count_rows-exists q (x ∷ rows) h = ground (arith, count_rows-exists q rows)

pub select-exists_and :
    {A : Type 0} (p q : A → Bool) (rows : List A) (a : A)
    → select p rows ≡ some a
    → q a ≡ true
    → exists_row (λ x. p x && q x) rows ≡ true
unfolding select exists_row
select-exists_and p q [] a h k = absurd (cc)
select-exists_and p q (x ∷ rows) a h k = elim (Bool-cases (p x)) [
  | inl e ↦ let same : x ≡ a = ground arith in ground arith
  | inr e ↦ let rest = select-exists_and p q rows a (ground arith) k in ground arith
]

pub select-exists :
    {A : Type 0} (p : A → Bool) (rows : List A) (a : A)
    → select p rows ≡ some a
    → exists_row p rows ≡ true
unfolding select exists_row
select-exists p [] a h = absurd (cc)
select-exists p (x ∷ rows) a h = ground (arith, select-exists p rows a)

pub exists_row-update :
    {A : Type 0} (p q : A → Bool) (f : A → A) (rows : List A)
    → ((x : A) → p (f x) ≡ p x)
    → exists_row p (update q f rows) ≡ exists_row p rows
unfolding exists_row update
exists_row-update p q f [] same = refl
exists_row-update p q f (x ∷ rows) same = ground (arith, same x, exists_row-update p q f rows same)

pub All-update :
    {A : Type 0} (P Q : A → Type 0) (q : A → Bool) (f : A → A) (rows : List A)
    → ((x : A) → P x → Q (if q x then f x else x))
    → All P rows
    → All Q (update q f rows)
unfolding update
All-update P Q q f [] keep h = tt
All-update P Q q f (x ∷ rows) keep h = (keep x h.0, All-update P Q q f rows keep h.1)

no_overflow : (b : Bool) (z : ℤ) → (b ≡ true → IsBalance z) → b && not (fits_bigint z) ≡ false
unfolding fits_bigint
no_overflow false z h = refl
no_overflow true z h = let fits = h refl in ground arith

not_negative : (b : Bool) (z : ℤ) → (b ≡ true → IsBalance z) → b && ltb_ℤ z (pos 0) ≡ false
not_negative false z h = refl
not_negative true z h = let fits = h refl in ground arith

-- An UPDATE that leaves every row that it writes with a balance is made.
pub update_accounts-run :
    (p : Account → Bool) (f : Account → Account) (now : ℕ) (d : Db)
    → All (λ x. p x ≡ true → IsBalance (f x).balance) d.accounts
    → update_accounts p f now d
      ≡ ok (count_rows p d.accounts, record d { accounts = update p f d.accounts })
unfolding update_accounts
update_accounts-run p f now d h =
    let fits =
      exists_row-none (λ a. p a && not (fits_bigint (f a).balance)) d.accounts
        (All-map d.accounts (λ x. no_overflow (p x) (f x).balance) h) in
    let positive =
      exists_row-none (λ a. p a && ltb_ℤ (f a).balance (pos 0)) d.accounts
        (All-map d.accounts (λ x. not_negative (p x) (f x).balance) h) in
    ground arith

-- The debit of a covered row leaves a balance.
pub debit_row-IsBalance :
    (amount b : ℤ) → pos 1 ≤ℤ amount → amount ≤ℤ b → IsBalance b → IsBalance (b -ℤ amount)
debit_row-IsBalance amount b p c h = omega int_laws
