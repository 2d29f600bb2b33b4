-- ===== src/Ledger/Sound.antt =====
-- The invariant of the ledger, and that a posted transfer keeps it.
use idem_ledger.Base.{
  ℕ, ◌+◌, ◌<◌, ◌≤◌, ◌≡◌, ◌≢◌, refl, ◌⊎◌, inl, inr, Bool-cases, sym, subst, true, List, [], ◌∷◌,
  arith, All, All-map, exists_row, update, if◌then◌else◌,
}
use idem_ledger.Base.Int.{ℤ, pos, ◌+ℤ◌, ◌-ℤ◌, ◌≤ℤ◌, int_laws}
use idem_ledger.Db.{Db, Account, Posting, Transfer}
use idem_ledger.Store.Accounts.{by_id}
use idem_ledger.Store.Accounts.Unique.{Below, exists_row-Below}
use idem_ledger.Recon.{sum_all, sum_for}
use idem_ledger.Ledger.Rows.{credit_row, debit_row, posting_row}
use idem_ledger.Ledger.Posted.{Posted, moved}
use idem_ledger.Ledger.Strategies.{debit_versioned_row}
use idem_ledger.Ledger.{Env, Request}

-- `opening` is the balance that an account held before its first posting.
pub record IsSound (opening : ℕ → ℤ) (d : Db) : Type 0 where
  pub ids : Below d.next_account d.accounts
  pub known : All (λ p. p.account_id < d.next_account) d.postings
  pub numbered : All (λ p. p.id < d.next_posting) d.postings
  pub conserved : sum_all d.postings ≡ pos 0
  pub integral : All (λ a. a.balance ≡ opening a.id +ℤ sum_for a.id d.postings) d.accounts
  pub unopened : (n : ℕ) → d.next_account ≤ n → opening n ≡ pos 0
  pub nonneg : All (λ a. pos 0 ≤ℤ a.balance) d.accounts

-- A row function that takes the amount off the balance.
abbrev pub IsDebitRow : (ℤ → Account → Account) → Type 0
IsDebitRow f =
    (amount : ℤ) (a : Account)
    → ((f amount a).id ≡ a.id) × ((f amount a).balance ≡ a.balance -ℤ amount)

pub debit_row-IsDebitRow : IsDebitRow debit_row
debit_row-IsDebitRow amount a = (refl, refl)

pub debit_versioned_row-IsDebitRow : IsDebitRow debit_versioned_row
debit_versioned_row-IsDebitRow amount a = (refl, refl)

-- What the two postings of a transfer add to an account's sum.
abbrev pub two_postings : Request → ℕ → ℕ → ℕ → ℕ → List Posting → List Posting
two_postings req i j tid now ps =
    posting_row j tid req.to_account req.amount now
    ∷ posting_row i tid req.from_account (pos 0 -ℤ req.amount) now
    ∷ ps

sum_for-two_postings :
    (req : Request) (i j tid now id : ℕ) (ps : List Posting)
    → req.from_account ≢ req.to_account
    → (id ≡ req.from_account
        → sum_for id (two_postings req i j tid now ps) ≡ pos 0 -ℤ req.amount +ℤ sum_for id ps)
      × (id ≡ req.to_account
          → sum_for id (two_postings req i j tid now ps) ≡ req.amount +ℤ sum_for id ps)
      × (id ≢ req.from_account
          → id ≢ req.to_account
          → sum_for id (two_postings req i j tid now ps) ≡ sum_for id ps)
unfolding sum_for
sum_for-two_postings req i j tid now id ps ne =
    ((λ e. ground arith), (λ e. ground arith), (λ e e'. ground arith))

module _ (opening : ℕ → ℤ) (f : ℤ → Account → Account) (is_debit : IsDebitRow f)
    (req : Request) where
  -- One row under the two UPDATEs.
  abbrev moved_row : Account → Account
  moved_row a =
      let b = if by_id req.from_account a then f req.amount a else a in
      if by_id req.to_account b then credit_row req.amount b else b

  -- A row is the debited one, the credited one, or another.
  abbrev RowCases : Account → Account → Type 0
  RowCases a b =
      ((a.id ≡ req.from_account) × (b.balance ≡ a.balance -ℤ req.amount))
      ⊎ (((a.id ≡ req.to_account) × (b.balance ≡ a.balance +ℤ req.amount))
          ⊎ ((a.id ≢ req.from_account) × (a.id ≢ req.to_account) × (b.balance ≡ a.balance)))

  row_cases :
      (a : Account)
      → req.from_account ≢ req.to_account
      → ((moved_row a).id ≡ a.id) × RowCases a (moved_row a)
  row_cases a ne = elim (Bool-cases (by_id req.from_account a)) [
    | inl e ↦ (
      ground (arith, is_debit req.amount a),
      inl (ground arith, ground (arith, is_debit req.amount a)),
    )
    | inr e ↦ elim (Bool-cases (by_id req.to_account a)) [
      | inl e' ↦ (ground arith, inr (inl (ground arith, ground arith)))
      | inr e' ↦ (ground arith, inr (inr (ground arith, ground arith, ground arith)))
    ]
  ]

  moved-Below : (n : ℕ) (rows : List Account) → Below n rows → Below n (moved f req rows)
  unfolding update
  moved-Below n [] b = tt
  moved-Below n (a ∷ rows) b = ground (arith, is_debit req.amount a, moved-Below a.id rows b.1)

  row_nonneg :
      (a : Account) (b : ℤ)
      → RowCases a (record a { balance = b })
      → pos 1 ≤ℤ req.amount
      → (by_id req.from_account a ≡ true → req.amount ≤ℤ a.balance)
      → pos 0 ≤ℤ a.balance
      → pos 0 ≤ℤ b
  row_nonneg a b (inl (e, q)) p c h =
      let enough = c (ground arith) in rw q (omega (int_laws, enough))
  row_nonneg a b (inr (inl (e, q))) p c h = rw q (omega int_laws)
  row_nonneg a b (inr (inr (e, e', q))) p c h = rw q h

  moved-nonneg :
      (rows : List Account)
      → req.from_account ≢ req.to_account
      → pos 1 ≤ℤ req.amount
      → All (λ x. by_id req.from_account x ≡ true → req.amount ≤ℤ x.balance) rows
      → All (λ a. pos 0 ≤ℤ a.balance) rows
      → All (λ a. pos 0 ≤ℤ a.balance) (moved f req rows)
  unfolding update
  moved-nonneg [] ne p c h = tt
  moved-nonneg (a ∷ rows) ne p c h = (
    row_nonneg a (moved_row a).balance (row_cases a ne).1 p c.0 h.0,
    moved-nonneg rows ne p c.1 h.1,
  )

  row_integral :
      (a b : Account) (ps : List Posting) (i j tid now : ℕ)
      → req.from_account ≢ req.to_account
      → b.id ≡ a.id
      → RowCases a b
      → a.balance ≡ opening a.id +ℤ sum_for a.id ps
      → b.balance ≡ opening b.id +ℤ sum_for b.id (two_postings req i j tid now ps)
  row_integral a b ps i j tid now ne same (inl (e, q)) h =
      let s = (sum_for-two_postings req i j tid now a.id ps ne).0 e in
      rw (q, same, s, h) (omega int_laws)
  row_integral a b ps i j tid now ne same (inr (inl (e, q))) h =
      let s = (sum_for-two_postings req i j tid now a.id ps ne).1 e in
      rw (q, same, s, h) (omega int_laws)
  row_integral a b ps i j tid now ne same (inr (inr (e, e', q))) h =
      let s = (sum_for-two_postings req i j tid now a.id ps ne).2 e e' in rw (q, same, s, h)

  moved-integral :
      (rows : List Account) (ps : List Posting) (i j tid now : ℕ)
      → req.from_account ≢ req.to_account
      → All (λ a. a.balance ≡ opening a.id +ℤ sum_for a.id ps) rows
      → All
          (λ a. a.balance ≡ opening a.id +ℤ sum_for a.id (two_postings req i j tid now ps))
          (moved f req rows)
  unfolding update
  moved-integral [] ps i j tid now ne h = tt
  moved-integral (a ∷ rows) ps i j tid now ne h = (
    row_integral a (moved_row a) ps i j tid now ne (row_cases a ne).0 (row_cases a ne).1 h.0,
    moved-integral rows ps i j tid now ne h.1,
  )

known_bounded :
    (i n : ℕ) (rows : List Account) → Below n rows → exists_row (by_id i) rows ≡ true → i < n
known_bounded i n rows b h = ground (arith, exists_row-Below i n rows b)

exists_row-moved :
    (opening : ℕ → ℤ) (f : ℤ → Account → Account) (i n : ℕ) (req : Request) (rows : List Account)
    → IsDebitRow f
    → Below n rows
    → exists_row (by_id i) (moved f req rows) ≡ true
    → i < n
exists_row-moved opening f i n req rows is_debit b =
    known_bounded i n (moved f req rows) (moved-Below opening f is_debit req n rows b)

conserved-two_postings :
    (req : Request) (i j tid now : ℕ) (ps : List Posting)
    → sum_all ps ≡ pos 0
    → sum_all (two_postings req i j tid now ps) ≡ pos 0
unfolding sum_all
conserved-two_postings req i j tid now ps h = rw h (omega int_laws)

-- A posted transfer keeps the invariant, by whichever strategy it was debited.
pub Posted-IsSound :
    (env : Env) (opening : ℕ → ℤ) (f : ℤ → Account → Account) (req : Request) (t : Transfer)
    (now : ℕ) (d d' : Db)
    → IsDebitRow f
    → Posted env f req t now d d'
    → IsSound opening d
    → IsSound opening d'
Posted-IsSound env opening f req t now d d' is_debit p s =
    let from_below = known_bounded req.from_account d.next_account d.accounts s.ids p.from_known in
    let to_below =
      exists_row-moved opening f req.to_account d.next_account req d.accounts is_debit s.ids
        (subst (λ rows. exists_row (by_id req.to_account) rows ≡ true) p.accounts p.to_known) in
    record {
      ids =
          subst (λ n. Below n d'.accounts) (sym p.next_account)
            (subst (Below d.next_account) (sym p.accounts)
              (moved-Below opening f is_debit req d.next_account d.accounts s.ids));
      known =
          subst (λ n. All (λ q. q.account_id < n) d'.postings) (sym p.next_account)
            (subst (All (λ q. q.account_id < d.next_account)) (sym p.postings)
              (to_below, (from_below, s.known)));
      numbered =
          subst (λ n. All (λ q. q.id < n) d'.postings) (sym p.next_posting)
            (subst (All (λ q. q.id < d.next_posting + 2)) (sym p.postings)
              (omega arith, (omega arith, All-map d.postings (λ q h. omega arith) s.numbered)));
      conserved =
          subst (λ ps. sum_all ps ≡ pos 0) (sym p.postings)
            (conserved-two_postings req _ _ t.id now d.postings s.conserved);
      integral =
          subst (λ ps. All (λ a. a.balance ≡ opening a.id +ℤ sum_for a.id ps) d'.accounts)
            (sym p.postings)
            (subst (All _) (sym p.accounts) (
              moved-integral opening f is_debit req d.accounts d.postings _ _ t.id now p.distinct
                s.integral));
      unopened = λ n h. s.unopened n (subst (λ m. m ≤ n) p.next_account h);
      nonneg =
          subst (All (λ a. pos 0 ≤ℤ a.balance)) (sym p.accounts) (
            moved-nonneg opening f is_debit req d.accounts p.distinct p.positive p.covered
              s.nonneg);
    }

pub Posted-HasIds :
    (env : Env) (f : ℤ → Account → Account) (req : Request) (t : Transfer) {now : ℕ} (d : Db)
    {d' : Db}
    → Below d.next_account d.accounts
    → IsDebitRow f
    → Posted env f req t now d d'
    → Below d'.next_account d'.accounts
Posted-HasIds env f req t d {d'} b is_debit p =
    subst (λ n. Below n d'.accounts) (sym p.next_account)
      (subst (Below d.next_account) (sym p.accounts)
        (moved-Below (λ _. pos 0) f is_debit req d.next_account d.accounts b))
