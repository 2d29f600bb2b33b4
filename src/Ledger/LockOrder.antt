-- ===== src/Ledger/LockOrder.antt =====
-- The order in which ExecuteWithForUpdate (internal/ledger/strategies.go) locks the two accounts.
use idem_ledger.Base.{
  ℕ, ◌<◌, ◌≡◌, ◌≢◌, refl, arith, List, [], ◌∷◌, ◌++◌, exists_row, where_rows, true, false, ltb,
  Bool, Bool-cases, inl, inr,
}
use idem_ledger.Db.{Db, Account, ok}
use idem_ledger.Store.Accounts.{by_id}
use idem_ledger.Store.Accounts.Unique.{Below, exists_row-Below}
use idem_ledger.Ledger.Execute.{HasIds}
use idem_ledger.Ledger.Strategies.{is_one_of, ids_ascending, insert_id, lock_order, lock_accounts}

if_there : Bool → ℕ → List ℕ
if_there true i = i ∷ []
if_there false i = []

-- Of two different ids, those that exist, in ascending order.
ids_ascending-pair :
    (lo hi n : ℕ) (rows : List Account)
    → lo < hi
    → Below n rows
    → ids_ascending (where_rows (is_one_of lo hi) rows)
      ≡ if_there (exists_row (by_id lo) rows) lo ++ if_there (exists_row (by_id hi) rows) hi
unfolding ids_ascending insert_id where_rows exists_row if_there
ids_ascending-pair lo hi n [] less b = refl
ids_ascending-pair lo hi n (a ∷ rows) less b =
    let rest = ids_ascending-pair lo hi a.id rows less b.1 in
    elim (Bool-cases (by_id hi a)) [
      | inl e ↦
          let absent = exists_row-Below hi a.id rows b.1 (ground arith) in
          elim (Bool-cases (exists_row (by_id lo) rows)) [
            | inl p ↦ ground arith
            | inr p ↦ ground arith
          ]
      | inr e ↦ elim (Bool-cases (by_id lo a)) [
        | inl e' ↦
            let absent_lo = exists_row-Below lo a.id rows b.1 (ground arith) in
            let absent_hi = exists_row-Below hi a.id rows b.1 (ground arith) in ground arith
        | inr e' ↦ ground arith
      ]
    ]

is_one_of-swap :
    (i j : ℕ) (rows : List Account)
    → where_rows (is_one_of i j) rows ≡ where_rows (is_one_of j i) rows
unfolding where_rows
is_one_of-swap i j [] = refl
is_one_of-swap i j (a ∷ rows) = ground (arith, is_one_of-swap i j rows)

-- The two ids may be handed in either way round.
lock_accounts-pair :
    (lo hi now : ℕ) (d : Db)
    → lo < hi
    → HasIds d
    → exists_row (by_id lo) d.accounts ≡ true
    → exists_row (by_id hi) d.accounts ≡ true
    → (lock_accounts (lo, hi) now d ≡ ok (lo ∷ hi ∷ [], d))
      × (lock_accounts (hi, lo) now d ≡ ok (lo ∷ hi ∷ [], d))
unfolding lock_accounts if_there
lock_accounts-pair lo hi now d less b known_lo known_hi =
    let pair = ids_ascending-pair lo hi d.next_account d.accounts less b in
    let swap = is_one_of-swap hi lo d.accounts in
    let both : ids_ascending (where_rows (is_one_of lo hi) d.accounts) ≡ lo ∷ hi ∷ [] =
      ground arith in
    (ground arith, ground arith)

-- Where account ids are distinct and below the sequence: transfers between two different existing accounts
-- lock the same two rows, in ascending order of their ids, whichever way the money goes.
pub lock_accounts-lock_order :
    (from to now : ℕ) (d : Db)
    → HasIds d
    → from ≢ to
    → exists_row (by_id from) d.accounts ≡ true
    → exists_row (by_id to) d.accounts ≡ true
    → (lo hi : ℕ) × (lo < hi)
      × (lock_accounts (lock_order from to) now d ≡ ok (lo ∷ hi ∷ [], d))
      × (lock_accounts (lock_order to from) now d ≡ ok (lo ∷ hi ∷ [], d))
unfolding lock_order
lock_accounts-lock_order from to now d b ne known_from known_to = elim (Bool-cases (ltb to from)) [
  | inl p ↦
      let less : to < from = ground arith in
      let locks = lock_accounts-pair to from now d less b known_to known_from in
      (to, from, less, ground arith, ground arith)
  | inr p ↦
      let less : from < to = ground arith in
      let locks = lock_accounts-pair from to now d less b known_from known_to in
      (from, to, less, ground arith, ground arith)
]
