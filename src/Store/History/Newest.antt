-- ===== src/Store/History/Newest.antt =====
-- One page of the history that GetPostings gives, by the rows that are in it.
use idem_ledger.Base.{
  ℕ, zero, suc, ◌≤◌, ◌≡◌, ◌⊎◌, inl, inr, ap, ◌∙◌, refl, Bool, ◌&&◌, ◌||◌, List, [], ◌∷◌, ◌++◌,
  arith, take, where_rows, count_rows, length, All, All-map, leb, Bool-cases,
}
use idem_ledger.Base.Int.{ℤ, pos, leb_ℤ, ltb_ℤ, eqb_ℤ}
use idem_ledger.Db.{Db, Posting}
use idem_ledger.Store.History.{is_listed, insert_newest, newest_first}

-- A posting of the account with a smaller id than the cursor, or any of its postings if the cursor is not
-- positive.
abbrev pub follows : ℤ → ℤ → Posting → Bool
follows account after p =
    eqb_ℤ (pos p.account_id) account && (leb_ℤ after (pos 0) || ltb_ℤ (pos p.id) after)

abbrev pub NewestFirst : List Posting → Type 0
NewestFirst [] = Unit {0}
NewestFirst (p ∷ ps) = All (λ (q : Posting). q.id ≤ p.id) ps × NewestFirst ps

-- The page and the rows that are left out of it are, newest first, the postings that follow the cursor, each
-- as often as in the table; the page has 50 rows, or fewer if nothing is left out.
pub record IsPage (d : Db) (account after : ℤ) (ps : List Posting) : Type 0 where
  pub left_out : List Posting
  pub all_there :
      (t : Posting → Bool)
      → count_rows t (ps ++ left_out) ≡ count_rows (λ p. follows account after p && t p) d.postings
  pub newest : NewestFirst (ps ++ left_out)
  pub at_most : length ps ≤ 50
  pub full : (length ps ≡ 50) ⊎ (left_out ≡ [])

insert_newest-All :
    (P : Posting → Type 0) (p : Posting) (ps : List Posting)
    → P p
    → All P ps
    → All P (insert_newest p ps)
unfolding insert_newest
insert_newest-All P p [] a h = (a, tt)
insert_newest-All P p (q ∷ qs) a h = elim (Bool-cases (leb q.id p.id)) [
  | inl e ↦ rw e (a, h)
  | inr e ↦ rw e (h.0, insert_newest-All P p qs a h.1)
]

insert_newest-NewestFirst :
    (p : Posting) (ps : List Posting) → NewestFirst ps → NewestFirst (insert_newest p ps)
unfolding insert_newest
insert_newest-NewestFirst p [] h = (tt, tt)
insert_newest-NewestFirst p (q ∷ qs) h = elim (Bool-cases (leb q.id p.id)) [
  | inl e ↦
      let below : q.id ≤ p.id = ground arith in
      rw e ((below, All-map qs (λ r le. omega arith) h.0), h)
  | inr e ↦
      let above : p.id ≤ q.id = ground arith in
      rw e (insert_newest-All _ p qs above h.0, insert_newest-NewestFirst p qs h.1)
]

newest_first-NewestFirst : (ps : List Posting) → NewestFirst (newest_first ps)
unfolding newest_first
newest_first-NewestFirst [] = tt
newest_first-NewestFirst (p ∷ ps) = insert_newest-NewestFirst p _ (newest_first-NewestFirst ps)

count_rows-insert_newest :
    (t : Posting → Bool) (p : Posting) (ps : List Posting)
    → count_rows t (insert_newest p ps) ≡ count_rows t (p ∷ ps)
unfolding insert_newest count_rows
count_rows-insert_newest t p [] = refl
count_rows-insert_newest t p (q ∷ qs) = let rest = count_rows-insert_newest t p qs in ground arith

count_rows-newest_first :
    (t : Posting → Bool) (ps : List Posting) → count_rows t (newest_first ps) ≡ count_rows t ps
unfolding newest_first count_rows
count_rows-newest_first t [] = refl
count_rows-newest_first t (p ∷ ps) =
    let one = count_rows-insert_newest t p (newest_first ps) in
    let rest = count_rows-newest_first t ps in ground arith

follows-is_listed :
    (account after : ℤ) (p : Posting) → is_listed account after p ≡ follows account after p
follows-is_listed account after p = ground arith

count_rows-where_rows :
    (t : Posting → Bool) (account after : ℤ) (ps : List Posting)
    → count_rows t (where_rows (is_listed account after) ps)
      ≡ count_rows (λ p. follows account after p && t p) ps
unfolding where_rows count_rows
count_rows-where_rows t account after [] = refl
count_rows-where_rows t account after (p ∷ ps) =
    let same = follows-is_listed account after p in
    let rest = count_rows-where_rows t account after ps in ground arith

-- What a limit leaves out.
drop : ℕ → List Posting → List Posting
drop zero ps = ps
drop (suc n) [] = []
drop (suc n) (p ∷ ps) = drop n ps

take-drop :
    (n : ℕ) (ps : List Posting)
    → (take n ps ++ drop n ps ≡ ps)
      × (length (take n ps) ≤ n)
      × ((length (take n ps) ≡ n) ⊎ (drop n ps ≡ []))
unfolding take drop
take-drop zero ps = (refl, omega arith, inl refl)
take-drop (suc n) [] = (refl, omega arith, inr refl)
take-drop (suc n) (p ∷ ps) =
    let (join, few, full) = take-drop n ps in
    (ap (λ qs. p ∷ qs) join, omega arith, elim full [ inl e ↦ inl (ap suc e) | inr e ↦ inr e ])

-- The rows of a page of 50.
abbrev pub page : Db → ℤ → ℤ → List Posting
page d account after = take 50 (newest_first (where_rows (is_listed account after) d.postings))

pub page-IsPage : (d : Db) (account after : ℤ) → IsPage d account after (page d account after)
page-IsPage d account after =
    let rows = where_rows (is_listed account after) d.postings in
    let (join, few, full) = take-drop 50 (newest_first rows) in
    record {
      left_out = drop 50 (newest_first rows);
      all_there = λ t.
          rw join
            (count_rows-newest_first t rows ∙ count_rows-where_rows t account after d.postings);
      newest = rw join (newest_first-NewestFirst rows);
      at_most = few;
      full = full;
    }
