-- ===== src/Store/History/Pages.antt =====
-- Successive pages of the history that GetPostings gives.
use idem_ledger.Base.{
  ℕ, zero, suc, ◌+◌, ◌≤◌, ◌<◌, ◌≡◌, ap, sym, subst, ◌∙◌, refl, Bool, false, ◌&&◌, inl, inr, List,
  [], ◌∷◌, ◌++◌, arith, take, where_rows, length, Bool-cases,
}
use idem_ledger.Base.Int.{ℤ, pos}
use idem_ledger.Db.{Db, Posting, ok}
use idem_ledger.Server.{World}
use idem_ledger.Server.Laws.{on_pool-eq-ok}
use idem_ledger.Store.History.{
  of_account, is_before, is_listed, insert_newest, newest_first, select_page, get_postings,
}

-- Posting ids are positive, fall along the table, and stay below the identity sequence.
abbrev pub Falling : ℕ → List Posting → Type 0
Falling n [] = Unit {0}
Falling n (p ∷ ps) = (0 < p.id) × (p.id < n) × Falling p.id ps

where_rows-Falling :
    (t : Posting → Bool) (n m : ℕ) (ps : List Posting)
    → n ≤ m
    → Falling n ps
    → Falling m (where_rows t ps)
unfolding where_rows
where_rows-Falling t n m [] le f = tt
where_rows-Falling t n m (p ∷ ps) le (pos_id, below, f) = elim (Bool-cases (t p)) [
  | inl e ↦ rw e (pos_id, omega arith, where_rows-Falling t p.id p.id ps (omega arith) f)
  | inr e ↦ rw e (where_rows-Falling t p.id m ps (omega arith) f)
]

insert_newest-Falling :
    (p : Posting) (ps : List Posting) → Falling p.id ps → insert_newest p ps ≡ p ∷ ps
unfolding insert_newest
insert_newest-Falling p [] f = refl
insert_newest-Falling p (q ∷ qs) f = ground arith

-- A falling table is in the order that is asked for.
newest_first-Falling : (n : ℕ) (ps : List Posting) → Falling n ps → newest_first ps ≡ ps
unfolding newest_first
newest_first-Falling n [] f = refl
newest_first-Falling n (p ∷ ps) (pos_id, below, f) =
    rw (newest_first-Falling p.id ps f) (insert_newest-Falling p ps f)

where_rows-&& :
    (t u : Posting → Bool) (ps : List Posting)
    → where_rows (λ p. t p && u p) ps ≡ where_rows u (where_rows t ps)
unfolding where_rows
where_rows-&& t u [] = refl
where_rows-&& t u (p ∷ ps) = ground (arith, where_rows-&& t u ps)

-- The id of the last row of a page, which the client hands in as the next cursor.
abbrev pub last_id : List Posting → ℕ
last_id [] = 0
last_id (p ∷ []) = p.id
last_id (p ∷ q ∷ qs) = last_id (q ∷ qs)

all_before :
    (c n : ℕ) (ps : List Posting)
    → 0 < c
    → n ≤ c
    → Falling n ps
    → where_rows (is_before (pos c)) ps ≡ ps
unfolding where_rows
all_before c n [] some le f = refl
all_before c n (p ∷ ps) some le (pos_id, below, f) =
    let rest = all_before c p.id ps some (omega arith) f in ground arith

last_id-take :
    (n k : ℕ) (p : Posting) (ps : List Posting)
    → Falling k (p ∷ ps)
    → (0 < last_id (take (suc n) (p ∷ ps))) × (last_id (take (suc n) (p ∷ ps)) < k)
unfolding take
last_id-take zero k p ps (pos_id, below, f) = (pos_id, below)
last_id-take (suc n) k p [] (pos_id, below, f) = (pos_id, below)
last_id-take (suc n) k p (q ∷ qs) (pos_id, below, f) =
    let rest = last_id-take n p.id q qs f in (rest.0, omega arith)

skip_first :
    (t : Posting → Bool) (p : Posting) (ps : List Posting)
    → t p ≡ false
    → where_rows t (p ∷ ps) ≡ where_rows t ps
unfolding where_rows
skip_first t p ps miss = rw miss

-- A full page and the rows before its last one are the listing.
page_join :
    (n m k : ℕ) (ps : List Posting)
    → Falling k ps
    → length (take (suc n) ps) ≡ suc n
    → take (suc n) ps ++ take m (where_rows (is_before (pos (last_id (take (suc n) ps)))) ps)
      ≡ take (suc (n + m)) ps
unfolding take
page_join n m k [] f full = absurd (omega arith)
page_join zero m k (p ∷ ps) (pos_id, below, f) full =
    let same : m ≡ zero + m = omega arith in
    rw
      (
        skip_first (is_before (pos p.id)) p ps (ground arith),
        all_before p.id p.id ps pos_id (omega arith) f,
      )
      (ap (λ k. p ∷ take k ps) same)
page_join (suc n) m k (p ∷ []) f full = absurd (omega arith)
page_join (suc n) m k (p ∷ q ∷ qs) (pos_id, below, f) full =
    let bounds = last_id-take n p.id q qs f in
    let rest = page_join n m p.id (q ∷ qs) f (omega arith) in
    let more : suc (n + m) ≡ suc n + m = omega arith in
    rw (skip_first (is_before (pos (last_id (take (suc n) (q ∷ qs))))) p (q ∷ qs) (ground arith))
      (ap (λ xs. p ∷ xs) (rest ∙ ap (λ k. take k (q ∷ qs)) more))

select_page-Falling :
    (account after : ℤ) (limit now n : ℕ) (d : Db) {ps : List Posting} {d' : Db}
    → Falling n d.postings
    → select_page account after limit now d ≡ ok (ps, d')
    → ps ≡ take limit (where_rows (is_before after) (where_rows (of_account account) d.postings))
unfolding select_page
select_page-Falling account after limit now n d f h =
    let sorted =
      newest_first-Falling n _
        (where_rows-Falling (is_listed account after) n n d.postings (omega arith) f) in
    let split = where_rows-&& (of_account account) (is_before after) d.postings in ground arith

no_cursor : (ps : List Posting) → where_rows (is_before (pos 0)) ps ≡ ps
unfolding where_rows
no_cursor [] = refl
no_cursor (p ∷ ps) = ground (arith, no_cursor ps)

-- Where posting ids are positive and fall along the table below the sequence: if the first page of an
-- account's postings, of n + 1 rows, is full, and the page after it is asked for with its last id as the cursor, from
-- the same tables, then the two together are the newest n + m + 1 postings of the account.
pub get_postings-pages :
    (account : ℤ) (n m : ℕ) (w v : World) {first rest : List Posting} {w' v' : World}
    → Falling w.committed.next_posting w.committed.postings
    → v.committed ≡ w.committed
    → get_postings account (pos 0) (suc n) w ≡ (ok first, w')
    → length first ≡ suc n
    → get_postings account (pos (last_id first)) m v ≡ (ok rest, v')
    → first ++ rest ≡ take (suc (n + m)) (where_rows (of_account account) w.committed.postings)
unfolding get_postings
get_postings-pages account n m w v {first} {rest} f same one full two =
    let listed : List Posting = where_rows (of_account account) w.committed.postings in
    let x = on_pool-eq-ok (select_page account (pos 0) (suc n)) w one in
    let y = on_pool-eq-ok (select_page account (pos (last_id first)) m) v two in
    let first_is : first ≡ take (suc n) listed =
      select_page-Falling account (pos 0) (suc n) x.0 _ w.committed f x.1
      ∙ ap (take (suc n)) (no_cursor listed) in
    let f' : Falling w.committed.next_posting v.committed.postings =
      subst (λ (d : Db). Falling w.committed.next_posting d.postings) (sym same) f in
    let rest_is : rest ≡ take m (where_rows (is_before (pos (last_id first))) listed) =
      select_page-Falling account (pos (last_id first)) m y.0 _ v.committed f' y.1
      ∙ ap
          (λ (d : Db). take m (
            where_rows (is_before (pos (last_id first)))
              (where_rows (of_account account) d.postings)))
          same in
    let below =
      where_rows-Falling (of_account account) w.committed.next_posting w.committed.next_posting
        w.committed.postings (omega arith) f in
    let full' : length (take (suc n) listed) ≡ suc n = sym (ap (λ xs. length xs) first_is) ∙ full in
    let join = page_join n m _ listed below full' in
    subst (λ xs. first ++ rest ≡ xs) join
      (rw rest_is
        (ap (λ xs. xs ++ take m (where_rows (is_before (pos (last_id xs))) listed)) first_is))
