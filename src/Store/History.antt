-- ===== src/Store/History.antt =====
-- internal/store/accounts.go, GetPostings: the postings of an account, newest first, page by page.
pub mod Pages
pub mod Newest
use idem_ledger.Base.{
  ℕ, Bool, true, ◌&&◌, List, [], ◌∷◌, ◌==◌, leb, if◌then◌else◌, take, where_rows,
}
use idem_ledger.Base.Int.{ℤ, pos, ltb_ℤ, eqb_ℤ}
use idem_ledger.Db.{Posting, ok}
use idem_ledger.Server.{Action, Sql, on_pool}

abbrev pub of_account : ℤ → Posting → Bool
of_account account p = eqb_ℤ (pos p.account_id) account

-- if afterID > 0 { … AND id < $2 … }
abbrev pub is_before : ℤ → Posting → Bool
is_before after p = if ltb_ℤ (pos 0) after then ltb_ℤ (pos p.id) after else true

abbrev pub is_listed : ℤ → ℤ → Posting → Bool
is_listed account after p = of_account account p && is_before after p

-- ORDER BY id DESC
unfoldable pub insert_newest : Posting → List Posting → List Posting
insert_newest p [] = p ∷ []
insert_newest p (q ∷ qs) =
    let rest = insert_newest p qs in if leb q.id p.id then p ∷ q ∷ qs else q ∷ rest

unfoldable pub newest_first : List Posting → List Posting
unfolding insert_newest
newest_first [] = []
newest_first (p ∷ ps) = insert_newest p (newest_first ps)

unfoldable pub select_page : ℤ → ℤ → ℕ → Sql (List Posting)
unfolding newest_first
select_page account after limit now d =
    ok (take limit (newest_first (where_rows (is_listed account after) d.postings)), d)

-- GetPostings; a row is given with its account.
unfoldable pub get_postings : ℤ → ℤ → ℕ → Action (List Posting)
unfolding select_page
get_postings account after limit = on_pool (select_page account after limit)
