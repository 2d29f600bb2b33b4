-- ===== src/Tests/History.antt =====
-- The history of an account that took part in two transfers, in pages of one.
use idem_ledger.Base.{◌≡◌, refl, arith, [], ◌∷◌, take, where_rows}
use idem_ledger.Base.Int.{pos, negsuc}
use idem_ledger.Db.{Db, ok}
use idem_ledger.Server.{World, on_pool}
use idem_ledger.Ledger.Rows.{posting_row}
use idem_ledger.Store.History.{get_postings, of_account, newest_first}
use idem_ledger.Store.History.Pages.{Falling, get_postings-pages}
use idem_ledger.Tests.Data.{world, two_accounts}

abbrev two_postings_each : Db
two_postings_each = record two_accounts {
  postings =
      posting_row 4 101 2 (pos 7) 0
      ∷ posting_row 3 101 1 (negsuc 6) 0
      ∷ posting_row 2 100 2 (pos 5) 0
      ∷ posting_row 1 100 1 (negsuc 4) 0
      ∷ [];
  next_posting = 5;
}

abbrev seen : World
seen = world two_postings_each []

postings-Falling : Falling 5 two_postings_each.postings
postings-Falling = (
  omega arith,
  omega arith,
  (omega arith, omega arith, (omega arith, omega arith, (omega arith, omega arith, tt))),
)

page_one : get_postings (pos 1) (pos 0) 1 seen ≡ (ok (posting_row 3 101 1 (negsuc 6) 0 ∷ []), seen)
unfolding get_postings on_pool take where_rows newest_first
page_one = refl

page_two : get_postings (pos 1) (pos 3) 5 seen ≡ (ok (posting_row 1 100 1 (negsuc 4) 0 ∷ []), seen)
unfolding get_postings on_pool take where_rows newest_first
page_two = refl

get_postings-pages_example :
    posting_row 3 101 1 (negsuc 6) 0 ∷ posting_row 1 100 1 (negsuc 4) 0 ∷ []
    ≡ take 6 (where_rows (of_account (pos 1)) two_postings_each.postings)
get_postings-pages_example =
    get_postings-pages (pos 1) 0 5 seen seen postings-Falling refl page_one refl page_two
