-- ===== src/Api/Accounts/Histories.antt =====
-- What GET /accounts/{id}/history answers.
use idem_ledger.Base.{◌≡◌, String, Option, none, some, List, select}
use idem_ledger.Base.Int.{ℤ}
use idem_ledger.Db.{Db, Account, Posting}
use idem_ledger.Store.Accounts.{has_id}
use idem_ledger.Store.History.Newest.{IsPage}
use idem_ledger.Api.{Response, Content, failure}
use idem_ledger.Api.Accounts.{success, cursor}

module _ (parse_int : String → Option ℤ) (id after : String) where
  -- 400 for an id or a cursor that is no number, 404 if no account has the id, and 200 with the page.
  pub data HistoryAnswer (d : Db) : Response → Type 0 where
    malformed : parse_int id ≡ none → HistoryAnswer d (failure 400 "invalid account id")
    missing :
        (i : ℤ)
        → parse_int id ≡ some i
        → select (has_id i) d.accounts ≡ none
        → HistoryAnswer d (failure 404 "account not found")
    lost_place :
        (i : ℤ) (a : Account)
        → parse_int id ≡ some i
        → select (has_id i) d.accounts ≡ some a
        → cursor parse_int after ≡ none
        → HistoryAnswer d (failure 400 "invalid after cursor")
    lists :
        (i c : ℤ) (a : Account)
        → parse_int id ≡ some i
        → select (has_id i) d.accounts ≡ some a
        → cursor parse_int after ≡ some c
        → (ps : List Posting) → IsPage d i c ps
        → HistoryAnswer d (success 200 (Content.postings_page ps))
