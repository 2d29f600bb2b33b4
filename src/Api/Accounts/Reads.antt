-- ===== src/Api/Accounts/Reads.antt =====
-- What the handlers that read the tables answer.
use idem_ledger.Base.{◌≡◌, ◌≢◌, refl, arith, String, Option, none, some, [], select}
use idem_ledger.Base.Int.{ℤ}
use idem_ledger.Db.{Db, Account, Result, ok, err, not_found}
use idem_ledger.Server.{World, Fault, error_of, on_pool}
use idem_ledger.Server.Reads.{Read, read, failed, >>=-Read, on_pool-Read}
use idem_ledger.Store.Accounts.{has_id, find_account, get_account, or_raise}
use idem_ledger.Api.{Response, Content, failure}
use idem_ledger.Api.Accounts.{success, failed_read, reply_account, show_account, get_accounts}

abbrev pub found : Option Account → Result Account
found none = err not_found
found (some a) = ok a

or_raise-found : (o : Option Account) (v : World) → or_raise o not_found v ≡ (found o, v)
or_raise-found none v = refl
or_raise-found (some a) v = refl

pub get_account-Read :
    (id : ℤ) (w : World)
    → Read (found (select (has_id id) w.committed.accounts)) w (get_account id w)
unfolding get_account find_account
get_account-Read id w =
    let row = select (has_id id) w.committed.accounts in
    >>=-Read _ w row (found row) (or_raise-found row) (on_pool (find_account id))
      (on_pool-Read (find_account id) w row (λ now. refl))

pub error_of-failed_read :
    (f : Fault) → failed_read (error_of f) ≡ failure 500 "internal server error"
error_of-failed_read f = ground arith

-- The response to a read of the tables `d`: the tables are left alone, and a 500 is given only if the
-- tape was not used up.
pub data Shows (w : World) (right : Response → Type 0) : Response × World → Type 0 where
  shows : (r : Response) (w' : World) → right r → w'.committed ≡ w.committed → Shows w right (r, w')
  broke :
      (w' : World)
      → w.tape ≢ []
      → w'.committed ≡ w.committed
      → Shows w right (failure 500 "internal server error", w')

module _ (parse_int : String → Option ℤ) where
  -- 400 for an id that is no number, 404 if no account has it, and 200 with the account.
  pub data AccountAnswer (id : String) (d : Db) : Response → Type 0 where
    malformed : parse_int id ≡ none → AccountAnswer id d (failure 400 "invalid account id")
    missing :
        (i : ℤ)
        → parse_int id ≡ some i
        → select (has_id i) d.accounts ≡ none
        → AccountAnswer id d (failure 404 "account not found")
    exists :
        (i : ℤ) (a : Account)
        → parse_int id ≡ some i
        → select (has_id i) d.accounts ≡ some a
        → AccountAnswer id d (success 200 (Content.one_account a))

  reply_account-AccountAnswer :
      (id : String) (w w' : World) (i : ℤ) (o : Option Account)
      → parse_int id ≡ some i
      → select (has_id i) w.committed.accounts ≡ o
      → w'.committed ≡ w.committed
      → Shows w (AccountAnswer id w.committed) (reply_account (found o), w')
  reply_account-AccountAnswer id w w' i none h e same = shows _ w' (missing i h e) same
  reply_account-AccountAnswer id w w' i (some a) h e same = shows _ w' (exists i a h e) same

  show-Shows :
      (id : String) (w : World) (i : ℤ) {x : Result Account × World}
      → parse_int id ≡ some i
      → Read (found (select (has_id i) w.committed.accounts)) w x
      → Shows w (AccountAnswer id w.committed) (reply_account x.0, x.1)
  show-Shows id w i h (read w' same calm) = reply_account-AccountAnswer id w w' i _ h refl same
  show-Shows id w i h (failed f w' same loud) = rw (error_of-failed_read f) (broke w' loud same)

  show_account-Shows :
      (id : String) (w : World) (o : Option ℤ)
      → parse_int id ≡ o
      → Shows w (AccountAnswer id w.committed) (show_account parse_int o w)
  show_account-Shows id w none e = shows _ w (malformed e) refl
  show_account-Shows id w (some i) e = show-Shows id w i e (get_account-Read i w)

  -- Whatever the server answers, GET /accounts/{id} leaves the tables alone, and it answers 400 if the id
  -- is no 64-bit number, 404 if no account has it, 200 with the account that has it, or 500, and that only
  -- if the tape is not used up.
  pub get_accounts-Shows :
      (id : String) (w : World)
      → Shows w (AccountAnswer id w.committed) (get_accounts parse_int id w)
  unfolding get_accounts
  get_accounts-Shows id w = show_account-Shows id w (parse_int id) refl
