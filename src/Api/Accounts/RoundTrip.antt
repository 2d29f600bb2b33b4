-- ===== src/Api/Accounts/RoundTrip.antt =====
-- POST /accounts, and then GET /accounts/{id}.
use idem_ledger.Base.{ℕ, ◌<◌, ◌^◌, ◌≡◌, arith, String, Option, some, [], select}
use idem_ledger.Base.Int.{ℤ, pos}
use idem_ledger.Db.{Db, Account, ok}
use idem_ledger.Server.{World}
use idem_ledger.Store.Accounts.{has_id, insert_account}
use idem_ledger.Api.{Response, Content}
use idem_ledger.Api.Webhook.{Ip, Resolver}
use idem_ledger.Api.Accounts.{success, AccountBody, post_accounts, get_accounts}
use idem_ledger.Api.Accounts.Opens.{Opens, post_accounts-Opens}
use idem_ledger.Api.Accounts.Reads.{
  AccountAnswer, malformed, missing, exists, Shows, shows, broke, get_accounts-Shows,
}

inserted :
    (name currency : String) (url : Option String) (now : ℕ) (d d' : Db) (row : Account)
    → insert_account name currency url now d ≡ ok (row, d')
    → select (has_id (pos row.id)) d'.accounts ≡ some row
unfolding insert_account select
inserted name currency url now d d' row h = ground arith

Opens-selected :
    (net : Resolver) (d : Db) (row : Account) (w' : World) {x : Response × World}
    → Opens net d x
    → x ≡ (success 201 (Content.one_account row), w')
    → select (has_id (pos row.id)) w'.committed.accounts ≡ some row
Opens-selected net d row w' (Opens.refused r w bad same) h = absurd (ground arith)
Opens-selected net d row w' (Opens.opens a w o) h =
    let s = inserted _ _ _ o.now d w.committed a o.made in ground arith
Opens-selected net d row w' (Opens.unheard a w o) h = absurd (ground arith)

Shows-selected :
    (parse_int : String → Option ℤ) (id : String) (v : World) (row : Account) {x : Response × World}
    → v.tape ≡ []
    → parse_int id ≡ some (pos row.id)
    → select (has_id (pos row.id)) v.committed.accounts ≡ some row
    → Shows v (AccountAnswer parse_int id v.committed) x
    → x.0 ≡ success 200 (Content.one_account row)
Shows-selected parse_int id v row calm parsed there (shows r w' (malformed e) same) = absurd (cc)
Shows-selected parse_int id v row calm parsed there (shows r w' (missing i e h) same) =
    absurd (ground arith)
Shows-selected parse_int id v row calm parsed there (shows r w' (exists i a e h) same) =
    ground arith
Shows-selected parse_int id v row calm parsed there (broke w' loud same) = absurd (loud calm)

module _ (net : Resolver)
    (sized : (text : String) (ip : Ip) → net.parse_ip text ≡ some ip → ip < 2 ^ 128)
    (decode : String → Option AccountBody) (trim to_upper : String → String)
    (parse_int : String → Option ℤ) where
  -- Where a parsed address has 16 bytes: after a POST /accounts that answered 201 with an account, whatever
  -- the server's answers were, a GET of the account's id on the tables that it left, in a session whose calls
  -- the server answers, gives 200 and the same account.
  pub get_accounts-post_accounts :
      (body id : String) (w w' v : World) (row : Account)
      → post_accounts net decode trim to_upper body w ≡ (success 201 (Content.one_account row), w')
      → v.committed ≡ w'.committed
      → v.tape ≡ []
      → parse_int id ≡ some (pos row.id)
      → (get_accounts parse_int id v).0 ≡ success 200 (Content.one_account row)
  get_accounts-post_accounts body id w w' v row h same calm parsed =
      Shows-selected parse_int id v row calm parsed
        (rw same (
          Opens-selected net w.committed row w'
            (post_accounts-Opens net sized decode trim to_upper body w) h))
        (get_accounts-Shows parse_int id v)
