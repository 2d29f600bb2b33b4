-- ===== src/Tests/Handlers.antt =====
-- The theorems on the handlers of accounts and on webhook addresses, at small inputs.
use idem_ledger.Base.{
  ◌≢◌, inr, eq_iff, ℕ, ◌*◌, ◌+◌, ◌^◌, ◌<◌, ◌≡◌, ◌↔◌, refl, arith, String, true, Option, none, some,
  [], ◌∷◌, exists_row, if◌then◌else◌, str_eq,
}
use idem_ledger.Base.Int.{ℤ, pos}
use idem_ledger.Db.{Account, err, pg, too_long}
use idem_ledger.Server.{World, on_pool}
use idem_ledger.Store.Accounts.{create_account, insert_account}
use idem_ledger.Api.{Content}
use idem_ledger.Api.Webhook.{Ip, Resolver, dotted, is_blocked, validate_webhook_url}
use idem_ledger.Api.Webhook.Ranges.{IsPrivate, is_blocked-IsPrivate}
use idem_ledger.Api.Webhook.Accepts.{IsAccepted, validate_webhook_url-IsAccepted}
use idem_ledger.Api.Accounts.{success, AccountBody, post_accounts, get_accounts}
use idem_ledger.Api.Accounts.Opens.{Opens, post_accounts-Opens}
use idem_ledger.Api.Accounts.Reads.{AccountAnswer, Shows, get_accounts-Shows}
use idem_ledger.Api.Accounts.Succeeds.{opened_by, post_accounts_succeeds}
use idem_ledger.Api.Accounts.RoundTrip.{get_accounts-post_accounts}
use idem_ledger.Tests.Data.{start, world}

abbrev v4 : ℕ → ℕ → ℕ → ℕ → Ip
v4 a b c d = 0xffff * 2 ^ 32 + dotted a b c d

abbrev parse_ip_example : String → Option Ip
parse_ip_example text = if str_eq text "93.184.216.34" then some (v4 93 184 216 34) else none

abbrev net : Resolver
net = record {
  parse = λ raw. some (record { scheme = "https"; hostname = "shop.example" });
  lookup = λ host. some ("93.184.216.34" ∷ []);
  parse_ip = parse_ip_example;
}

sized : (text : String) (ip : Ip) → net.parse_ip text ≡ some ip → ip < 2 ^ 128
sized text ip h = ground arith

validate_webhook_url-IsAccepted_example :
    (validate_webhook_url net "https://shop.example/hook" ≡ none)
    ↔ IsAccepted net "https://shop.example/hook"
validate_webhook_url-IsAccepted_example =
    validate_webhook_url-IsAccepted net sized "https://shop.example/hook"

accepts_shop : validate_webhook_url net "https://shop.example/hook" ≡ none
unfolding validate_webhook_url is_blocked exists_row
accepts_shop = refl

is_blocked-IsPrivate_example : (is_blocked (v4 172 31 0 1) ≡ true) ↔ IsPrivate (v4 172 31 0 1)
is_blocked-IsPrivate_example = is_blocked-IsPrivate (v4 172 31 0 1) (omega arith)

blocks_172_31 : is_blocked (v4 172 31 0 1) ≡ true
unfolding is_blocked exists_row
blocks_172_31 = refl

abbrev decode : String → Option AccountBody
decode body = some (record { name = "a"; currency = "INR"; webhook_url = body })

abbrev same : String → String
same text = text

abbrev parse_int : String → Option ℤ
parse_int text =
    if str_eq text "3" then some (pos 3) else if str_eq text "1" then some (pos 1) else none

-- CHAR(3) takes no four characters.
long_code : insert_account "a" "EURO" none 0 start.committed ≡ err (pg too_long)
unfolding insert_account
long_code = refl

post_accounts-Opens_example :
    Opens net start.committed (post_accounts net decode same same "https://shop.example/hook" start)
post_accounts-Opens_example =
    post_accounts-Opens net sized decode same same "https://shop.example/hook" start

get_accounts-Shows_example :
    Shows start (AccountAnswer parse_int "1" start.committed) (get_accounts parse_int "1" start)
get_accounts-Shows_example = get_accounts-Shows parse_int "1" start

abbrev row : Account
row = record {
  id = 3;
  name = "a";
  currency = "INR";
  balance = pos 0;
  version = 0;
  webhook_url = some "https://shop.example/hook";
  created_at = 1000;
}

abbrev after : World
after = (post_accounts net decode same same "https://shop.example/hook" start).1

opens_row :
    post_accounts net decode same same "https://shop.example/hook" start
    ≡ (success 201 (Content.one_account row), after)
unfolding post_accounts create_account on_pool validate_webhook_url is_blocked exists_row
opens_row = refl

get_accounts-post_accounts_example :
    (get_accounts parse_int "3" (world after.committed [])).0
    ≡ success 200 (Content.one_account row)
get_accounts-post_accounts_example =
    get_accounts-post_accounts net sized decode same same parse_int "https://shop.example/hook" "3"
      start after (world after.committed []) row opens_row refl refl refl

abbrev wanted : AccountBody
wanted = record { name = "a"; currency = "INR"; webhook_url = "https://shop.example/hook" }

named : wanted.name ≢ ""
named = ground (arith, eq_iff wanted.name "")

post_accounts_succeeds_example :
    post_accounts net decode same same "https://shop.example/hook" start
    ≡ (success 201 (Content.one_account row), opened_by start refl row)
post_accounts_succeeds_example =
    post_accounts_succeeds net sized decode same same start refl "https://shop.example/hook" wanted
      refl named refl
      (inr ((validate_webhook_url-IsAccepted net sized "https://shop.example/hook").0 accepts_shop))
