-- ===== src/Tests/Loads.antt =====
-- A load test with two accounts and one transfer.
use idem_ledger.Base.{ℕ, ◌≡◌, refl, String, some, none, List, [], ◌∷◌, All}
use idem_ledger.Base.Int.{pos}
use idem_ledger.Db.{empty_db}
use idem_ledger.Server.{World}
use idem_ledger.Recon.{sum_all}
use idem_ledger.Ledger.Ready.{IsValid}
use idem_ledger.Ledger.Sound.{IsSound}
use idem_ledger.Api.{conditional_update}
use idem_ledger.LoadTest.{Draws, requests, transfer_request, load_test}
use idem_ledger.LoadTest.Clean.{Ends, load_test-Ends}
use idem_ledger.LoadTest.Receivers.{requests-one, requests-IsValid}
use idem_ledger.Tests.Data.{env, world}

abbrev name_of : ℕ → String
name_of i = "load-acct"

abbrev jobs : List Draws
jobs = record { sender = 0; receivers = 0 ∷ 1 ∷ []; amount = 41 } ∷ []

abbrev fresh : World
fresh = world empty_db []

empty-IsSound : IsSound (λ n. pos 0) empty_db
unfolding sum_all
empty-IsSound = record {
  ids = tt;
  known = tt;
  numbered = tt;
  conserved = refl;
  integral = tt;
  unopened = λ n h. refl;
  nonneg = tt;
}

picks : requests (3 ∷ 4 ∷ []) jobs ≡ some (transfer_request 3 4 41 ∷ [])
unfolding requests
picks = refl

requests-IsValid_example : All IsValid (transfer_request 3 4 41 ∷ [])
requests-IsValid_example = requests-IsValid (3 ∷ 4 ∷ []) jobs picks

requests-one_example : requests (7 ∷ []) jobs ≡ none
requests-one_example =
    requests-one 7 (record { sender = 0; receivers = 0 ∷ 1 ∷ []; amount = 41 }) []

load_test-Ends_example :
    Ends env conditional_update (load_test env conditional_update (some 1) name_of 2 jobs fresh)
load_test-Ends_example =
    load_test-Ends env conditional_update (some 1) name_of 2 jobs (λ n. pos 0) fresh empty-IsSound
