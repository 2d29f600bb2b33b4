-- ===== src/Tests/Drivers.antt =====
-- The chaos test, the reconciliation command and the settings, at small inputs.
use idem_ledger.ChaosTest.Deliveries.{serve, duplicates_of, passes, AllDistinct, passes-AllDistinct}
use idem_ledger.Base.{
  ◌↔◌, ◌+◌, length, true, refl, ◌^◌, ◌-◌, ◌≡◌, arith, String, Option, some, none, [], ◌∷◌,
  if◌then◌else◌, str_eq,
}
use idem_ledger.Base.Int.{ℤ, pos, ◌≤ℤ◌}
use idem_ledger.Db.{empty_db}
use idem_ledger.Server.{World, Reply, fine, fails, network}
use idem_ledger.Recon.{command}
use idem_ledger.Recon.Command.{Exits, command-Exits}
use idem_ledger.Outbox.{Merchant, answered, ticked, cancelled}
use idem_ledger.ChaosTest.{chaos_test, looks, poller_ticks}
use idem_ledger.ChaosTest.Losses.{Ends, chaos_test-Ends}
use idem_ledger.Settings.{max_conns}
use idem_ledger.Settings.Bounds.{max_conns_bounds}
use idem_ledger.Tests.Data.{start, world}

-- A merchant that always answers 200.
abbrev merchant : Merchant
merchant = record {
  post = λ e. answered 200;
  status_text = λ code. "200 OK";
  bad_target = λ text. text;
  jitter = λ e. 0;
}

abbrev good : Reply
good = record { outcome = fine; now = 0; wall = 0 }

abbrev broken : Reply
broken = record { outcome = fails network; now = 0; wall = 0 }

-- The outbox is emptied and two events are seeded; then the claim of the first poll breaks.
abbrev crash : World
crash = world empty_db (good ∷ good ∷ good ∷ good ∷ good ∷ broken ∷ [])

chaos_test-Ends_example : Ends none 2 (
    chaos_test merchant none
      (λ n. n)
      "{}"
      "http://merchant"
      2
      (ticked ∷ cancelled ∷ [])
      (poller_ticks ∷ looks ∷ [])
      crash)
chaos_test-Ends_example =
    chaos_test-Ends merchant none (λ n. n) "{}" "http://merchant" 2 (ticked ∷ cancelled ∷ [])
      (poller_ticks ∷ looks ∷ []) crash

command-Exits_example : Exits start (command start)
command-Exits_example = command-Exits start

abbrev getenv : String → String
getenv name = if str_eq name "DATABASE_POOL_MAX_CONNS" then "100" else ""

abbrev parse_int32 : String → Option ℤ
parse_int32 text = if str_eq text "100" then some (pos 100) else none

parse_int32-fits : (s : String) (n : ℤ) → parse_int32 s ≡ some n → n ≤ℤ pos (2 ^ 31 - 1)
parse_int32-fits s n h = ground arith

max_conns_bounds_example :
    (pos 1 ≤ℤ max_conns getenv parse_int32) × (max_conns getenv parse_int32 ≤ℤ pos (2 ^ 31 - 1))
max_conns_bounds_example = max_conns_bounds getenv parse_int32 parse_int32-fits

-- Event 7 comes twice.
passes-AllDistinct_example :
    (duplicates_of (serve (7 ∷ 8 ∷ 7 ∷ []) []) + length (serve (7 ∷ 8 ∷ 7 ∷ []) []) ≡ 3)
    × ((passes (pos 0) (duplicates_of (serve (7 ∷ 8 ∷ 7 ∷ []) [])) ≡ true)
        ↔ ((pos 0 ≡ pos 0) × AllDistinct (7 ∷ 8 ∷ 7 ∷ [])))
passes-AllDistinct_example = passes-AllDistinct (pos 0) (7 ∷ 8 ∷ 7 ∷ [])

counts_one_duplicate : duplicates_of (serve (7 ∷ 8 ∷ 7 ∷ []) []) ≡ 1
unfolding duplicates_of serve
counts_one_duplicate = refl
