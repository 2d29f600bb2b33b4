-- ===== src/Settings/Bounds.antt =====
-- The size of the connection pool, and the strategy that a server runs.
use idem_ledger.Base.{
  ◌^◌, ◌-◌, ◌≡◌, refl, arith, String, Bool, true, false, Option, none, some, if◌then◌else◌, str_eq,
}
use idem_ledger.Base.Int.{ℤ, pos, ◌≤ℤ◌}
use idem_ledger.Settings.{default_pool_max_conns, if_positive, max_conns}

module _ (getenv : String → String) (parse_int32 : String → Option ℤ)
    (fits : (s : String) (n : ℤ) → parse_int32 s ≡ some n → n ≤ℤ pos (2 ^ 31 - 1)) where
  bounded :
      (s : String) (o : Option ℤ)
      → parse_int32 s ≡ o
      → (pos 1 ≤ℤ if_positive getenv parse_int32 o)
        × (if_positive getenv parse_int32 o ≤ℤ pos (2 ^ 31 - 1))
  bounded s none h = (omega arith, omega arith)
  bounded s (some n) h = let top = fits s n h in ground arith

  -- Where the parsed numbers fit an int32, the pool has between 1 and 2 ^ 31 - 1 connections, whatever the
  -- environment says, so the conversion to int32 does not change the number.
  pub max_conns_bounds :
      (pos 1 ≤ℤ max_conns getenv parse_int32) × (max_conns getenv parse_int32 ≤ℤ pos (2 ^ 31 - 1))
  unfolding max_conns
  max_conns_bounds = choose (str_eq (getenv "DATABASE_POOL_MAX_CONNS") "")
    where
      choose :
          (b : Bool)
          → let n =
              if b
              then default_pool_max_conns getenv parse_int32
              else if_positive getenv parse_int32
                  (parse_int32 (getenv "DATABASE_POOL_MAX_CONNS")) in
            (pos 1 ≤ℤ n) × (n ≤ℤ pos (2 ^ 31 - 1))
      choose true = (omega arith, omega arith)
      choose false = bounded (getenv "DATABASE_POOL_MAX_CONNS") _ refl
