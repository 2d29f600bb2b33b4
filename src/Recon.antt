-- ===== src/Recon.antt =====
-- internal/recon/recon.go and cmd/recon: the integrity checks of the ledger.
pub mod Report
pub mod Exact
pub mod Command
use idem_ledger.Base.{
  ℕ, ◌+◌, String, Bool, not, ◌&&◌, List, [], ◌∷◌, ◌==◌, if◌then◌else◌, length, exists_row,
  count_rows, where_rows, map,
}
use idem_ledger.Base.Int.{ℤ, pos, ◌+ℤ◌, ◌-ℤ◌, ltb_ℤ, eqb_ℤ}
use idem_ledger.Db.{Db, Account, Posting, Result, ok, err, scan_failed}
use idem_ledger.Server.{World, Action, Sql, pure, raise_if, ◌>>=◌, ◌>>◌, on_pool}
use idem_ledger.Ledger.Rows.{fits_bigint}

-- SUM(amount), of all postings and of one account's
unfoldable pub sum_all : List Posting → ℤ
sum_all [] = pos 0
sum_all (p ∷ ps) = p.amount +ℤ sum_all ps

unfoldable pub sum_for : ℕ → List Posting → ℤ
sum_for id [] = pos 0
sum_for id (p ∷ ps) =
    let rest = sum_for id ps in if p.account_id == id then p.amount +ℤ rest else rest

pub record DriftAccount : Type 0 where
  pub id : ℕ
  pub balance : ℤ
  pub postings_sum : ℤ

-- Result
pub record Findings : Type 0 where
  pub conservation_ok : Bool
  pub conservation_sum : ℤ
  pub drift_accounts : List DriftAccount
  pub negative_count : ℕ

unfoldable pub select_total : Sql ℤ
select_total now d = ok (sum_all d.postings, d)

-- HAVING a.balance <> COALESCE(SUM(p.amount), 0)
abbrev pub has_drift : List Posting → Account → Bool
has_drift ps a = not (eqb_ℤ a.balance (sum_for a.id ps))

abbrev pub drift_of : List Posting → Account → DriftAccount
drift_of ps a = record { id = a.id; balance = a.balance; postings_sum = sum_for a.id ps }

unfoldable pub select_drift : Sql (List DriftAccount)
select_drift now d =
    ok (map (drift_of d.postings) (where_rows (has_drift d.postings) d.accounts), d)

abbrev pub is_negative : Account → Bool
is_negative a = ltb_ℤ a.balance (pos 0)

unfoldable pub count_negative : Sql ℕ
count_negative now d = ok (count_rows is_negative d.accounts, d)

-- Run. SUM is a NUMERIC: a value outside int64 cannot be scanned.
unfoldable pub run : Action Findings
unfolding select_total select_drift count_negative
run = do
  total ← on_pool select_total
  raise_if (not (fits_bigint total)) scan_failed
  drift ← on_pool select_drift
  raise_if (exists_row (λ a. not (fits_bigint a.postings_sum)) drift) scan_failed
  negative ← on_pool count_negative
  pure (record {
    conservation_ok = eqb_ℤ total (pos 0);
    conservation_sum = total;
    drift_accounts = drift;
    negative_count = negative;
  })

-- "Drift: none" of Report, and exit status 0 of cmd/recon.
unfoldable pub is_clean : Findings → Bool
is_clean r = r.conservation_ok && length r.drift_accounts == 0 && r.negative_count == 0

-- cmd/recon, where the pool has been opened: log.Fatalf exits with 1.
abbrev pub exit_status : Result Findings → ℕ
exit_status (ok r) = if is_clean r then 0 else 1
exit_status (err e) = 1

unfoldable pub command : World → ℕ × World
unfolding run is_clean
command w = let (r, w') = run w in (exit_status r, w')
