-- ===== src/Tests/Integrity.antt =====
-- The theorems on reconciliation, at the ledger that a transfer between funded accounts leaves.
use idem_ledger.Base.{
  some, ℕ, ◌≤◌, ◌≡◌, ◌≢◌, ◌↔◌, refl, ap, true, [], ◌∷◌, arith, All, count_rows, exists_row,
  where_rows,
}
use idem_ledger.Base.Int.{pos, ◌+ℤ◌, ◌-ℤ◌}
use idem_ledger.Db.{ok}
use idem_ledger.Server.{World, ◌>>=◌, on_pool}
use idem_ledger.Ledger.{execute}
use idem_ledger.Ledger.Sound.{IsSound}
use idem_ledger.Recon.{Findings, sum_all, sum_for, run, is_clean}
use idem_ledger.Recon.Report.{drift_none, last, report}
use idem_ledger.Recon.Exact.{IsReconciled, run_exact}
use idem_ledger.Guarantees.{Reachable, started, called, executes}
use idem_ledger.Guarantees.Reconciles.{run_finds}
use idem_ledger.Tests.Data.{env, start, request, two_accounts, seed}
use idem_ledger.Idempotency.{claim_in_tx, complete}
use idem_ledger.Ledger.Rows.{
  fits_bigint, select_currencies, update_accounts, insert_transfer, insert_postings,
}
use idem_ledger.Store.Accounts.{get_webhook_url_in_tx}
use idem_ledger.Store.Outbox.{insert_outbox_event_in_tx}
use idem_ledger.Server.{in_tx, begin, commit, draw, map_error, in_transaction}
use idem_ledger.Base.{select, update}

seed-unopened : (n : ℕ) → 3 ≤ n → seed n ≡ pos 0
seed-unopened n h = ground arith

two_accounts-IsSound : IsSound seed two_accounts
unfolding sum_all sum_for ◌+ℤ◌
two_accounts-IsSound = record {
  ids = (omega arith, (omega arith, tt));
  known = tt;
  numbered = tt;
  conserved = refl;
  integral = (refl, (refl, tt));
  unopened = seed-unopened;
  nonneg = (omega arith, (omega arith, tt));
}

-- What a run finds after a transfer of 200.
abbrev once : World
once = (execute env (request (pos 200) "k") start).1

once-Reachable : Reachable env two_accounts once.committed
once-Reachable = called started (executes (request (pos 200) "k") start refl refl)

abbrev found : Findings
found = record {
  conservation_ok = true;
  conservation_sum = pos 0;
  drift_accounts = record { id = 1; balance = pos 300; postings_sum = pos 0 -ℤ pos 200 } ∷ [];
  negative_count = 0;
}

finds-once : (run once).0 ≡ ok found
unfolding execute ◌>>=◌ in_tx begin commit draw map_error in_transaction select exists_row update
    count_rows fits_bigint ◌+ℤ◌ ◌-ℤ◌ claim_in_tx select_currencies update_accounts insert_transfer
    insert_postings get_webhook_url_in_tx insert_outbox_event_in_tx complete run on_pool sum_all
    sum_for where_rows
finds-once = refl

run-once : run once ≡ (ok found, (run once).1)
run-once = ap (λ r. (r, (run once).1)) finds-once

run_finds_example :
    (found.conservation_ok ≡ true)
    × (found.negative_count ≡ 0)
    × All
        (λ x. (seed x.id ≢ pos 0) × (x.balance ≡ seed x.id +ℤ x.postings_sum))
        found.drift_accounts
run_finds_example = run_finds seed once two_accounts-IsSound once-Reachable refl run-once

run_exact_example :
    ((is_clean found ≡ true) ↔ IsReconciled once.committed)
    × ((last (report (λ n. "n") found) ≡ some drift_none) ↔ IsReconciled once.committed)
run_exact_example = run_exact (λ n. "n") once run-once
