-- ===== src/LoadTest.antt =====
-- cmd/loadtest/main.go: seeded accounts, transfers between random ones, and the check after the run.
-- The jobs of all workers are one sequence, in the order in which the transfers end.
pub mod Seeds
pub mod Checks
pub mod Clean
pub mod Receivers
use idem_ledger.Base.{
  ℕ, zero, suc, ◌+◌, String, Bool, true, false, not, ◌&&◌, ◌||◌, Option, none, some, List, [], ◌∷◌,
  ◌==◌, if◌then◌else◌, leb, count_rows, exists_row,
}
use idem_ledger.Base.Int.{ℤ, pos, ◌-ℤ◌, eqb_ℤ}
use idem_ledger.Db.{Account, Posting, Result, ok, err, Error, insufficient_funds, scan_failed}
use idem_ledger.Server.{World, Action, Sql, pure, raise_if, ◌>>=◌, ◌>>◌, on_pool}
use idem_ledger.Store.Accounts.{by_id, create_account}
use idem_ledger.Ledger.{Env, Request, execute}
use idem_ledger.Ledger.Rows.{fits_bigint, update_accounts}
use idem_ledger.Ledger.Strategies.{execute_with_for_update, execute_optimistic}
use idem_ledger.Recon.{sum_for, select_total, is_negative}
use idem_ledger.Api.{Strategy, conditional_update, select_for_update, optimistic}

-- seedBalance
abbrev pub seed_balance : ℤ
seed_balance = pos 10000000

abbrev pub funded_row : Account → Account
funded_row a = record a { balance = seed_balance }

-- `name_of` is fmt.Sprintf("load-acct-%d", i).
module _ (name_of : ℕ → String) where
  unfoldable pub seed_account : ℕ → Action ℕ
  unfolding create_account update_accounts
  seed_account i = do
    acc ← create_account (name_of i) "INR" none
    on_pool (update_accounts (by_id acc.id) funded_row)
    pure acc.id

  unfoldable pub seed_from : ℕ → ℕ → Action (List ℕ)
  unfolding seed_account
  seed_from i zero = pure []
  seed_from i (suc n) = do id ← seed_account i; ids ← seed_from (i + 1) n; pure (id ∷ ids)

  -- seedAccounts; log.Fatalf is the error.
  abbrev pub seed_accounts : ℕ → Action (List ℕ)
  seed_accounts n = seed_from 0 n

-- What rng.Intn gives to one job: for the sender, for the receiver as often as it is asked, and for the amount.
pub record Draws : Type 0 where
  pub sender : ℕ
  pub receivers : List ℕ
  pub amount : ℕ

pub get_elem? : List ℕ → ℕ → Option ℕ
get_elem? [] k = none
get_elem? (id ∷ ids) zero = some id
get_elem? (id ∷ ids) (suc k) = get_elem? ids k

abbrev pub unless_same : ℕ → Option ℕ → Option ℕ → Option ℕ
unless_same sender none rest = none
unless_same sender (some id) rest = if id == sender then rest else some id

-- for to == from { … }; none if the draws are used up.
unfoldable pub choose_receiver : List ℕ → ℕ → List ℕ → Option ℕ
choose_receiver ids sender [] = none
choose_receiver ids sender (k ∷ ks) =
    let rest = choose_receiver ids sender ks in unless_same sender (get_elem? ids k) rest

-- amount := rng.Intn(500) + 1; no idempotency key.
abbrev pub transfer_request : ℕ → ℕ → ℕ → Request
transfer_request sender receiver amount = record {
  from_account = sender;
  to_account = receiver;
  amount = pos (amount + 1);
  currency = "INR";
  idempotency_key = "";
  request_hash = "";
}

abbrev pub request_between : ℕ → ℕ → Option ℕ → Option Request
request_between sender amount none = none
request_between sender amount (some receiver) = some (transfer_request sender receiver amount)

abbrev pub request_from : List ℕ → Draws → Option ℕ → Option Request
request_from ids x none = none
request_from ids x (some sender) =
    request_between sender x.amount (choose_receiver ids sender x.receivers)

unfoldable pub pick_request : List ℕ → Draws → Option Request
unfolding choose_receiver get_elem?
pick_request ids x = request_from ids x (get_elem? ids x.sender)

abbrev pub both : Option Request → Option (List Request) → Option (List Request)
both (some req) (some reqs) = some (req ∷ reqs)
both _ _ = none

unfoldable pub requests : List ℕ → List Draws → Option (List Request)
unfolding pick_request
requests ids [] = some []
requests ids (x ∷ xs) = both (pick_request ids x) (requests ids xs)

-- err != nil && err != ledger.ErrInsufficientFunds
abbrev pub count_error : {A : Type 0} → Result A → ℕ
count_error (ok a) = 0
count_error (err insufficient_funds) = 0
count_error (err e) = 1

-- checkInvariants: the three numbers that it prints.
pub record Report : Type 0 where
  pub sum_postings : ℤ
  pub drift_count : ℕ
  pub neg_count : ℕ

abbrev pub is_seeded : List ℕ → Account → Bool
is_seeded ids a = exists_row (λ id. id == a.id) ids

-- HAVING a.balance - COALESCE(SUM(p.amount),0) <> $2
abbrev pub drifts : List ℕ → List Posting → Account → Bool
drifts ids ps a = is_seeded ids a && not (eqb_ℤ (a.balance -ℤ sum_for a.id ps) seed_balance)

unfoldable pub count_drifts : List ℕ → Sql ℕ
unfolding sum_for ◌-ℤ◌ exists_row count_rows
count_drifts ids now d = ok (count_rows (drifts ids d.postings) d.accounts, d)

abbrev pub is_overdrawn : List ℕ → Account → Bool
is_overdrawn ids a = is_seeded ids a && is_negative a

unfoldable pub count_overdrawn : List ℕ → Sql ℕ
unfolding exists_row count_rows
count_overdrawn ids now d = ok (count_rows (is_overdrawn ids) d.accounts, d)

-- rows.Err() is not read: a failure that shows as an error of Query is fatal (none), one that shows only as an
-- early end of the rows leaves the count of those that came before it.
abbrev pub or_seen : Option ℕ → ℕ → Result ℕ → Result ℕ
or_seen cut there (ok n) = ok n
or_seen none there (err e) = err e
or_seen (some k) there (err e) = ok (if leb k there then k else there)

unfoldable pub query_drifts : Option ℕ → List ℕ → Action ℕ
unfolding count_drifts
query_drifts cut ids w =
    let there = count_rows (drifts ids w.committed.postings) w.committed.accounts in
    let (r, w') = on_pool (count_drifts ids) w in (or_seen cut there r, w')

unfoldable pub check_invariants : Option ℕ → List ℕ → Action Report
unfolding select_total query_drifts count_overdrawn fits_bigint
check_invariants cut ids = do
  total ← on_pool select_total
  raise_if (not (fits_bigint total)) scan_failed
  drift ← query_drifts cut ids
  negative ← on_pool (count_overdrawn ids)
  pure (record { sum_postings = total; drift_count = drift; neg_count = negative })

-- "INVARIANT VIOLATIONS DETECTED"
abbrev pub is_violated : Report → Bool
is_violated r =
    not (eqb_ℤ r.sum_postings (pos 0)) || not (r.drift_count == 0) || not (r.neg_count == 0)

module _ (env : Env) (strategy : Strategy) where
  -- One job of runTransfers: whether it counts as an error.
  abbrev pub run_by : Strategy → Request → World → ℕ × World
  run_by select_for_update req w =
      let (r, w') = execute_with_for_update env req w in (count_error r, w')
  run_by optimistic req w = let (r, w') = execute_optimistic env req w in (count_error r, w')
  run_by conditional_update req w = let (r, w') = execute env req w in (count_error r, w')

  unfoldable pub run_transfers : List Request → World → ℕ × World
  unfolding execute execute_with_for_update execute_optimistic
  run_transfers [] w = (0, w)
  run_transfers (req ∷ reqs) w =
      let (n, w') = run_by strategy req w in
      let (more, w'') = run_transfers reqs w' in (n + more, w'')

  abbrev pub run_and_check :
      Option ℕ → List ℕ → Option (List Request) → World → Option (Result Report × World)
  run_and_check cut ids none w = none
  run_and_check cut ids (some reqs) w = some (check_invariants cut ids (run_transfers reqs w).1)

  -- main: seed `n` accounts, run the jobs, check; none if a job finds no receiver.
  unfoldable pub load_test :
      Option ℕ → (ℕ → String) → ℕ → List Draws → World → Option (Result Report × World)
  unfolding seed_from requests run_transfers check_invariants
  load_test cut name_of n jobs w =
      let (r, w') = seed_accounts name_of n w in
      elim r [ ok ids ↦ run_and_check cut ids (requests ids jobs) w' | err e ↦ some (err e, w') ]
