-- ===== src/Ledger/Strategies.antt =====
-- internal/ledger/strategies.go: `ExecuteWithForUpdate` (Fix B) and `ExecuteOptimistic` (Fix C).
-- One session at a time runs here, so a row lock blocks nobody; the order of the locks is modelled.
use idem_ledger.Base.{ℕ, suc, Bool, ◌&&◌, ◌||◌, List, [], ◌∷◌, ◌==◌, ltb, if◌then◌else◌, where_rows}
use idem_ledger.Base.Int.{ℤ, ltb_ℤ, ◌-ℤ◌}
use idem_ledger.Db.{
  Account, Transfer, ok, again, account_not_found, insufficient_funds, key_unsupported,
}
use idem_ledger.Server.{
  Action, Sql, pure, raise_if, ◌>>=◌, ◌>>◌, in_tx, begin, commit, in_transaction,
}
use idem_ledger.Store.Accounts.{by_id, or_raise, select_account}
use idem_ledger.Idempotency.{Claim, won, replay}
use idem_ledger.Ledger.Rows.{credit_row, update_accounts}
use idem_ledger.Ledger.Debit.{debit_select_for_update}
use idem_ledger.Ledger.{
  Env, Request, Answer, created, replayed, retriable, attempts, is_keyed, claim_request,
  exec_tx_with_debit, record_response, insert_transfer_and_postings,
}

-- lo, hi := from, to; if lo > hi { swap }
unfoldable pub lock_order : ℕ → ℕ → ℕ × ℕ
lock_order from to = if ltb to from then (to, from) else (from, to)

unfoldable pub insert_id : ℕ → List ℕ → List ℕ
insert_id i [] = i ∷ []
insert_id i (j ∷ ids) = let rest = insert_id i ids in if ltb j i then j ∷ rest else i ∷ j ∷ ids

-- ORDER BY id
unfoldable pub ids_ascending : List Account → List ℕ
unfolding insert_id
ids_ascending [] = []
ids_ascending (a ∷ rows) = insert_id a.id (ids_ascending rows)

-- WHERE id IN ($1, $2)
abbrev pub is_one_of : ℕ → ℕ → Account → Bool
is_one_of i j a = by_id i a || by_id j a

-- SELECT id FROM accounts WHERE id IN ($1, $2) ORDER BY id FOR UPDATE: the ids in the order of the locks.
unfoldable pub lock_accounts : ℕ × ℕ → Sql (List ℕ)
unfolding ids_ascending
lock_accounts (lo, hi) now d = ok (ids_ascending (where_rows (is_one_of lo hi) d.accounts), d)

-- UPDATE … version = version + 1 WHERE id = $2 AND version = $3
abbrev pub has_version : ℕ → ℕ → Account → Bool
has_version id version a = by_id id a && a.version == version

abbrev pub debit_versioned_row : ℤ → Account → Account
debit_versioned_row amount a = record a { balance = a.balance -ℤ amount; version = suc a.version }

-- The debit of ExecuteOptimistic, after `a` was read.
abbrev pub versioned_debit : Request → Account → Sql ℕ
versioned_debit req a =
    update_accounts (has_version req.from_account a.version) (debit_versioned_row req.amount)

abbrev pub max_retries : ℕ
max_retries = 5

module _ (env : Env) where
  unfoldable pub for_update_work : Request → Claim → Action Answer
  unfolding lock_order lock_accounts exec_tx_with_debit debit_select_for_update record_response
  for_update_work req (replay stored) = pure (replayed stored)
  for_update_work req won = do
    retriable (in_tx (lock_accounts (lock_order req.from_account req.to_account)))
    t ← retriable (exec_tx_with_debit env debit_select_for_update req)
    record_response env req t
    retriable commit
    pure (created t)

  unfoldable pub for_update_once : Request → Action Answer
  unfolding for_update_work claim_request
  for_update_once req =
      in_transaction (begin >> (retriable (claim_request env req) >>= for_update_work req))

  -- ExecuteWithForUpdate: an error at Begin, at the response or at json.Marshal is not retried.
  unfoldable pub execute_with_for_update : Request → Action Answer
  unfolding for_update_once attempts
  execute_with_for_update req = attempts max_retries (for_update_once req)

  -- The statements that follow the check of the balance that was read.
  unfoldable pub optimistic_update : Request → Account → Action Transfer
  unfolding insert_transfer_and_postings
  optimistic_update req a = do
    n ← retriable (in_tx (versioned_debit req a))
    raise_if (n == 0) again
    m ← retriable (in_tx (update_accounts (by_id req.to_account) (credit_row req.amount)))
    raise_if (m == 0) account_not_found
    insert_transfer_and_postings env req

  -- The statements between Begin and Commit.
  unfoldable pub optimistic_transfer : Request → Action Transfer
  unfolding optimistic_update
  optimistic_transfer req = do
    row ← in_tx (select_account req.from_account)
    a ← or_raise row account_not_found
    raise_if (ltb_ℤ a.balance req.amount) insufficient_funds
    optimistic_update req a

  unfoldable pub optimistic_work : Request → Action Transfer
  unfolding optimistic_transfer
  optimistic_work req = do begin; t ← optimistic_transfer req; retriable commit; pure t

  unfoldable pub optimistic_once : Request → Action Transfer
  unfolding optimistic_work
  optimistic_once req = in_transaction (optimistic_work req)

  -- ExecuteOptimistic
  unfoldable pub execute_optimistic : Request → Action Transfer
  unfolding optimistic_once attempts
  execute_optimistic req = do
    raise_if (is_keyed req) key_unsupported
    attempts max_retries (optimistic_once req)
