-- ===== src/Lib.antt =====
-- A verification library for IdemLedger, a ledger service in Go over PostgreSQL: transfers between
-- accounts with idempotency keys, double-entry postings, an outbox of webhook events, and a
-- reconciliation run.
--
-- The parts, and the files that model them.
-- Base: names and lemmas that all share. Base.Rows holds what SQL does with the rows of a table
--   (WHERE, UPDATE, EXISTS, COUNT, LIMIT), Base.Int the integers over the native numbers.
-- Db: the tables (migrations/*.up.sql) as lists of records, and the errors as values.
-- Server: a session with the database (pgx). An action takes a `World` and gives a result and a
--   `World`. `committed` is what other sessions see, `db` what the open transaction sees. `begin`
--   copies the first to the second, `commit` the second to the first, and `in_transaction` rolls back.
--   `tape` is the list of the answers that the server and the network will give: a call may succeed,
--   fail with any error and no effect, or be lost after its effect. The program does not choose the
--   tape, which is an argument of the theorems. Each answer also brings the two clocks. A used-up
--   tape answers every call.
-- Idempotency: internal/idempotency/idempotency.go. `claim_in_tx` is ClaimInTx, `complete` Complete.
-- Store.Accounts: internal/store/accounts.go, and Store.History its GetPostings.
-- Store.Outbox: internal/store/outbox.go.
-- Ledger: internal/ledger/transfer.go. `execute` is Execute, `execute_once` executeOnce,
--   `exec_tx_with_debit` execTxWithDebit. Ledger.Rows holds its SQL statements with the constraints
--   that they meet, Ledger.Debit the debit strategies, Ledger.Strategies ExecuteWithForUpdate and
--   ExecuteOptimistic (internal/ledger/strategies.go).
-- Ledger.Effect, Posted, Keyed, Attempt: what each stage of a transfer does to the tables if it
--   succeeds. Ledger.Atomic: the statements of a transfer before its COMMIT. Server.Calls,
--   Idempotency.Calls, Ledger.Calls, Ends: the calls of the server, and the end of the loops.
--   Ledger.Execute, ForUpdate, Optimistic: how a call may end. Ledger.Sound: the invariant.
--   Ledger.Covers, Journal, Ready, Succeeds, LockedSucceeds, Movable, OptimisticSucceeds, Refusals,
--   Refuses: a transfer in a session whose calls are all answered.
-- Recon: internal/recon/recon.go. `run` is Run, `is_clean` the verdict of Report, Recon.Report its
--   text, and `command` cmd/recon/main.go with its exit status.
-- Outbox: internal/outbox/poller.go. `run_poller` is Run, `poll` poll, `deliver` deliver.
--   Outbox.Steps: what the poller's statements may do to the outbox, as a step relation.
--   Outbox.Due, Lease: pollers side by side, as an explicit sequence of claims and marks.
-- Api: cmd/api/main.go, the handlers. `post_transfers` is POST /transfers, which takes the key and
--   the body. Api.Accounts holds POST /accounts and the handlers that read, Api.Webhook
--   validateWebhookURL with an IP address as the number of its 16 bytes. Server.Reads: a call that
--   only reads.
-- Guarantees: histories of calls, and what the parts give together. Guarantees.Effects is the effect of
--   one call on the tables, Guarantees.Contract an abstract ledger of balances and answered keys
--   with the operations on it, Guarantees.Once a key with any history of calls in between,
--   Guarantees.Announced and Keys the outbox and the keys against the transfers. Guarantees.Rivals: the
--   calls that other sessions commit between the SELECT and the UPDATE of ExecuteOptimistic.
-- LoadTest: cmd/loadtest/main.go. `load_test` is its main, `seed_from` seedAccounts, `requests` and
--   `run_transfers` runTransfers, `check_invariants` checkInvariants. The jobs are one sequence. Where the
--   drivers read rows without rows.Err(), an argument says where the rows end if the query fails.
-- ChaosTest: cmd/chaostest/main.go. `chaos_test` is its main, with the polls and looks of its wait
--   as one sequence. ChaosTest.Deliveries: the server of its merchant, and the verdict.
-- Settings: internal/config/config.go, internal/store/db.go (the size of the pool).
-- Tests: runs of the program on small inputs, and the theorems at such inputs.
--
-- How the parts interact: the handler calls a transfer; a transfer calls the idempotency keys and the
-- stores in its own transaction, and writes the event that the poller later claims and posts. The
-- reconciliation reads what the transfers have written. The load test calls transfers and makes the same
-- checks for its own accounts; the chaos test runs the poller.
--
-- Conventions. A `continue` of a retry loop is the error `again`, which only the loop catches. A
-- time is in milliseconds. New rows stand first in a table, but for the outbox. A row id is a
-- natural number, since the code only compares it. uuid.New, json.Marshal and the text that a JSONB
-- column gives back are the fields of `Env`, and encoding/json and SHA-256 the parameters of
-- `hash_request`. The handlers take the decoding of a body, strconv.ParseInt, strings.TrimSpace and
-- strings.ToUpper as parameters too, and the validation of a webhook address url.Parse,
-- net.LookupHost and net.ParseIP, as the fields of `Resolver`. The merchants' answers and the random
-- part of a backoff are the fields of `Merchant`.
--
-- Bounds. A retry loop makes at most 5 attempts, as in the source, and 3 for the mark of a delivery. The
-- number is the argument that `attempts` and `tries` recurse on, so no fuel is added. Balances are
-- checked against the range of BIGINT wherever a statement writes one.
--
-- Not modelled: two sessions whose statements interleave, beyond Guarantees.Rivals and Outbox.Lease
-- (a call of another session falls between two calls, and a row lock blocks nobody), contexts and
-- deadlines, the padding of CHAR(3) and the trailing spaces that it drops, the overflow of the
-- version and of the identity columns, the start and the shutdown of the server, the ticker of the
-- poller, the opening of the pool, and the latencies that the load test measures.
pub mod Base
pub mod Db
pub mod Server
pub mod Idempotency
pub mod Store
pub mod Ledger
pub mod Recon
pub mod Guarantees
pub mod Outbox
pub mod Tests
pub mod Api
pub mod LoadTest
pub mod ChaosTest
pub mod Settings
