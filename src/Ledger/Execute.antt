-- ===== src/Ledger/Execute.antt =====
-- internal/ledger/transfer.go: how a call of `Execute` may end.
use idem_ledger.Base.{ℕ, ◌≡◌, refl, sym, ◌∙◌, subst, arith}
use idem_ledger.Db.{Db, Transfer, StoredResponse, Result, ok}
use idem_ledger.Server.{World, Action, pure, ◌>>=◌, ◌>>◌, begin, commit, in_transaction}
use idem_ledger.Server.Keeps.{Keeps, keeping, kept_at_end, begin-Keeps, >>=-cases}
use idem_ledger.Server.Transactions.{begin-eq-ok, Committed, commit-Committed, commit_cases}
use idem_ledger.Store.Accounts.Unique.{Below}
use idem_ledger.Idempotency.{Claim, won, replay}
use idem_ledger.Ledger.Rows.{debit_row}
use idem_ledger.Ledger.Debit.{DebitFn, debit_conditional_update}
use idem_ledger.Ledger.Debit.Covered.{IsDebit, debit_conditional_update-IsDebit}
use idem_ledger.Ledger.Atomic.{
  debit_conditional_update-Keeps, exec_tx_with_debit-Keeps, claim_request-Keeps,
  record_response-Keeps,
}
use idem_ledger.Ledger.Posted.{exec_tx_with_debit-Posted}
use idem_ledger.Ledger.Attempt.{
  Commits, Ended, failed, answered, posted, unheard, StoredAnswer, in_transaction-Ended,
  retriable-Ended, attempts-Ended,
}
use idem_ledger.Ledger.Keyed.{
  Claimed, Recorded, Keyed-Commits, claim_request-Claimed, claim_request-IsStored,
  record_response-Recorded,
}
use idem_ledger.Ledger.{
  Env, Request, Answer, created, replayed, claim_request, exec_tx_with_debit, record_response,
  finish_once, execute_once, execute, validate, max_deadlock_retries, retriable, attempts,
}

-- Account ids fall along the list of accounts, below the next one.
abbrev pub HasIds : Db → Type 0
HasIds d = Below d.next_account d.accounts

module _ (env : Env) (req : Request) where
  -- What the call may come to, on committed tables `d`.
  abbrev pub Outcomes : Db → Result Answer × World → Type 0
  Outcomes = Ended env debit_row req created (StoredAnswer req)

  -- The end of a transaction whose COMMIT is `m`.
  respond-Ended :
      (m : World → Result (Unit {0}) × World) (d : Db) (t : Transfer) (w : World)
      → ((v : World) → Committed v (m v))
      → w.committed ≡ d
      → ((v : World) → Recorded env req t w v → Commits env debit_row req t d v.db)
      → Outcomes d ((record_response env req t >> (m >> pure (created t))) w)
  respond-Ended m d t w ends same done =
      >>=-cases (Outcomes d) (record_response env req t) _ w
        (λ e v q. failed e v (kept_at_end w (record_response-Keeps env req t) q ∙ same))
        λ u v q.
          let r = record_response-Recorded env req t w q in
          commit_cases (Outcomes d) (created t) m v (ends v)
            (λ e v' c. failed e v' (c ∙ r.committed ∙ same))
            (λ v' c. posted t v' (subst (Commits env debit_row req t d) (sym c) (done v r)))
            (λ v' c. unheard t v' (subst (Commits env debit_row req t d) (sym c) (done v r)))

  -- The work of a request that has won its claim.
  pub work-Ended :
      (debit : DebitFn) (exec : Action Transfer) (m : Action (Unit {0})) (n : ℕ) (d : Db)
      (w1 w2 : World)
      → IsDebit debit
      → Keeps exec
      → ((v : World) (t : Transfer) (v' : World)
          → exec v ≡ (ok t, v')
          → exec_tx_with_debit env debit req v ≡ (ok t, v'))
      → ((v : World) → Committed v (m v))
      → Below n d.accounts
      → w1.db ≡ d
      → w1.committed ≡ d
      → Claimed env req w1 w2
      → Outcomes d ((exec >>= λ t. record_response env req t >> (m >> pure (created t))) w2)
  work-Ended debit exec m n d w1 w2 is_debit keeps runs ends below seen same c =
      >>=-cases (Outcomes d) exec _ w2
        (λ e v q. failed e v (kept_at_end w2 keeps q ∙ c.committed ∙ same))
        λ t v q.
          let rows : d.accounts ≡ w2.db.accounts = ground arith in
          let b : Below n w2.db.accounts = subst (Below n) rows below in
          let p = exec_tx_with_debit-Posted env debit req n w2 is_debit b (runs w2 t v q) in
          respond-Ended m d t v ends (p.2 ∙ c.committed ∙ same) λ v' r.
            subst (λ x. Commits env debit_row req t x v'.db) seen
              (Keyed-Commits env req debit_row t w1 w2 v v' c p.0 p.1 r)

  -- The claim comes first; a stored response ends the call.
  pub claim_then-Ended :
      (claim : Action Claim) (finish : Claim → Action Answer) (n : ℕ) (d : Db) (w1 : World)
      → Keeps claim
      → ((v : World) (c : Claim) (v' : World)
          → claim v ≡ (ok c, v')
          → claim_request env req v ≡ (ok c, v'))
      → ((s : StoredResponse) (v : World) → finish (replay s) v ≡ (ok (replayed s), v))
      → ((w2 : World) → Claimed env req w1 w2 → Outcomes d (finish won w2))
      → w1.db ≡ d
      → w1.committed ≡ d
      → Outcomes d ((claim >>= finish) w1)
  claim_then-Ended claim finish n d w1 keeps runs reply work seen same =
      >>=-cases (Outcomes d) claim finish w1 (λ e v q. failed e v (kept_at_end w1 keeps q ∙ same))
        go
    where
      go : (c : Claim) (v : World) → claim w1 ≡ (ok c, v) → Outcomes d (finish c v)
      go won v q = work v (claim_request-Claimed env req w1 (runs w1 won v q))
      go (replay s) v q =
          let i = claim_request-IsStored env req w1 d seen (runs w1 (replay s) v q) in
          subst (Outcomes d) (sym (reply s v)) (answered (replayed s) v (i.1 ∙ same) i.0)

  finish_once-Ended :
      (n : ℕ) (d : Db) (w1 w2 : World)
      → Below n d.accounts
      → w1.db ≡ d
      → w1.committed ≡ d
      → Claimed env req w1 w2
      → Outcomes d (finish_once env req won w2)
  unfolding finish_once
  finish_once-Ended n d w1 w2 =
      work-Ended debit_conditional_update (exec_tx_with_debit env debit_conditional_update req)
        commit n d w1 w2 debit_conditional_update-IsDebit
        (exec_tx_with_debit-Keeps env debit_conditional_update req debit_conditional_update-Keeps)
        (λ v t v' q. q) commit-Committed

  finish_once-replay :
      (s : StoredResponse) (v : World) → finish_once env req (replay s) v ≡ (ok (replayed s), v)
  unfolding finish_once
  finish_once-replay s v = refl

  -- A transaction that begins sees the committed tables.
  pub begun-Ended :
      (m : Action Answer) (w : World)
      → ((w1 : World)
          → w1.db ≡ w.committed
          → w1.committed ≡ w.committed
          → Outcomes w.committed (m w1))
      → Outcomes w.committed (in_transaction (begin >> m) w)
  begun-Ended m w h =
      in_transaction-Ended env debit_row req created (StoredAnswer req) _ w w.committed (
        >>=-cases (Outcomes w.committed) begin (λ _. m) w
          (λ e v q. failed e v (kept_at_end w begin-Keeps q))
          (λ u v q. let (seen, same) = begin-eq-ok w q in h v seen same))

  -- One attempt of Fix A.
  pub execute_once-Ended :
      (w : World)
      → Below w.committed.next_account w.committed.accounts
      → Outcomes w.committed (execute_once env req w)
  unfolding execute_once
  execute_once-Ended w b = begun-Ended _ w λ w1 seen same.
      claim_then-Ended (claim_request env req) (finish_once env req) w.committed.next_account
        w.committed w1 (claim_request-Keeps env req) (λ v c v' q. q) finish_once-replay
        (λ w2. finish_once-Ended w.committed.next_account w.committed w1 w2 b seen same) seen same

  validate-Keeps : Keeps (validate req)
  unfolding validate
  validate-Keeps = search (keeping)

  pub loop-Ended :
      (m : Action Answer) (n : ℕ) (w : World)
      → ((v : World) → HasIds v.committed → Outcomes v.committed (m v))
      → HasIds w.committed
      → Outcomes w.committed (attempts n m w)
  loop-Ended m n w once b =
      attempts-Ended env debit_row req created (StoredAnswer req) HasIds m once n w b

  -- On committed tables whose account ids are distinct and below the sequence, and whatever the server
  -- answers: `Execute` returns an error and commits nothing; or it returns the response stored under the
  -- request's key and hash and commits nothing; or it commits exactly one transfer (amount positive, two
  -- different existing accounts, the first covering the amount), which is the two balances moved, the
  -- row, its two postings, its outbox event and its key done, and returns that transfer, or a connection
  -- error if the answer to the COMMIT was lost.
  pub execute-Ended : (w : World) → HasIds w.committed → Outcomes w.committed (execute env req w)
  unfolding execute
  execute-Ended w b =
      >>=-cases (Outcomes w.committed) (validate req) _ w
        (λ e v q. failed e v (kept_at_end w validate-Keeps q))
        λ u v q.
          let same = kept_at_end w validate-Keeps q in
          subst
            (λ d. Outcomes d (attempts max_deadlock_retries (retriable (execute_once env req)) v))
            same
            (loop-Ended (retriable (execute_once env req)) max_deadlock_retries v
              (λ v' b'.
                retriable-Ended env debit_row req created (StoredAnswer req) (execute_once env req)
                  v' v'.committed (execute_once-Ended v' b'))
              (subst HasIds (sym same) b))
