-- ===== src/Ledger/Refuses.antt =====
-- A transfer that cannot be made, in a session whose calls are answered.
use idem_ledger.Base.{
  ℕ, suc, ◌≡◌, ◌≢◌, ◌⊎◌, refl, sym, ◌∙◌, subst, ap, inl, inr, Bool-cases, true, false, len, none,
  some, List, [], ◌∷◌, arith, select, exists_row, if◌then◌else◌,
}
use idem_ledger.Base.Int.{pos, ◌≤ℤ◌, ltb_ℤ}
use idem_ledger.Db.{
  Db, Account, KeyRow, Error, ok, err, again, invalid_amount, same_account, invalid_currency,
  account_not_found, currency_mismatch, insufficient_funds,
}
use idem_ledger.Server.{World, Action, rollback, ◌>>=◌}
use idem_ledger.Server.Fine.{then_do, >>=-stop, begin-calm, map_error-stop, in_transaction-run}
use idem_ledger.Store.Accounts.{by_id}
use idem_ledger.Store.Accounts.Unique.{Below}
use idem_ledger.Idempotency.{won, has_key, claimed_row}
use idem_ledger.Ledger.Debit.{debit_conditional_update}
use idem_ledger.Ledger.Execute.{HasIds}
use idem_ledger.Ledger.Ready.{IsValid, validate-run}
use idem_ledger.Ledger.Succeeds.{claim-run}
use idem_ledger.Ledger.{
  Env, Request, is_keyed, validate, claim_request, exec_tx_with_debit, finish_once, execute_once,
  execute, attempts, retriable, max_deadlock_retries, again_if_conflict,
}
use idem_ledger.Ledger.Refusals.{missing-run, mismatch-run, short-run}

-- Why a request is refused on tables `d`.
pub data Refused (req : Request) (d : Db) : Error → Type 0 where
  no_amount : req.amount ≤ℤ pos 0 → Refused req d invalid_amount
  one_account : pos 1 ≤ℤ req.amount → req.from_account ≡ req.to_account → Refused req d same_account
  bad_code :
      pos 1 ≤ℤ req.amount
      → req.from_account ≢ req.to_account
      → len req.currency ≢ 3
      → Refused req d invalid_currency
  missing :
      IsValid req
      → (select (by_id req.from_account) d.accounts ≡ none)
        ⊎ (select (by_id req.to_account) d.accounts ≡ none)
      → Refused req d account_not_found
  mismatch :
      (a b : Account)
      → IsValid req
      → select (by_id req.from_account) d.accounts ≡ some a
      → select (by_id req.to_account) d.accounts ≡ some b
      → (a.currency ≢ req.currency) ⊎ (b.currency ≢ req.currency)
      → Refused req d currency_mismatch
  too_little :
      (a b : Account)
      → IsValid req
      → select (by_id req.from_account) d.accounts ≡ some a
      → select (by_id req.to_account) d.accounts ≡ some b
      → a.currency ≡ req.currency
      → b.currency ≡ req.currency
      → ltb_ℤ a.balance req.amount ≡ true
      → Refused req d insufficient_funds

-- An error that is not the `continue` ends the loop.
attempts-stop :
    {A : Type 0} (n : ℕ) (m : Action A) (w : World) (e : Error) {v : World}
    → e ≢ again
    → m w ≡ (err e, v)
    → attempts (suc n) m w ≡ (err e, v)
unfolding attempts
attempts-stop n m w again last h = absurd (last refl)
attempts-stop n m w e last h = ground arith

module _ (env : Env) (req : Request) where
  no_amount-run : {w : World} → req.amount ≤ℤ pos 0 → validate req w ≡ (err invalid_amount, w)
  unfolding validate ◌>>=◌
  no_amount-run h = ground arith

  one_account-run :
      {w : World}
      → pos 1 ≤ℤ req.amount
      → req.from_account ≡ req.to_account
      → validate req w ≡ (err same_account, w)
  unfolding validate ◌>>=◌
  one_account-run p h = ground arith

  bad_code-run :
      {w : World}
      → pos 1 ≤ℤ req.amount
      → req.from_account ≢ req.to_account
      → len req.currency ≢ 3
      → validate req w ≡ (err invalid_currency, w)
  unfolding validate ◌>>=◌
  bad_code-run p ne h = ground arith

  -- The keys that the claim leaves, and the tables with them.
  abbrev keys_after : World → List KeyRow
  keys_after w =
      if is_keyed req
      then claimed_row req.idempotency_key req.request_hash w.now ∷ w.db.keys
      else w.db.keys

  abbrev after_claim : World → World
  after_claim w = record w { db = record w.db { keys = keys_after w } }

  claim-run_any :
      (w : World)
      → w.tape ≡ []
      → (is_keyed req ≡ true → exists_row (has_key req.idempotency_key) w.db.keys ≡ false)
      → claim_request env req w ≡ (ok won, after_claim w)
  unfolding claim_request
  claim-run_any w calm fresh = elim (Bool-cases (is_keyed req)) [
    | inl e ↦ claim-run env req w calm e (fresh e) ∙ rw e
    | inr e ↦ rw e
  ]

  -- A refusal of the statements is the refusal of the whole call.
  refusal-run :
      (e : Error) (w : World)
      → w.tape ≡ []
      → (is_keyed req ≡ true → exists_row (has_key req.idempotency_key) w.committed.keys ≡ false)
      → again_if_conflict e ≡ e
      → e ≢ again
      → ((v : World)
          → v.tape ≡ []
          → v.db.accounts ≡ w.committed.accounts
          → v.db.next_account ≡ w.committed.next_account
          → exec_tx_with_debit env debit_conditional_update req v ≡ (err e, v))
      → (w' : World) × (attempts max_deadlock_retries (retriable (execute_once env req)) w
          ≡ (err e, w'))
        × (w'.committed ≡ w.committed)
  unfolding execute_once finish_once
  refusal-run e w calm fresh plain last refused =
      let w1 : World = record w { db = w.committed } in
      let w2 = after_claim w1 in
      let once = in_transaction-run _ w (
        then_do _ _ w (begin-calm w calm) (
          then_do _ _ w1 (claim-run_any w1 calm fresh)
            (>>=-stop _ _ w2 (refused w2 calm refl refl)))) in
      (
        rollback w2,
        attempts-stop 4 _ w e last
            (map_error-stop again_if_conflict _ w once ∙ ap (λ x. (err x, rollback w2)) plain),
        refl,
      )

  -- The outcome of a call that is refused.
  abbrev pub Refuses : Error → World → Type 0
  Refuses e w = (w' : World) × (execute env req w ≡ (err e, w')) × (w'.committed ≡ w.committed)

  guard-run : (e : Error) (w : World) → validate req w ≡ (err e, w) → Refuses e w
  unfolding execute
  guard-run e w h = (w, >>=-stop _ _ w h, refl)

  valid-run :
      (e : Error) (w : World)
      → w.tape ≡ []
      → (is_keyed req ≡ true → exists_row (has_key req.idempotency_key) w.committed.keys ≡ false)
      → IsValid req
      → again_if_conflict e ≡ e
      → e ≢ again
      → ((v : World)
          → v.tape ≡ []
          → v.db.accounts ≡ w.committed.accounts
          → v.db.next_account ≡ w.committed.next_account
          → exec_tx_with_debit env debit_conditional_update req v ≡ (err e, v))
      → Refuses e w
  unfolding execute
  valid-run e w calm fresh valid plain last refused =
      let (w', run, same) = refusal-run e w calm fresh plain last refused in
      (w', then_do _ _ w (validate-run req w valid) run, same)

  -- Where every call is answered, the account ids are distinct and below the sequence, and the key, if
  -- there is one, is new: a request that has one of the listed faults is refused with the error of that
  -- fault (an amount that is not positive, one account twice, a currency code of another length, a
  -- missing account, another currency, a balance below the amount), and nothing is committed.
  pub execute-Refuses :
      (w : World) (e : Error)
      → w.tape ≡ []
      → HasIds w.committed
      → (is_keyed req ≡ true → exists_row (has_key req.idempotency_key) w.committed.keys ≡ false)
      → Refused req w.committed e
      → Refuses e w
  execute-Refuses w e calm ids fresh (no_amount h) = guard-run _ w (no_amount-run h)
  execute-Refuses w e calm ids fresh (one_account p h) = guard-run _ w (one_account-run p h)
  execute-Refuses w e calm ids fresh (bad_code p ne h) = guard-run _ w (bad_code-run p ne h)
  execute-Refuses w e calm ids fresh (missing valid gone) =
      valid-run _ w calm fresh valid refl (λ h. absurd (cc))
        λ v calm' same next. missing-run env req v calm' (
          subst
            (λ rows.
              (select (by_id req.from_account) rows ≡ none)
              ⊎ (select (by_id req.to_account) rows ≡ none))
            (sym same) gone)
  execute-Refuses w e calm ids fresh (mismatch a b valid from_found to_found differ) =
      valid-run _ w calm fresh valid refl (λ h. absurd (cc))
        λ v calm' same next.
          mismatch-run env req v calm' a b
            (subst (λ rows. select (by_id req.from_account) rows ≡ some a) (sym same) from_found)
            (subst (λ rows. select (by_id req.to_account) rows ≡ some b) (sym same) to_found) differ
  execute-Refuses w e calm ids fresh
        (too_little a b valid from_found to_found from_same to_same h) =
      valid-run _ w calm fresh valid refl (λ h. absurd (cc))
        λ v calm' same next.
          short-run env req v calm' a b
            (subst (λ rows. select (by_id req.from_account) rows ≡ some a) (sym same) from_found)
            (subst (λ rows. select (by_id req.to_account) rows ≡ some b) (sym same) to_found)
            (subst (λ n. Below n v.db.accounts) (sym next)
              (subst (Below w.committed.next_account) (sym same) ids))
            from_same to_same h
