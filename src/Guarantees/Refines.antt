-- ===== src/Guarantees/Refines.antt =====
-- Every call against the contract.
use idem_ledger.Base.{
  ℕ, ◌≡◌, ◌≢◌, refl, ap, sym, ◌∙◌, subst, inl, inr, String, true, false, Option, none, some, List,
  ◌∷◌, arith, str_eq, eq_iff, ◌==◌, if◌then◌else◌, select, exists_row, update, Bool-cases,
}
use idem_ledger.Base.Int.{ℤ, ◌+ℤ◌, ◌-ℤ◌, ◌≤ℤ◌}
use idem_ledger.Db.{Db, Account, Transfer, Result}
use idem_ledger.Server.{World}
use idem_ledger.Outbox.{Merchant, poll}
use idem_ledger.Ledger.ForUpdate.{execute_with_for_update-Ended}
use idem_ledger.Ledger.Optimistic.{execute_optimistic-Ended}
use idem_ledger.Store.Accounts.{by_id, account_row, webhook_row, create_account, set_webhook_url}
use idem_ledger.Store.Accounts.Unique.{exists_row-Below}
use idem_ledger.Idempotency.{has_key, done_row}
use idem_ledger.Outbox.Steps.{Step, claims, buries, fails, Steps, here, then_step, poll-Steps}
use idem_ledger.Ledger.Rows.{credit_row}
use idem_ledger.Ledger.Covers.{exists_row-update}
use idem_ledger.Ledger.Posted.{moved}
use idem_ledger.Ledger.Sound.{IsDebitRow, debit_row-IsDebitRow, debit_versioned_row-IsDebitRow}
use idem_ledger.Ledger.Attempt.{Commits, Ended}
use idem_ledger.Ledger.Execute.{HasIds, execute-Ended}
use idem_ledger.Ledger.{Env, Request, is_keyed}
use idem_ledger.Guarantees.{
  Call, creates, sets_webhook, executes, executes_for_update, executes_optimistic, polls,
}
use idem_ledger.Guarantees.Effects.{create_account-leaves, set_webhook_url-leaves}
use idem_ledger.Guarantees.Replay.{Commits-IsStored}
use idem_ledger.Guarantees.Contract.{
  view, balance_of, answered_by, Answers, Operation, opening, transfer, upkeep, Allowed, stutters,
  opens, moves,
}
use idem_ledger.Guarantees.Views.{
  select-none, exists-select, All-select, balance-update, answered-update, answered-taken,
  balance_kept,
}

unchanged : {d e : Db} {op : Operation} → e ≡ d → Allowed (view d) (view e) op
unchanged {d} {e} {op} c =
    subst (λ x. Allowed (view d) (view x) op) (sym c) (stutters (λ id. refl) (λ k. refl))

module _ (env : Env) where
  -- The key that a request answers.
  abbrev pub key_of : Request → Option String
  key_of req = if is_keyed req then some req.idempotency_key else none

  keyed-Answers :
      (f : ℤ → Account → Account) (req : Request) (t : Transfer) (d d' : Db)
      → Commits env f req t d d'
      → is_keyed req ≡ true
      → Answers (some req.idempotency_key) (view d) (view d')
  keyed-Answers f req t d d' c keyed =
      let k = c.keyed keyed in
      let key = req.idempotency_key in
      let (body, m, i) = Commits-IsStored env f req t d d' keyed c in
      (
        (answered-taken key req.request_hash key c.now d.keys k.taken k.claim).0,
        λ j. elim (Bool-cases (str_eq key j)) [
          | inl e ↦
              let same : key ≡ j = (eq_iff key j).0 e in
              rw e (
                subst (λ x. answered_by (select (has_key x) d'.keys) ≡ true) same
                  (let found = i.found in let finished = i.finished in ground arith))
          | inr e ↦ rw e (
              rw (k.keys) (
                answered-update key j (has_key key) (done_row 201 (env.jsonb k.body)) k.taken e
                  (λ x h. h) (λ x. refl)
                ∙ (answered-taken key req.request_hash j c.now d.keys k.taken k.claim).1 e))
        ],
      )

  Commits-Answers :
      (f : ℤ → Account → Account) (req : Request) (t : Transfer) (d d' : Db)
      → Commits env f req t d d'
      → Answers (key_of req) (view d) (view d')
  Commits-Answers f req t d d' c = elim (Bool-cases (is_keyed req)) [
    | inl e ↦ rw e (keyed-Answers f req t d d' c e)
    | inr e ↦ rw e (λ j. rw (c.unkeyed e))
  ]

  balance-moved :
      (f : ℤ → Account → Account) (req : Request) (d d' : Db) (j : ℕ) (b c : ℤ)
      → IsDebitRow f
      → req.from_account ≢ req.to_account
      → d'.accounts ≡ moved f req d.accounts
      → (view d).balance req.from_account ≡ some b
      → (view d).balance req.to_account ≡ some c
      → (view d').balance j ≡ (
          if req.from_account == j
          then some (b -ℤ req.amount)
          else if req.to_account == j
          then some (c +ℤ req.amount)
          else (view d).balance j)
  balance-moved f req d d' j b c is_debit ne e from_has to_has =
      let first =
        balance-update req.from_account j (f req.amount) (λ x. x -ℤ req.amount) d.accounts
          (λ a. is_debit req.amount a) in
      let second =
        balance-update req.to_account j (credit_row req.amount) (λ x. x +ℤ req.amount)
          (update (by_id req.from_account) (f req.amount) d.accounts) (λ a. (refl, refl)) in
      let has = λ (i : ℕ) (x : ℤ) (h : (view d).balance i ≡ some x) (same : i ≡ j).
        subst (λ k. (view d).balance k ≡ some x) same h in
      rw e (
        second ∙ (elim (Bool-cases (req.from_account == j)) [
          | inl p ↦
              let b_has = has req.from_account b from_has (ground arith) in
              let miss : (req.to_account == j) ≡ false = ground arith in
              rw (miss, p) (first ∙ (rw (p, b_has)))
          | inr p ↦ elim (Bool-cases (req.to_account == j)) [
            | inl q ↦
                let c_has = has req.to_account c to_has (ground arith) in
                rw (p, q, first) (rw (p, c_has))
            | inr q ↦ rw (p, q) (first ∙ (rw p))
          ]
        ]))

  Commits-Allowed :
      (f : ℤ → Account → Account) (req : Request) (t : Transfer) (d d' : Db)
      → IsDebitRow f
      → Commits env f req t d d'
      → Allowed
          (view d)
          (view d')
          (transfer req.from_account req.to_account req.amount (key_of req))
  Commits-Allowed f req t d d' is_debit c =
      let p = c.posted in
      let (a, from_row) = exists-select (by_id req.from_account) d.accounts p.from_known in
      let known : exists_row (by_id req.to_account) d.accounts ≡ true =
        sym (
          exists_row-update (by_id req.to_account) (by_id req.from_account) (f req.amount)
            d.accounts (λ x. ground (arith, is_debit req.amount x)))
        ∙ sym (
            exists_row-update (by_id req.to_account) (by_id req.to_account) (credit_row req.amount)
              _ (λ x. refl))
        ∙ ap (exists_row (by_id req.to_account)) (sym p.accounts)
        ∙ p.to_known in
      let (b, to_row) = exists-select (by_id req.to_account) d.accounts known in
      let from_has : (view d).balance req.from_account ≡ some a.balance = ap balance_of from_row in
      let to_has : (view d).balance req.to_account ≡ some b.balance = ap balance_of to_row in
      moves a.balance b.balance p.positive p.distinct from_has to_has
        (All-select (λ x. req.amount ≤ℤ x.balance) (by_id req.from_account) d.accounts a p.covered
          from_row)
        (λ j.
          balance-moved f req d d' j a.balance b.balance is_debit p.distinct p.accounts from_has
            to_has)
        (Commits-Answers f req t d d' c)

  Step-same : {d e : Db} → Step d e → (e.accounts ≡ d.accounts) × (e.keys ≡ d.keys)
  Step-same (claims limit now) = (refl, refl)
  Step-same (Step.delivers id now) = (refl, refl)
  Step-same (buries id reason now) = (refl, refl)
  Step-same (fails id reason jitter now) = (refl, refl)

  Steps-same : {d e : Db} → Steps d e → (e.accounts ≡ d.accounts) × (e.keys ≡ d.keys)
  Steps-same here = (refl, refl)
  Steps-same (then_step r st) =
      let (p, q) = Steps-same r in let (p', q') = Step-same st in (p' ∙ p, q' ∙ q)

  balance-opened :
      (row : Account) (j : ℕ) (rows : List Account)
      → balance_of (select (by_id j) (row ∷ rows))
        ≡ (if row.id == j then some row.balance else balance_of (select (by_id j) rows))
  unfolding select
  balance-opened row j rows = ground arith

  -- What a call asks for.
  abbrev pub operation : {d d' : Db} → Call env d d' → Operation
  operation (creates name currency url w from there) = opening
  operation (sets_webhook id url w from there) = upkeep
  operation (executes req w from there) =
      transfer req.from_account req.to_account req.amount (key_of req)
  operation (executes_for_update req w from there) =
      transfer req.from_account req.to_account req.amount (key_of req)
  operation (executes_optimistic req w from there) =
      transfer req.from_account req.to_account req.amount (key_of req)
  operation (polls m w from there) = upkeep

  Ended-Allowed :
      (f : ℤ → Account → Account) (req : Request) {A : Type 0} (mk : Transfer → A)
      (Stored : A → Db → Type 0) (d : Db) {x : Result A × World}
      → IsDebitRow f
      → Ended env f req mk Stored d x
      → Allowed
          (view d)
          (view x.1.committed)
          (transfer req.from_account req.to_account req.amount (key_of req))
  Ended-Allowed f req mk Stored d is_debit (Ended.failed e w c) = unchanged c
  Ended-Allowed f req mk Stored d is_debit (Ended.answered a w c i) = unchanged c
  Ended-Allowed f req mk Stored d is_debit (Ended.posted t w c) =
      Commits-Allowed f req t d w.committed is_debit c
  Ended-Allowed f req mk Stored d is_debit (Ended.unheard t w c) =
      Commits-Allowed f req t d w.committed is_debit c

  create_account-Allowed :
      (name currency : String) (url : Option String) (w : World)
      → HasIds w.committed
      → Allowed (view w.committed) (view (create_account name currency url w).1.committed) opening
  create_account-Allowed name currency url w b =
      let d = w.committed in
      let new = exists_row-Below d.next_account d.next_account d.accounts b (omega arith) in
      create_account-leaves (λ e. Allowed (view d) (view e) opening) name currency url w
        (unchanged {d = d} {e = d} refl)
        (λ now.
          opens d.next_account (ap balance_of (select-none (by_id d.next_account) d.accounts new))
            (λ j. balance-opened (account_row d.next_account name currency url now) j d.accounts)
            (λ k. refl))

  set_webhook_url-Allowed :
      (id : ℕ) (url : String) (w : World)
      → Allowed (view w.committed) (view (set_webhook_url id url w).1.committed) upkeep
  set_webhook_url-Allowed id url w =
      let d = w.committed in
      set_webhook_url-leaves (λ e. Allowed (view d) (view e) upkeep) id url w
        (unchanged {d = d} {e = d} refl)
        (stutters
          (λ j.
            balance-update id j (webhook_row url) (λ x. x) d.accounts (λ a. (refl, refl))
            ∙ balance_kept (id == j) (balance_of (select (by_id j) d.accounts)))
          (λ k. refl))

  poll-Allowed :
      (m : Merchant) (w : World) → Allowed (view w.committed) (view (poll m w).1.committed) upkeep
  poll-Allowed m w =
      let (p, q) = Steps-same (poll-Steps m w) in
      stutters (λ j. ap (λ rows. balance_of (select (by_id j) rows)) p)
        (λ k. ap (λ rows. answered_by (select (has_key k) rows)) q)

  at_ends :
      {d d' : Db} (op : Operation) (w : World) {e : Db}
      → w.committed ≡ d
      → e ≡ d'
      → (HasIds w.committed → Allowed (view w.committed) (view e) op)
      → HasIds d
      → Allowed (view d) (view d') op
  at_ends {d} {d'} op w {e} from there allowed b =
      subst (λ x. Allowed (view x) (view d') op) from
        (subst (λ x. Allowed (view w.committed) (view x) op) there
          (allowed (subst HasIds (sym from) b)))

  -- On tables with distinct account ids below the sequence, every call of the program, whatever the server
  -- and the merchants answer, is a change that the contract allows for what the call asks. It changes no
  -- balance and no answered key; or it is the opening of an account, which opens one with balance 0; or it is
  -- a transfer, and the amount of its request, positive and covered, moves from its first account to its
  -- second one, and if the request has a key, that key was not answered before and is answered then, and
  -- no other key is.
  pub Call-Allowed :
      {d d' : Db} (c : Call env d d') → HasIds d → Allowed (view d) (view d') (operation c)
  Call-Allowed (creates name currency url w from there) =
      at_ends _ w from there (create_account-Allowed name currency url w)
  Call-Allowed (sets_webhook id url w from there) =
      at_ends _ w from there (λ _. set_webhook_url-Allowed id url w)
  Call-Allowed (executes req w from there) =
      at_ends _ w from there
        (λ b. Ended-Allowed _ req _ _ w.committed debit_row-IsDebitRow (execute-Ended env req w b))
  Call-Allowed (executes_for_update req w from there) = at_ends _ w from there (λ b.
      Ended-Allowed _ req _ _ w.committed debit_row-IsDebitRow
        (execute_with_for_update-Ended env req w b))
  Call-Allowed (executes_optimistic req w from there) = at_ends _ w from there (λ b.
      Ended-Allowed _ req _ _ w.committed debit_versioned_row-IsDebitRow
        (execute_optimistic-Ended env req w b))
  Call-Allowed (polls m w from there) = at_ends _ w from there (λ _. poll-Allowed m w)
