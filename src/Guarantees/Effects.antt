-- ===== src/Guarantees/Effects.antt =====
-- What one call may do to the committed tables, whatever the server answers.
use idem_ledger.Base.{ℕ, ◌+◌, ◌≡◌, sym, subst, String, Option, ◌∷◌, arith, update}
use idem_ledger.Base.Int.{ℤ}
use idem_ledger.Db.{Db, Account, Transfer, Result, ok}
use idem_ledger.Server.{World, on_pool}
use idem_ledger.Server.Keeps.{>>=-cases}
use idem_ledger.Server.Laws.{Alone, on_pool-Alone}
use idem_ledger.Store.Accounts.{
  by_id, account_row, webhook_row, insert_account, create_account, update_webhook, set_webhook_url,
}
use idem_ledger.Outbox.Steps.{Steps, poll-Steps}
use idem_ledger.Ledger.Attempt.{Ended, Commits}
use idem_ledger.Ledger.Execute.{HasIds, execute-Ended}
use idem_ledger.Ledger.ForUpdate.{execute_with_for_update-Ended}
use idem_ledger.Ledger.Optimistic.{execute_optimistic-Ended}
use idem_ledger.Ledger.Sound.{IsDebitRow, debit_row-IsDebitRow, debit_versioned_row-IsDebitRow}
use idem_ledger.Ledger.{Env, Request}
use idem_ledger.Guarantees.{
  Call, creates, sets_webhook, executes, executes_for_update, executes_optimistic, polls,
}

-- `Debits` says how a transfer writes the row that it debits.
pub data EffectBy (env : Env) (Debits : (ℤ → Account → Account) → Type 0) (d : Db)
    : Db → Type 0 where
  nothing : EffectBy env Debits d d
  opens :
      (name currency : String) (url : Option String) (now : ℕ)
      → EffectBy env Debits d (record d {
        accounts = account_row d.next_account name currency url now ∷ d.accounts;
        next_account = d.next_account + 1;
      })
  points :
      (id : ℕ) (url : String)
      → EffectBy env Debits d
          (record d { accounts = update (by_id id) (webhook_row url) d.accounts })
  transfers :
      {d' : Db} (f : ℤ → Account → Account) (req : Request) (t : Transfer)
      → Debits f
      → Commits env f req t d d'
      → EffectBy env Debits d d'
  delivers : {d' : Db} → Steps d d' → EffectBy env Debits d d'

abbrev pub Effect : Env → Db → Db → Type 0
Effect env = EffectBy env IsDebitRow

-- What holds of the tables as they were, and as the statement leaves them, holds afterwards.
Alone-leaves :
    (P : Db → Type 0) {A : Type 0} (d : Db) (x : Result (A × Db)) {y : Result A × World}
    → P d
    → ((a : A) (d' : Db) → x ≡ ok (a, d') → P d')
    → Alone d x y
    → P y.1.committed
Alone-leaves P d x before made (Alone.refused e w c) = subst P (sym c) before
Alone-leaves P d x before made (Alone.done a w h) = made a w.committed h
Alone-leaves P d x before made (Alone.unheard a w h) = made a w.committed h

insert_account-eq-ok :
    (name currency : String) (url : Option String) (now : ℕ) (d : Db) {a : Account} {d' : Db}
    → insert_account name currency url now d ≡ ok (a, d')
    → record d {
      accounts = account_row d.next_account name currency url now ∷ d.accounts;
      next_account = d.next_account + 1;
    }
      ≡ d'
unfolding insert_account
insert_account-eq-ok name currency url now d h = ground arith

update_webhook-eq-ok :
    (id : ℕ) (url : String) (now : ℕ) (d : Db) {n : ℕ} {d' : Db}
    → update_webhook id url now d ≡ ok (n, d')
    → record d { accounts = update (by_id id) (webhook_row url) d.accounts } ≡ d'
unfolding update_webhook
update_webhook-eq-ok id url now d h = ground arith

pub create_account-leaves :
    (P : Db → Type 0) (name currency : String) (url : Option String) (w : World)
    → P w.committed
    → ((now : ℕ)
        → P (record w.committed {
          accounts =
              account_row w.committed.next_account name currency url now ∷ w.committed.accounts;
          next_account = w.committed.next_account + 1;
        }))
    → P (create_account name currency url w).1.committed
unfolding create_account
create_account-leaves P name currency url w before after =
    let (now, x) = on_pool-Alone (insert_account name currency url) w in
    Alone-leaves P w.committed _ before
      (λ a d' h. subst P (insert_account-eq-ok name currency url now w.committed h) (after now)) x

pub set_webhook_url-leaves :
    (P : Db → Type 0) (id : ℕ) (url : String) (w : World)
    → P w.committed
    → P (record w.committed { accounts = update (by_id id) (webhook_row url) w.committed.accounts })
    → P (set_webhook_url id url w).1.committed
unfolding set_webhook_url
set_webhook_url-leaves P id url w before after =
    let (now, x) = on_pool-Alone (update_webhook id url) w in
    let y =
      Alone-leaves P w.committed _ before
        (λ a d' h. subst P (update_webhook-eq-ok id url now w.committed h) after) x in
    >>=-cases (λ z. P z.1.committed) (on_pool (update_webhook id url)) _ w
      (λ e v q. subst (λ (z : Result ℕ × World). P z.1.committed) q y)
      (λ n v q. subst (λ (z : Result ℕ × World). P z.1.committed) q y)

module _ (env : Env) (Debits : (ℤ → Account → Account) → Type 0) where
  pub Ended-Effect :
      (f : ℤ → Account → Account) (req : Request) {A : Type 0} (mk : Transfer → A)
      (Stored : A → Db → Type 0) (d : Db) {x : Result A × World}
      → Debits f
      → Ended env f req mk Stored d x
      → EffectBy env Debits d x.1.committed
  Ended-Effect f req mk Stored d is_debit (Ended.failed e w c) =
      subst (EffectBy env Debits d) (sym c) nothing
  Ended-Effect f req mk Stored d is_debit (Ended.answered a w c i) =
      subst (EffectBy env Debits d) (sym c) nothing
  Ended-Effect f req mk Stored d is_debit (Ended.posted t w c) = transfers f req t is_debit c
  Ended-Effect f req mk Stored d is_debit (Ended.unheard t w c) = transfers f req t is_debit c

  pub create_account-Effect :
      (name currency : String) (url : Option String) (w : World)
      → EffectBy env Debits w.committed (create_account name currency url w).1.committed
  create_account-Effect name currency url w =
      create_account-leaves (EffectBy env Debits w.committed) name currency url w nothing
        (opens name currency url)

  pub set_webhook_url-Effect :
      (id : ℕ) (url : String) (w : World)
      → EffectBy env Debits w.committed (set_webhook_url id url w).1.committed
  set_webhook_url-Effect id url w =
      set_webhook_url-leaves (EffectBy env Debits w.committed) id url w nothing (points id url)

  -- An effect between tables that a call found and left.
  pub between :
      {d d' : Db} (w : World) {e : Db}
      → w.committed ≡ d
      → e ≡ d'
      → (HasIds w.committed → EffectBy env Debits w.committed e)
      → HasIds d
      → EffectBy env Debits d d'
  between {d} {d'} w {e} from there effect b =
      subst (λ x. EffectBy env Debits x d') from
        (subst (EffectBy env Debits w.committed) there (effect (subst HasIds (sym from) b)))

module _ (env : Env) where
  pub Call-Effect : {d d' : Db} → Call env d d' → HasIds d → Effect env d d'
  Call-Effect (creates name currency url w from there) =
      between env IsDebitRow w from there
        (λ _. create_account-Effect env IsDebitRow name currency url w)
  Call-Effect (sets_webhook id url w from there) =
      between env IsDebitRow w from there (λ _. set_webhook_url-Effect env IsDebitRow id url w)
  Call-Effect (executes req w from there) = between env IsDebitRow w from there (λ b.
      Ended-Effect env IsDebitRow _ req _ _ w.committed debit_row-IsDebitRow
        (execute-Ended env req w b))
  Call-Effect (executes_for_update req w from there) = between env IsDebitRow w from there (λ b.
      Ended-Effect env IsDebitRow _ req _ _ w.committed debit_row-IsDebitRow
        (execute_with_for_update-Ended env req w b))
  Call-Effect (executes_optimistic req w from there) = between env IsDebitRow w from there (λ b.
      Ended-Effect env IsDebitRow _ req _ _ w.committed debit_versioned_row-IsDebitRow
        (execute_optimistic-Ended env req w b))
  Call-Effect (polls m w from there) =
      between env IsDebitRow w from there (λ _. delivers (poll-Steps m w))
