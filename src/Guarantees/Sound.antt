-- ===== src/Guarantees/Sound.antt =====
-- The invariant of the ledger under every effect of a call.
use idem_ledger.Base.{
  ℕ, ◌+◌, ◌<◌, ◌≡◌, refl, String, Option, Bool, List, [], ◌∷◌, arith, All, All-map, update,
}
use idem_ledger.Base.Int.{ℤ, pos, ◌+ℤ◌, ◌≤ℤ◌}
use idem_ledger.Db.{Db, OutboxEvent, Account, Posting}
use idem_ledger.Store.Accounts.{by_id, account_row, webhook_row}
use idem_ledger.Store.Accounts.Unique.{Below}
use idem_ledger.Recon.{sum_for}
use idem_ledger.Outbox.Steps.{Step, claims, delivers, buries, fails, Steps, here, then_step}
use idem_ledger.Ledger.Execute.{HasIds}
use idem_ledger.Ledger.Sound.{IsSound, Posted-IsSound, Posted-HasIds}
use idem_ledger.Ledger.{Env}
use idem_ledger.Guarantees.{Reachable, started, called}
use idem_ledger.Guarantees.Effects.{EffectBy, Effect, Call-Effect}

module _ (opening : ℕ → ℤ) where
  -- No posting of an account that is still to come.
  pub sum_for-new :
      (n : ℕ) (ps : List Posting) → All (λ p. p.account_id < n) ps → sum_for n ps ≡ pos 0
  unfolding sum_for
  sum_for-new n [] h = refl
  sum_for-new n (p ∷ ps) h = let rest = sum_for-new n ps h.1 in let old = h.0 in ground arith

  new_balance : (o : ℤ) {sum : ℤ} → o ≡ pos 0 → sum ≡ pos 0 → pos 0 ≡ o +ℤ sum
  unfolding ◌+ℤ◌
  new_balance o p q = rw (p, q)

  added-IsSound :
      (name currency : String) (url : Option String) (now : ℕ) (d : Db)
      → IsSound opening d
      → IsSound opening (record d {
        accounts = account_row d.next_account name currency url now ∷ d.accounts;
        next_account = d.next_account + 1;
      })
  added-IsSound name currency url now d s = record {
    ids = (omega arith, s.ids);
    known = All-map d.postings (λ p h. omega arith) s.known;
    numbered = s.numbered;
    conserved = s.conserved;
    integral = (
      new_balance (opening d.next_account) (s.unopened d.next_account (omega arith))
          (sum_for-new d.next_account d.postings s.known),
      s.integral,
    );
    unopened = λ n h. s.unopened n (omega arith);
    nonneg = (omega arith, s.nonneg);
  }

  -- An UPDATE that writes neither ids nor balances.
  module _ (p : Account → Bool) (f : Account → Account)
      (same : (a : Account) → ((f a).id ≡ a.id) × ((f a).balance ≡ a.balance)) where
    pub update-Below : (n : ℕ) (rows : List Account) → Below n rows → Below n (update p f rows)
    unfolding update
    update-Below n [] b = tt
    update-Below n (a ∷ rows) b = ground (arith, same a, update-Below a.id rows b.1)

    update-integral :
        (ps : List Posting) (rows : List Account)
        → All (λ a. a.balance ≡ opening a.id +ℤ sum_for a.id ps) rows
        → All (λ a. a.balance ≡ opening a.id +ℤ sum_for a.id ps) (update p f rows)
    unfolding update
    update-integral ps [] h = tt
    update-integral ps (a ∷ rows) h = ground (arith, same a, update-integral ps rows h.1)

    update-nonneg :
        (rows : List Account)
        → All (λ a. pos 0 ≤ℤ a.balance) rows
        → All (λ a. pos 0 ≤ℤ a.balance) (update p f rows)
    unfolding update
    update-nonneg [] h = tt
    update-nonneg (a ∷ rows) h = ground (arith, same a, update-nonneg rows h.1)

  pointed-IsSound :
      (id : ℕ) (url : String) (d : Db)
      → IsSound opening d
      → IsSound opening (record d { accounts = update (by_id id) (webhook_row url) d.accounts })
  pointed-IsSound id url d s = record {
    ids = update-Below (by_id id) (webhook_row url) (λ a. (refl, refl)) _ d.accounts s.ids;
    known = s.known;
    numbered = s.numbered;
    conserved = s.conserved;
    integral =
        update-integral (by_id id) (webhook_row url) (λ a. (refl, refl)) _ d.accounts s.integral;
    unopened = s.unopened;
    nonneg = update-nonneg (by_id id) (webhook_row url) (λ a. (refl, refl)) d.accounts s.nonneg;
  }

  -- The invariant does not read the outbox.
  with_outbox :
      {d : Db} {es : List OutboxEvent}
      → IsSound opening d
      → IsSound opening (record d { outbox = es })
  with_outbox s = record {
    ids = s.ids;
    known = s.known;
    numbered = s.numbered;
    conserved = s.conserved;
    integral = s.integral;
    unopened = s.unopened;
    nonneg = s.nonneg;
  }

  Step-IsSound : {d e : Db} → Step d e → IsSound opening d → IsSound opening e
  Step-IsSound (claims limit now) s = with_outbox s
  Step-IsSound (delivers id now) s = with_outbox s
  Step-IsSound (buries id reason now) s = with_outbox s
  Step-IsSound (fails id reason jitter now) s = with_outbox s

  Steps-IsSound : {d e : Db} → Steps d e → IsSound opening d → IsSound opening e
  Steps-IsSound here s = s
  Steps-IsSound (then_step r st) s = Step-IsSound st (Steps-IsSound r s)

  pub Effect-IsSound :
      {env : Env} {d d' : Db} → Effect env d d' → IsSound opening d → IsSound opening d'
  Effect-IsSound EffectBy.nothing s = s
  Effect-IsSound {d = d} (EffectBy.opens name currency url now) s =
      added-IsSound name currency url now d s
  Effect-IsSound {d = d} (EffectBy.points id url) s = pointed-IsSound id url d s
  Effect-IsSound {env} {d} {d'} (EffectBy.transfers f req t is_debit c) s =
      Posted-IsSound env opening f req t c.now d d' is_debit c.posted s
  Effect-IsSound (EffectBy.delivers r) s = Steps-IsSound r s

  -- Every history keeps the invariant of the ledger.
  pub Reachable-IsSound :
      {env : Env} {start d : Db} → IsSound opening start → Reachable env start d → IsSound opening d
  Reachable-IsSound s started = s
  Reachable-IsSound s (called r c) =
      let s' = Reachable-IsSound s r in Effect-IsSound (Call-Effect _ c s'.ids) s'

Steps-HasIds : {d e : Db} → Steps d e → HasIds d → HasIds e
Steps-HasIds here b = b
Steps-HasIds (then_step r st) b = step st (Steps-HasIds r b)
  where
    step : {e f : Db} → Step e f → HasIds e → HasIds f
    step (claims limit now) b = b
    step (delivers id now) b = b
    step (buries id reason now) b = b
    step (fails id reason jitter now) b = b

-- The ids of the accounts stay distinct and below the sequence.
pub Effect-HasIds : {env : Env} {d d' : Db} → Effect env d d' → HasIds d → HasIds d'
Effect-HasIds EffectBy.nothing b = b
Effect-HasIds (EffectBy.opens name currency url now) b = (omega arith, b)
Effect-HasIds {d = d} (EffectBy.points id url) b =
    update-Below (λ _. pos 0) (by_id id) (webhook_row url) (λ a. (refl, refl)) _ d.accounts b
Effect-HasIds {env} {d} (EffectBy.transfers f req t is_debit c) b =
    Posted-HasIds env f req t d b is_debit c.posted
Effect-HasIds (EffectBy.delivers r) b = Steps-HasIds r b
