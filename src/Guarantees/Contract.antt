-- ===== src/Guarantees/Contract.antt =====
-- What the ledger promises, without tables: balances and answered keys, and the changes that it allows.
use idem_ledger.Base.{
  ℕ, ◌≡◌, ◌≢◌, ◌∙◌, arith, String, Bool, true, false, ◌||◌, Option, none, some, str_eq, ◌==◌,
  if◌then◌else◌, select,
}
use idem_ledger.Base.Int.{ℤ, pos, ◌+ℤ◌, ◌-ℤ◌, ◌≤ℤ◌}
use idem_ledger.Db.{Db, Account, KeyRow, KeyStatus, claimed, done}
use idem_ledger.Store.Accounts.{by_id}
use idem_ledger.Idempotency.{has_key}

pub record Contract : Type 0 where
  pub balance : ℕ → Option ℤ
  pub answered : String → Bool

abbrev pub balance_of : Option Account → Option ℤ
balance_of none = none
balance_of (some a) = some a.balance

abbrev pub is_done : KeyStatus → Bool
is_done claimed = false
is_done done = true

abbrev pub answered_by : Option KeyRow → Bool
answered_by none = false
answered_by (some r) = is_done r.status

-- The view of the tables.
abbrev pub view : Db → Contract
view d = record {
  balance = λ id. balance_of (select (by_id id) d.accounts);
  answered = λ key. answered_by (select (has_key key) d.keys);
}

-- A key that is answered now and was not before, if there is one; all others are as they were.
abbrev pub Answers : Option String → Contract → Contract → Type 0
Answers none s s' = (j : String) → s'.answered j ≡ s.answered j
Answers (some key) s s' =
    (s.answered key ≡ false) × ((j : String) → s'.answered j ≡ (str_eq key j || s.answered j))

-- What is asked of the ledger: an account, a transfer, which answers its key if it has one, or neither.
pub data Operation : Type 0 where
  opening : Operation
  transfer : (from to : ℕ) (amount : ℤ) (key : Option String) → Operation
  upkeep : Operation

-- Every operation may fail and change nothing. A transfer moves its own amount between its own accounts,
-- and only if its key was not answered, and then answers it.
pub data Allowed (s s' : Contract) : Operation → Type 0 where
  stutters :
      {op : Operation}
      → ((id : ℕ) → s'.balance id ≡ s.balance id)
      → Answers none s s'
      → Allowed s s' op
  opens :
      (id : ℕ)
      → s.balance id ≡ none
      → ((j : ℕ) → s'.balance j ≡ (if id == j then some (pos 0) else s.balance j))
      → Answers none s s'
      → Allowed s s' opening
  moves :
      {from to : ℕ} {amount : ℤ} {key : Option String} (b c : ℤ)
      → pos 1 ≤ℤ amount
      → from ≢ to
      → s.balance from ≡ some b
      → s.balance to ≡ some c
      → amount ≤ℤ b
      → ((j : ℕ)
          → s'.balance j ≡ (
              if from == j
              then some (b -ℤ amount)
              else if to == j
              then some (c +ℤ amount)
              else s.balance j))
      → Answers key s s'
      → Allowed s s' (transfer from to amount key)

-- An answered key stays answered.
pub Allowed-answered :
    {s s' : Contract} {op : Operation} (j : String)
    → Allowed s s' op
    → s.answered j ≡ true
    → s'.answered j ≡ true
Allowed-answered j (stutters same keys) h = keys j ∙ h
Allowed-answered j (opens id new balances keys) h = keys j ∙ h
Allowed-answered j (moves {key = none} b c p ne f t le balances keys) h = keys j ∙ h
Allowed-answered j (moves {key = some k} b c p ne f t le balances keys) h =
    let now = keys.1 j in ground arith
