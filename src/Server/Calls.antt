-- ===== src/Server/Calls.antt =====
-- How many calls of the server an action makes, whatever the answers.
use idem_ledger.Base.{ℕ, ◌+◌, ◌≤◌, ap, Bool, true, false, arith, length, if◌then◌else◌}
use idem_ledger.Db.{Error, Result}
use idem_ledger.Server.{
  World, Action, Sql, pure, raise, raise_if, ◌>>=◌, in_tx, draw, begin, commit, map_error,
  in_transaction,
}
use idem_ledger.Server.Keeps.{>>=-cases}

-- At most `n` answers are used up.
pub record Calls {A : Type 0} (n : ℕ) (m : Action A) : Type 0 where
  pub spent : (w : World) → length w.tape ≤ n + length (m w).1.tape

pub pure-Calls : {A : Type 0} (a : A) → Calls 0 (pure a)
pure-Calls a = record { spent = λ w. omega arith }

pub raise-Calls : {A : Type 0} (e : Error) → Calls {A = A} 0 (raise e)
raise-Calls e = record { spent = λ w. omega arith }

pub raise_if-Calls : (b : Bool) (e : Error) → Calls 0 (raise_if b e)
raise_if-Calls true e = record { spent = λ w. omega arith }
raise_if-Calls false e = record { spent = λ w. omega arith }

pub in_tx-Calls : {A : Type 0} (s : Sql A) → Calls 1 (in_tx s)
unfolding in_tx
in_tx-Calls s = record { spent = λ w. ground arith }

pub draw-Calls : (uuid : ℕ → ℕ) → Calls 0 (draw uuid)
unfolding draw
draw-Calls uuid = record { spent = λ w. omega arith }

pub begin-Calls : Calls 1 begin
unfolding begin
begin-Calls = record { spent = λ w. ground arith }

pub commit-Calls : Calls 1 commit
unfolding commit
commit-Calls = record { spent = λ w. ground arith }

module _ {A : Type 0} (n : ℕ) where
  pub at_most : (k : ℕ) (m : Action A) → k ≤ n → Calls k m → Calls n m
  at_most k m le c = record { spent = λ w. let x = c.spent w in omega arith }

  pub map_error-Calls : (f : Error → Error) (m : Action A) → Calls n m → Calls n (map_error f m)
  unfolding map_error
  map_error-Calls f m c = record { spent = λ w. ground (arith, c.spent w) }

  pub in_transaction-Calls : (m : Action A) → Calls n m → Calls n (in_transaction m)
  unfolding in_transaction
  in_transaction-Calls m c = record { spent = λ w. c.spent w }

  pub if-Calls : (b : Bool) (m k : Action A) → Calls n m → Calls n k → Calls n (if b then m else k)
  if-Calls true m k c d = c
  if-Calls false m k c d = d

pub >>=-Calls :
    {A B : Type 0} (n k : ℕ) (m : Action A) (f : A → Action B)
    → Calls n m
    → ((a : A) → Calls k (f a))
    → Calls (n + k) (m >>= f)
>>=-Calls {A} {B} n k m f c d = record {
  spent = λ w.
      let first = c.spent w in
      >>=-cases (λ (x : Result B × World). length w.tape ≤ n + k + length x.1.tape) m f w
        (λ e v q. let left = ap (λ x. length x.1.tape) q in omega arith)
        (λ a v q.
          let left = ap (λ x. length x.1.tape) q in let rest = (d a).spent v in omega arith);
}
