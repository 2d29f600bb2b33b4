-- ===== src/LoadTest/Receivers.antt =====
-- The transfers that a load test makes up.
use idem_ledger.Base.{
  ℕ, zero, suc, ◌≡◌, ◌≢◌, refl, sym, subst, arith, Option, none, some, List, [], ◌∷◌, All,
}
use idem_ledger.Ledger.{Request}
use idem_ledger.Ledger.Ready.{IsValid}
use idem_ledger.LoadTest.{
  Draws, get_elem?, unless_same, choose_receiver, transfer_request, request_between, request_from,
  pick_request, both, requests,
}

unless_same-differs :
    (sender : ℕ) (o rest : Option ℕ) {to : ℕ}
    → (rest ≡ some to → to ≢ sender)
    → unless_same sender o rest ≡ some to
    → to ≢ sender
unless_same-differs sender none rest ih h = absurd (cc)
unless_same-differs sender (some id) rest ih h = ground arith

choose_receiver-differs :
    (ids : List ℕ) (sender : ℕ) (ks : List ℕ) {to : ℕ}
    → choose_receiver ids sender ks ≡ some to
    → to ≢ sender
unfolding choose_receiver
choose_receiver-differs ids sender [] h = absurd (cc)
choose_receiver-differs ids sender (k ∷ ks) h =
    unless_same-differs sender (get_elem? ids k) _ (choose_receiver-differs ids sender ks) h

-- With one account, no draw gives a receiver.
choose_receiver-one : (id : ℕ) (ks : List ℕ) → choose_receiver (id ∷ []) id ks ≡ none
unfolding choose_receiver get_elem?
choose_receiver-one id [] = refl
choose_receiver-one id (zero ∷ ks) = let rest = choose_receiver-one id ks in ground arith
choose_receiver-one id (suc k ∷ ks) = refl

pick_request-one : (id : ℕ) (x : Draws) → pick_request (id ∷ []) x ≡ none
unfolding pick_request get_elem?
pick_request-one id x = at x.sender
  where
    at : (k : ℕ) → request_from (id ∷ []) x (get_elem? (id ∷ []) k) ≡ none
    at zero = rw (choose_receiver-one id x.receivers) refl
    at (suc k) = refl

-- With one seeded account no draws, however many, lead to a transfer, so a load test that has a job
-- never gets past it.
pub requests-one : (id : ℕ) (x : Draws) (xs : List Draws) → requests (id ∷ []) (x ∷ xs) ≡ none
unfolding requests
requests-one id x xs = rw (pick_request-one id x) refl

between-IsValid :
    (sender amount : ℕ) (o : Option ℕ) {req : Request}
    → ((to : ℕ) → o ≡ some to → to ≢ sender)
    → request_between sender amount o ≡ some req
    → IsValid req
between-IsValid sender amount none differs h = absurd (cc)
between-IsValid sender amount (some to) {req} differs h =
    let same : transfer_request sender to amount ≡ req = ground arith in
    subst IsValid same
      (record { positive = omega arith; distinct = λ e. differs to refl (sym e); code = refl })

from-IsValid :
    (ids : List ℕ) (x : Draws) (o : Option ℕ) {req : Request}
    → request_from ids x o ≡ some req
    → IsValid req
from-IsValid ids x none h = absurd (cc)
from-IsValid ids x (some sender) h =
    between-IsValid sender x.amount _ (λ to e. choose_receiver-differs ids sender x.receivers e) h

both-IsValid :
    (o : Option Request) (rest : Option (List Request)) {reqs : List Request}
    → ((req : Request) → o ≡ some req → IsValid req)
    → ((more : List Request) → rest ≡ some more → All IsValid more)
    → both o rest ≡ some reqs
    → All IsValid reqs
both-IsValid none rest p q h = absurd (cc)
both-IsValid (some req) none p q h = absurd (cc)
both-IsValid (some req) (some more) {reqs} p q h =
    let same : req ∷ more ≡ reqs = ground arith in
    subst (All IsValid) same (p req refl, q more refl)

-- Every transfer that a load test makes up passes the guards of a transfer: its amount is positive, its
-- accounts differ, and its currency has three bytes.
pub requests-IsValid :
    (ids : List ℕ) (xs : List Draws) {reqs : List Request}
    → requests ids xs ≡ some reqs
    → All IsValid reqs
unfolding requests pick_request
requests-IsValid ids [] {reqs} h =
    let same : [] ≡ reqs = ground arith in subst (All IsValid) same tt
requests-IsValid ids (x ∷ xs) h =
    both-IsValid _ _ (λ req e. from-IsValid ids x _ e) (λ more e. requests-IsValid ids xs e) h
