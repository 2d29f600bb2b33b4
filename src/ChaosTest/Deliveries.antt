-- ===== src/ChaosTest/Deliveries.antt =====
-- cmd/chaostest/main.go: the merchant's server, the count of its duplicates, and the verdict of the test.
use idem_ledger.Base.{
  ℕ, suc, ◌+◌, ◌-◌, ◌≤◌, ◌≡◌, ◌↔◌, ◌∙◌, refl, arith, inl, inr, Bool-cases, Bool, true, false, ◌&&◌,
  ◌||◌, List, [], ◌∷◌, ◌==◌, ltb, All, All-map, length, exists_row, if◌then◌else◌,
}
use idem_ledger.Base.Int.{ℤ, pos, eqb_ℤ, eq_of_parts}

-- received[id]++, on the map from the ids of events to counts.
unfoldable pub receive : ℕ → List (ℕ × ℕ) → List (ℕ × ℕ)
receive id [] = (id, 1) ∷ []
receive id (row ∷ received) =
    let rest = receive id received in
    if row.0 == id then (row.0, suc row.1) ∷ received else row ∷ rest

-- The requests that the server gets, by their X-Event-ID.
unfoldable pub serve : List ℕ → List (ℕ × ℕ) → List (ℕ × ℕ)
unfolding receive
serve [] received = received
serve (id ∷ ids) received = serve ids (receive id received)

-- for _, n := range received { if n > 1 { duplicates += n - 1 } }
unfoldable pub duplicates_of : List (ℕ × ℕ) → ℕ
duplicates_of [] = 0
duplicates_of (row ∷ received) =
    let rest = duplicates_of received in if ltb 1 row.1 then row.1 - 1 + rest else rest

-- The test passes unless lost != 0 || duplicates != 0.
abbrev pub passes : ℤ → ℕ → Bool
passes lost duplicates = eqb_ℤ lost (pos 0) && duplicates == 0

abbrev is_received : ℕ → ℕ × ℕ → Bool
is_received id row = row.0 == id

-- No id twice.
abbrev pub AllDistinct : List ℕ → Type 0
AllDistinct [] = Unit {0}
AllDistinct (id ∷ ids) = All (λ i. (i == id) ≡ false) ids × AllDistinct ids

Counted : List (ℕ × ℕ) → Type 0
Counted = All (λ row. 1 ≤ row.1)

receive-Counted :
    (id : ℕ) (received : List (ℕ × ℕ)) → Counted received → Counted (receive id received)
unfolding receive Counted
receive-Counted id [] h = (omega arith, tt)
receive-Counted id (row ∷ received) h = elim (Bool-cases (row.0 == id)) [
  | inl e ↦ rw e (omega arith, h.1)
  | inr e ↦ rw e (h.0, receive-Counted id received h.1)
]

duplicates-receive :
    (id : ℕ) (received : List (ℕ × ℕ))
    → Counted received
    → duplicates_of (receive id received) ≡ (
        if exists_row (is_received id) received
        then suc (duplicates_of received)
        else duplicates_of received)
unfolding receive duplicates_of exists_row Counted
duplicates-receive id [] h = refl
duplicates-receive id (row ∷ received) h = ground (arith, duplicates-receive id received h.1)

length-receive :
    (id : ℕ) (received : List (ℕ × ℕ))
    → length (receive id received)
      ≡ (if exists_row (is_received id) received then length received else suc (length received))
unfolding receive exists_row
length-receive id [] = refl
length-receive id (row ∷ received) = ground (arith, length-receive id received)

exists-receive :
    (i id : ℕ) (received : List (ℕ × ℕ))
    → exists_row (is_received i) (receive id received)
      ≡ i == id || exists_row (is_received i) received
unfolding receive exists_row
exists-receive i id [] = ground arith
exists-receive i id (row ∷ received) = ground (arith, exists-receive i id received)

serve-counts :
    (ids : List ℕ) (received : List (ℕ × ℕ))
    → Counted received
    → duplicates_of (serve ids received) + length (serve ids received)
      ≡ length ids + (duplicates_of received + length received)
unfolding serve
serve-counts [] received h = omega arith
serve-counts (id ∷ ids) received h =
    let rest = serve-counts ids (receive id received) (receive-Counted id received h) in
    let d = duplicates-receive id received h in let l = length-receive id received in ground arith

serve-none :
    (ids : List ℕ) (received : List (ℕ × ℕ))
    → Counted received
    → duplicates_of (serve ids received) ≡ 0
    → AllDistinct ids
      × All (λ i. exists_row (is_received i) received ≡ false) ids
      × (duplicates_of received ≡ 0)
unfolding serve
serve-none [] received h e = (tt, tt, e)
serve-none (id ∷ ids) received h e =
    let (distinct, absent, none_before) =
      serve-none ids (receive id received) (receive-Counted id received h) e in
    let d = duplicates-receive id received h in
    (
      (All-map ids (λ i a. let x = exists-receive i id received in ground arith) absent, distinct),
      (
        ground arith,
        All-map ids (λ i a. let x = exists-receive i id received in ground arith) absent,
      ),
      ground arith,
    )

All-both : (P Q : ℕ → Type 0) (ids : List ℕ) → All P ids → All Q ids → All (λ i. P i × Q i) ids
All-both P Q [] h k = tt
All-both P Q (i ∷ ids) h k = ((h.0, k.0), All-both P Q ids h.1 k.1)

serve-distinct :
    (ids : List ℕ) (received : List (ℕ × ℕ))
    → Counted received
    → AllDistinct ids
    → All (λ i. exists_row (is_received i) received ≡ false) ids
    → duplicates_of received ≡ 0
    → duplicates_of (serve ids received) ≡ 0
unfolding serve
serve-distinct [] received h distinct absent e = e
serve-distinct (id ∷ ids) received h (others, distinct) (new, absent) e =
    let d = duplicates-receive id received h in
    serve-distinct ids (receive id received) (receive-Counted id received h) distinct
      (All-map ids (λ i (p, q). let x = exists-receive i id received in ground arith)
        (All-both _ _ ids others absent))
      (ground arith)

none_received : (ids : List ℕ) → All (λ i. exists_row (is_received i) [] ≡ false) ids
unfolding exists_row
none_received [] = tt
none_received (i ∷ ids) = (refl, none_received ids)

none_lost : (x : ℤ) → eqb_ℤ x (pos 0) ≡ true → x ≡ pos 0
none_lost x h = eq_of_parts x (pos 0) (ground arith)

-- Whatever requests the merchant's server gets, and however many events are lost: the duplicates that the test
-- counts and the ids that it has seen make up the requests, and the test passes exactly if no event is lost and
-- no id came twice.
pub passes-AllDistinct :
    (lost : ℤ) (ids : List ℕ)
    → (duplicates_of (serve ids []) + length (serve ids []) ≡ length ids)
      × ((passes lost (duplicates_of (serve ids [])) ≡ true) ↔ ((lost ≡ pos 0) × AllDistinct ids))
unfolding duplicates_of Counted
passes-AllDistinct lost ids = (
  serve-counts ids [] tt ∙ omega arith,
  (
    λ h. (none_lost lost (ground arith), (serve-none ids [] tt (ground arith)).0),
    λ (lossless, distinct).
        let none_twice = serve-distinct ids [] tt distinct (none_received ids) refl in
        rw (lossless, none_twice) refl,
  ),
)
