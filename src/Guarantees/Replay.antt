-- ===== src/Guarantees/Replay.antt =====
-- Calls with an idempotency key, before and after it is done.
use idem_ledger.Base.{
  ℕ, ◌≡◌, ◌⊎◌, inl, inr, refl, ap, ◌∙◌, String, Option, some, Bool, true, List, [], ◌∷◌, arith,
  select, exists_row, update, if◌then◌else◌, eq_refl, Bool-cases,
}
use idem_ledger.Base.Int.{ℤ}
use idem_ledger.Db.{Db, Account, Transfer, KeyRow, done, Error, StoredResponse, Result, ok, err}
use idem_ledger.Server.{World}
use idem_ledger.Idempotency.{has_key, claimed_row, done_row, stolen_row, is_stealable}
use idem_ledger.Idempotency.Claims.{TakesKey}
use idem_ledger.Ledger.Attempt.{
  Ended, failed, answered, posted, unheard, Commits, Ended-Commits, IsStored, StoredAnswer,
}
use idem_ledger.Ledger.Execute.{HasIds, execute-Ended}
use idem_ledger.Ledger.ForUpdate.{execute_with_for_update-Ended}
use idem_ledger.Ledger.Strategies.{execute_with_for_update}
use idem_ledger.Ledger.{Env, Request, Answer, created, replayed, is_keyed, execute}

-- Some row holds a response under this key.
abbrev pub IsDone : String → Db → Type 0
IsDone key d = (r : KeyRow) × (select (has_key key) d.keys ≡ some r) × (r.status ≡ done)

select-exists_row :
    (p : KeyRow → Bool) (ks : List KeyRow) (r : KeyRow)
    → select p ks ≡ some r
    → exists_row p ks ≡ true
unfolding select exists_row
select-exists_row p [] r h = absurd (cc)
select-exists_row p (k ∷ ks) r h = ground (arith, select-exists_row p ks r)

-- A done key is not taken.
done-not_taken :
    (key hash : String) (now : ℕ) (d : Db) (ks' : List KeyRow)
    → IsDone key d
    → ¬ TakesKey key hash now d.keys ks'
done-not_taken key hash now d ks' (r, sel, st) (inl (none_yet, e)) =
    let there = select-exists_row (has_key key) d.keys r sel in absurd (cc)
done-not_taken key hash now d ks' (r, sel, st) (inr (r', sel', st', same, e)) =
    let one : r ≡ r' = ground arith in absurd (ground arith)

-- With its key done, a call changes nothing, and answers with an error or the stored response.
abbrev pub Replays : Request → Db → Result Answer × World → Type 0
Replays req d x =
    (x.1.committed ≡ d)
    × (((e : Error) × (x.0 ≡ err e))
        ⊎ ((s : StoredResponse) × (x.0 ≡ ok (replayed s)) × IsStored req s d))

Ended-Replays :
    (env : Env) (f : ℤ → Account → Account) (req : Request) (d : Db) {x : Result Answer × World}
    → is_keyed req ≡ true
    → IsDone req.idempotency_key d
    → Ended env f req created (StoredAnswer req) d x
    → Replays req d x
Ended-Replays env f req d keyed known (failed e w c) = (c, inl (e, refl))
Ended-Replays env f req d keyed known (answered (created t) w c i) = absurd i
Ended-Replays env f req d keyed known (answered (replayed s) w c i) = (c, inr (s, refl, i))
Ended-Replays env f req d keyed known (posted t w c) =
    let k = c.keyed keyed in absurd (done-not_taken _ _ c.now d k.taken known k.claim)
Ended-Replays env f req d keyed known (unheard t w c) =
    let k = c.keyed keyed in absurd (done-not_taken _ _ c.now d k.taken known k.claim)

pub execute-Replays :
    (env : Env) (req : Request) (w : World)
    → HasIds w.committed
    → is_keyed req ≡ true
    → IsDone req.idempotency_key w.committed
    → Replays req w.committed (execute env req w)
execute-Replays env req w b keyed known =
    Ended-Replays env _ req w.committed keyed known (execute-Ended env req w b)

pub execute_with_for_update-Replays :
    (env : Env) (req : Request) (w : World)
    → HasIds w.committed
    → is_keyed req ≡ true
    → IsDone req.idempotency_key w.committed
    → Replays req w.committed (execute_with_for_update env req w)
execute_with_for_update-Replays env req w b keyed known =
    Ended-Replays env _ req w.committed keyed known (execute_with_for_update-Ended env req w b)

-- With distinct account ids below the sequence, a request whose key is done changes nothing, and is answered
-- by `Execute`, as by `ExecuteWithForUpdate`, with an error or with the response that is stored under its key
-- and its hash.
pub transfers-Replays :
    (env : Env) (req : Request) (w : World)
    → HasIds w.committed
    → is_keyed req ≡ true
    → IsDone req.idempotency_key w.committed
    → Replays req w.committed (execute env req w)
      × Replays req w.committed (execute_with_for_update env req w)
transfers-Replays env req w b keyed known = (
  execute-Replays env req w b keyed known,
  execute_with_for_update-Replays env req w b keyed known,
)

-- An UPDATE that leaves the key alone writes the row that is found, or another.
select-update :
    (key : String) (q : KeyRow → Bool) (g : KeyRow → KeyRow) (ks : List KeyRow) (r : KeyRow)
    → ((k : KeyRow) → (g k).key ≡ k.key)
    → select (has_key key) ks ≡ some r
    → select (has_key key) (update q g ks) ≡ some (if q r then g r else r)
unfolding select update
select-update key q g [] r same h = absurd (cc)
select-update key q g (k ∷ ks) r same h = elim (Bool-cases (has_key key k)) [
  | inl e ↦ let one : k ≡ r = ground arith in ground (arith, same k)
  | inr e ↦
      let rest = select-update key q g ks r same (ground arith) in ground (arith, same k, rest)
]

-- The row that a claim has taken carries the request's hash.
taken_row :
    (key hash : String) (now : ℕ) (ks ks' : List KeyRow)
    → TakesKey key hash now ks ks'
    → (r : KeyRow) × (select (has_key key) ks' ≡ some r) × (r.request_hash ≡ hash)
unfolding select
taken_row key hash now ks ks' (inl (none_yet, e)) =
    (claimed_row key hash now, ground (arith, eq_refl key), refl)
taken_row key hash now ks ks' (inr (r, sel, st, same, e)) =
    let x = select-update key (is_stealable key now) (stolen_row hash now) ks r (λ k. refl) sel in
    (if is_stealable key now r then stolen_row hash now r else r, e' x, ground arith)
  where
    e' :
        {o : Option KeyRow}
        → select (has_key key) (update (is_stealable key now) (stolen_row hash now) ks) ≡ o
        → select (has_key key) ks' ≡ o
    e' x = ap (select (has_key key)) e ∙ x

select-passes :
    (p : KeyRow → Bool) (ks : List KeyRow) (r : KeyRow) → select p ks ≡ some r → p r ≡ true
unfolding select
select-passes p [] r h = absurd (cc)
select-passes p (k ∷ ks) r h = ground (arith, select-passes p ks r)

-- A commit stores the transfer as the response to its key, with status 201.
pub Commits-IsStored :
    (env : Env) (f : ℤ → Account → Account) (req : Request) (t : Transfer) (d d' : Db)
    → is_keyed req ≡ true
    → Commits env f req t d d'
    → (body : String) × (env.marshal t ≡ some body)
      × IsStored req (record { code = 201; body = env.jsonb body }) d'
Commits-IsStored env f req t d d' keyed c =
    let k = c.keyed keyed in
    let (r, sel, same) =
      taken_row req.idempotency_key req.request_hash c.now d.keys k.taken k.claim in
    let x =
      select-update req.idempotency_key (has_key req.idempotency_key)
        (done_row 201 (env.jsonb k.body)) k.taken r (λ _. refl) sel in
    let passes = select-passes (has_key req.idempotency_key) k.taken r sel in
    let found : select (has_key req.idempotency_key) d'.keys
        ≡ some (done_row 201 (env.jsonb k.body) r) =
      ground arith in
    (
      k.body,
      k.marshalled,
      record {
        row = done_row 201 (env.jsonb k.body) r;
        keyed = keyed;
        found = found;
        same_hash = same;
        finished = refl;
        code = refl;
        body = refl;
      },
    )

-- With distinct account ids below the sequence, a call with a key that answers with a new transfer has stored that transfer, as its JSON text, as
-- the response to the key and the request's hash, with status 201.
pub execute-IsStored :
    (env : Env) (req : Request) (w : World) (t : Transfer) (w' : World)
    → HasIds w.committed
    → is_keyed req ≡ true
    → execute env req w ≡ (ok (created t), w')
    → (body : String) × (env.marshal t ≡ some body)
      × IsStored req (record { code = 201; body = env.jsonb body }) w'.committed
execute-IsStored env req w t w' b keyed h =
    Commits-IsStored env _ req t w.committed w'.committed keyed
      (Ended-Commits env _ req w.committed t w' h (execute-Ended env req w b))
