-- ===== src/Ledger/Attempt.antt =====
-- How a transfer may end, whatever the server answers: nothing changed, or exactly one transfer was
-- posted. It holds of one attempt, and of a loop of attempts.
use idem_ledger.Base.{
  ℕ, zero, suc, ◌≡◌, refl, sym, subst, String, true, false, some, List, select, update,
}
use idem_ledger.Base.Int.{ℤ}
use idem_ledger.Db.{
  Db, Account, KeyRow, done, Transfer, StoredResponse, Error, Result, ok, err, again, connection,
}
use idem_ledger.Server.{World, Action, rollback, map_error, in_transaction}
use idem_ledger.Idempotency.{has_key, done_row}
use idem_ledger.Idempotency.Claims.{TakesKey}
use idem_ledger.Ledger.Posted.{Posted}
use idem_ledger.Ledger.{
  Env, Request, Answer, created, replayed, is_keyed, attempts, again_if_conflict, retriable,
}

-- A row with the request's key and hash holds the response.
pub record IsStored (req : Request) (s : StoredResponse) (d : Db) : Type 0 where
  pub row : KeyRow
  pub keyed : is_keyed req ≡ true
  pub found : select (has_key req.idempotency_key) d.keys ≡ some row
  pub same_hash : row.request_hash ≡ req.request_hash
  pub finished : row.status ≡ done
  pub code : row.response_code ≡ some s.code
  pub body : row.response_body ≡ s.body

-- The key, if there is one, was taken and is done, with the transfer as its response.
pub record KeyDone (env : Env) (req : Request) (t : Transfer) (now : ℕ) (d d' : Db) : Type 0 where
  pub taken : List KeyRow
  pub body : String
  pub marshalled : env.marshal t ≡ some body
  pub claim : TakesKey req.idempotency_key req.request_hash now d.keys taken
  pub keys : d'.keys ≡ update (has_key req.idempotency_key) (done_row 201 (env.jsonb body)) taken

pub record Commits (env : Env) (f : ℤ → Account → Account) (req : Request) (t : Transfer)
    (d d' : Db) : Type 0 where
  pub now : ℕ
  pub posted : Posted env f req t now d d'
  pub unkeyed : is_keyed req ≡ false → d'.keys ≡ d.keys
  pub keyed : is_keyed req ≡ true → KeyDone env req t now d d'

-- The ways in which a call on the committed tables `d` may end. `mk` makes its result of the new
-- transfer, and `Stored` says which results it may give with no transfer.
pub data Ended (env : Env) (f : ℤ → Account → Account) (req : Request) {A : Type 0}
    (mk : Transfer → A) (Stored : A → Db → Type 0) (d : Db) : Result A × World → Type 0 where
  failed : (e : Error) (w : World) → w.committed ≡ d → Ended env f req mk Stored d (err e, w)
  answered :
      (a : A) (w : World) → w.committed ≡ d → Stored a d → Ended env f req mk Stored d (ok a, w)
  posted :
      (t : Transfer) (w : World)
      → Commits env f req t d w.committed
      → Ended env f req mk Stored d (ok (mk t), w)
  unheard :
      (t : Transfer) (w : World)
      → Commits env f req t d w.committed
      → Ended env f req mk Stored d (err connection, w)

module _ (env : Env) (f : ℤ → Account → Account) (req : Request) {A : Type 0} (mk : Transfer → A)
    (Stored : A → Db → Type 0) where
  -- What holds of the result of a call holds of its rolled-back transaction.
  rollback-Ended :
      (d : Db) {x : Result A × World}
      → Ended env f req mk Stored d x
      → Ended env f req mk Stored d (x.0, rollback x.1)
  rollback-Ended d (failed e w c) = failed e _ c
  rollback-Ended d (answered a w c i) = answered a _ c i
  rollback-Ended d (posted t w c) = posted t _ c
  rollback-Ended d (unheard t w c) = unheard t _ c

  pub in_transaction-Ended :
      (m : Action A) (w : World) (d : Db)
      → Ended env f req mk Stored d (m w)
      → Ended env f req mk Stored d (in_transaction m w)
  unfolding in_transaction
  in_transaction-Ended m w d h = rollback-Ended d h

  again-Ended :
      (d : Db) {x : Result A × World}
      → Ended env f req mk Stored d x
      → Ended env f req mk Stored d
          (elim x.0 [ ok a ↦ (ok a, x.1) | err e ↦ (err (again_if_conflict e), x.1) ])
  again-Ended d (failed e w c) = failed _ w c
  again-Ended d (answered a w c i) = answered a w c i
  again-Ended d (posted t w c) = posted t w c
  again-Ended d (unheard t w c) = unheard t w c

  pub retriable-Ended :
      (m : Action A) (w : World) (d : Db)
      → Ended env f req mk Stored d (m w)
      → Ended env f req mk Stored d (retriable m w)
  unfolding map_error
  retriable-Ended m w d h = again-Ended d h

  -- After a `continue` the loop starts from the same committed tables.
  pub attempts-Ended :
      (P : Db → Type 0) (m : Action A)
      → ((w : World) → P w.committed → Ended env f req mk Stored w.committed (m w))
      → (n : ℕ) (w : World) → P w.committed
      → Ended env f req mk Stored w.committed (attempts n m w)
  unfolding attempts
  attempts-Ended P m once zero w h = failed _ w refl
  attempts-Ended P m once (suc n) w h = go (once w h) (attempts-Ended P m once n)
    where
      go :
          {x : Result A × World}
          → Ended env f req mk Stored w.committed x
          → ((v : World) → P v.committed → Ended env f req mk Stored v.committed (attempts n m v))
          → Ended env f req mk Stored w.committed
              (elim x.0 [ err again ↦ attempts n m x.1 | other ↦ (other, x.1) ])
      go (failed again v c) rest =
          subst (λ d. Ended env f req mk Stored d (attempts n m v)) c (rest v (subst P (sym c) h))
      go (failed e v c) rest = failed e v c
      go (answered a v c i) rest = answered a v c i
      go (posted t v c) rest = posted t v c
      go (unheard t v c) rest = unheard t v c

-- A transfer is answered without being made only by a stored response.
abbrev pub StoredAnswer : Request → Answer → Db → Type 0
StoredAnswer req (created t) d = ⊥
StoredAnswer req (replayed s) d = IsStored req s d

-- A call that answers with a new transfer has committed it.
pub Ended-Commits :
    (env : Env) (f : ℤ → Account → Account) (req : Request) (d : Db) {x : Result Answer × World}
    (t : Transfer) (w : World)
    → x ≡ (ok (created t), w)
    → Ended env f req created (StoredAnswer req) d x
    → Commits env f req t d w.committed
Ended-Commits env f req d t w h (failed e v c) = absurd (cc)
Ended-Commits env f req d t w h (answered (created u) v c i) = absurd i
Ended-Commits env f req d t w h (answered (replayed s) v c i) = absurd (cc)
Ended-Commits env f req d t w h (posted u v c) =
    let same : u ≡ t = cc in
    let there : v ≡ w = cc in
    subst (λ z. Commits env f req z d w.committed) same
      (subst (λ (z : World). Commits env f req u d z.committed) there c)
Ended-Commits env f req d t w h (unheard u v c) = absurd (cc)
