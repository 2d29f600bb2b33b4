-- ===== src/Api/Replays.antt =====
-- POST /transfers with a key that is done.
use idem_ledger.Base.{
  ◌≤◌, ◌≡◌, ◌⊎◌, inl, inr, refl, String, Bool, true, false, not, Option, none, some, arith, str_eq,
  if◌then◌else◌, ◌==◌, len,
}
use idem_ledger.Base.Int.{pos, leb_ℤ}
use idem_ledger.Db.{Db, Error, Result}
use idem_ledger.Server.{World}
use idem_ledger.Ledger.{Env, Request, Answer, execute, is_keyed}
use idem_ledger.Ledger.Strategies.{execute_with_for_update}
use idem_ledger.Ledger.Execute.{HasIds}
use idem_ledger.Guarantees.Replay.{
  IsDone, Replays, execute-Replays, execute_with_for_update-Replays,
}
use idem_ledger.Api.{
  Strategy, conditional_update, select_for_update, optimistic, Response, failure, failure_of,
  respond, TransferBody, transfer_by, request_of, check_transfer, decoded, read_body,
  post_transfers,
}

-- The tables are left alone, and the response is a replay or a failure.
abbrev pub OnlyReplays : Db → Response × World → Type 0
OnlyReplays d x = (x.1.committed ≡ d) × ((x.0.is_replay ≡ true) ⊎ (400 ≤ x.0.status))

failure_of-status : (e : Error) → 400 ≤ (failure_of e).status
failure_of-status e = ground arith

respond-OnlyReplays :
    (req : Request) (d : Db) (x : Result Answer × World)
    → Replays req d x
    → OnlyReplays d (respond x.0, x.1)
respond-OnlyReplays req d x (same, inl (e, h)) = (same, inr (rw h (failure_of-status e)))
respond-OnlyReplays req d x (same, inr (s, h, stored)) = (same, inl (rw h))

transfer_by-OnlyReplays :
    (env : Env) (strategy : Strategy) (req : Request) (w : World)
    → HasIds w.committed
    → is_keyed req ≡ true
    → IsDone req.idempotency_key w.committed
    → OnlyReplays w.committed (transfer_by env strategy req w)
unfolding transfer_by
transfer_by-OnlyReplays env conditional_update req w b keyed known =
    respond-OnlyReplays req w.committed (execute env req w)
      (execute-Replays env req w b keyed known)
transfer_by-OnlyReplays env select_for_update req w b keyed known =
    respond-OnlyReplays req w.committed (execute_with_for_update env req w)
      (execute_with_for_update-Replays env req w b keyed known)
transfer_by-OnlyReplays env optimistic req w b keyed known = (refl, inr (omega arith))

-- A guard that answers with 422.
guard-OnlyReplays :
    (d : Db) (w : World) (b : Bool) (text : String) (y : Response × World)
    → w.committed ≡ d
    → OnlyReplays d y
    → OnlyReplays d (if b then (failure 422 text, w) else y)
guard-OnlyReplays d w true text y same h = (same, inr (omega arith))
guard-OnlyReplays d w false text y same h = h

module _ {Value : Type 0} (unmarshal : String → Option Value) (marshal : Value → Option String)
    (digest : String → String) (decode : String → Option TransferBody) (to_upper : String → String)
    (env : Env) (strategy : Strategy) (key : String) (w : World) (b : HasIds w.committed)
    (keyed : not (str_eq key "") ≡ true) (known : IsDone key w.committed) where
  check_transfer-OnlyReplays :
      (body : String) (t : TransferBody)
      → OnlyReplays w.committed
          (check_transfer unmarshal marshal digest decode to_upper env strategy key body t w)
  unfolding check_transfer
  check_transfer-OnlyReplays body t =
      let req = request_of unmarshal marshal digest decode to_upper env strategy key body t in
      let end = transfer_by-OnlyReplays env strategy req w b keyed known in
      let by = transfer_by env strategy req w in
      let code = guard-OnlyReplays w.committed w (not (len t.currency == 3)) _ by refl end in
      let same = guard-OnlyReplays w.committed w (t.from_account == t.to_account) _ _ refl code in
      guard-OnlyReplays w.committed w (leb_ℤ t.amount (pos 0)) _ _ refl same

  decoded-OnlyReplays :
      (body : String) (t : Option TransferBody)
      → OnlyReplays w.committed
          (decoded unmarshal marshal digest decode to_upper env strategy key body t w)
  unfolding decoded
  decoded-OnlyReplays body none = (refl, inr (omega arith))
  decoded-OnlyReplays body (some t) = check_transfer-OnlyReplays body t

  read_body-OnlyReplays :
      (body : Option String)
      → OnlyReplays w.committed
          (read_body unmarshal marshal digest decode to_upper env strategy key body w)
  unfolding read_body
  read_body-OnlyReplays none = (refl, inr (omega arith))
  read_body-OnlyReplays (some body) = decoded-OnlyReplays body (decode body)

  -- A POST /transfers with a key that is done, on tables with distinct account ids below the sequence,
  -- leaves the tables alone, whatever its body, the strategy and the server's answers, and its response
  -- is a replay of a stored response or has a status of 400 or more, never that of a new transfer.
  pub post_transfers-OnlyReplays :
      (body : Option String)
      → OnlyReplays w.committed
          (post_transfers unmarshal marshal digest decode to_upper env strategy key body w)
  unfolding post_transfers
  post_transfers-OnlyReplays body =
      guard-OnlyReplays w.committed w (str_eq key "") _ _ refl (read_body-OnlyReplays body)
