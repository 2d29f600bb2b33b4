-- ===== src/Guarantees/Keys.antt =====
-- The idempotency keys against the transfers, over histories of calls.
use idem_ledger.Base.{
  ℕ, ◌≡◌, refl, ◌∙◌, sym, subst, ◌⊎◌, inl, inr, String, Bool, false, some, List, [], ◌∷◌, arith,
  All, All-map, update, exists_row, eq_iff, Bool-cases,
}
use idem_ledger.Base.Int.{ℤ}
use idem_ledger.Db.{Db, Account, KeyRow, Transfer, done}
use idem_ledger.Idempotency.{has_key, claimed_row, done_row}
use idem_ledger.Idempotency.Claims.{TakesKey}
use idem_ledger.Outbox.Steps.{Step, claims, buries, fails, Steps, here, then_step}
use idem_ledger.Ledger.Attempt.{Commits, KeyDone}
use idem_ledger.Ledger.Execute.{HasIds}
use idem_ledger.Ledger.{Env, Request, is_keyed}
use idem_ledger.Guarantees.{Reachable, started, called}
use idem_ledger.Guarantees.Announced.{text_of}
use idem_ledger.Guarantees.Effects.{EffectBy, Effect, Call-Effect}
use idem_ledger.Guarantees.Sound.{Effect-HasIds}
use idem_ledger.Guarantees.Views.{All-select}

abbrev pub Among : Transfer → List Transfer → Type 0
Among t [] = ⊥
Among t (u ∷ us) = (u ≡ t) ⊎ Among t us

-- The key is done, with status 201 and the text of a posted transfer that has this key.
pub record IsAnswered (env : Env) (ts : List Transfer) (k : KeyRow) : Type 0 where
  pub finished : k.status ≡ done
  pub code : k.response_code ≡ some 201
  pub transfer : Transfer
  pub posted : Among transfer ts
  pub key : transfer.idempotency_key ≡ k.key
  pub body : text_of env transfer ≡ some k.response_body

abbrev pub AllAnswered : Env → Db → Type 0
AllAnswered env d = All (IsAnswered env d.transfers) d.keys

update-unmet :
    {A : Type 0} (p : A → Bool) (f : A → A) (rows : List A)
    → exists_row p rows ≡ false
    → update p f rows ≡ rows
unfolding exists_row update
update-unmet p f [] h = refl
update-unmet p f (x ∷ rows) h = ground (arith, update-unmet p f rows)

module _ (env : Env) where
  one_more :
      (t : Transfer) (ts : List Transfer) (ks : List KeyRow)
      → All (IsAnswered env ts) ks
      → All (IsAnswered env (t ∷ ts)) ks
  one_more t ts ks h =
      All-map ks
        (λ k a. record {
          finished = a.finished;
          code = a.code;
          transfer = a.transfer;
          posted = inr a.posted;
          key = a.key;
          body = a.body;
        })
        h

  new_key :
      (req : Request) (t : Transfer) (hash : String) (now : ℕ) (body : String) (ts : List Transfer)
      → t.idempotency_key ≡ req.idempotency_key
      → env.marshal t ≡ some body
      → IsAnswered env
          (t ∷ ts)
          (done_row 201 (env.jsonb body) (claimed_row req.idempotency_key hash now))
  new_key req t hash now body ts own marshalled = record {
    finished = refl;
    code = refl;
    transfer = t;
    posted = inl refl;
    key = own;
    body = ground arith;
  }

  finish_new :
      (key hash body : String) (now : ℕ) (ks : List KeyRow)
      → exists_row (has_key key) ks ≡ false
      → update (has_key key) (done_row 201 body) (claimed_row key hash now ∷ ks)
        ≡ done_row 201 body (claimed_row key hash now) ∷ ks
  unfolding update
  finish_new key hash body now ks absent =
      let rest = update-unmet (has_key key) (done_row 201 body) ks absent in
      ground (arith, eq_iff key key)

  -- No key is left claimed, so none is stolen.
  keyed-AllAnswered :
      (req : Request) (t : Transfer) (now : ℕ) (d d' : Db)
      → d'.transfers ≡ t ∷ d.transfers
      → t.idempotency_key ≡ req.idempotency_key
      → KeyDone env req t now d d'
      → AllAnswered env d
      → AllAnswered env d'
  unfolding update
  keyed-AllAnswered req t now d d' grown own k s = go k.claim
    where
      go : TakesKey req.idempotency_key req.request_hash now d.keys k.taken → AllAnswered env d'
      go (inl (absent, e)) =
          let body = env.jsonb k.body in
          let rows = finish_new req.idempotency_key req.request_hash body now d.keys absent in
          let keys : d'.keys
              ≡ done_row 201 body (claimed_row req.idempotency_key req.request_hash now) ∷ d.keys =
            k.keys ∙ rw e rows in
          subst (λ ts. All (IsAnswered env ts) d'.keys) (sym grown)
            (subst (All (IsAnswered env (t ∷ d.transfers))) (sym keys) (
              new_key req t req.request_hash now k.body d.transfers own k.marshalled,
              one_more t d.transfers d.keys s,
            ))
      go (inr (r, found, is_claimed, same, e)) = absurd (
          let a =
            All-select (IsAnswered env d.transfers) (has_key req.idempotency_key) d.keys r
              (All-map d.keys (λ x y _. y) s) found in
          let fin = a.finished in cc)

  Commits-AllAnswered :
      (f : ℤ → Account → Account) (req : Request) (t : Transfer) (d d' : Db)
      → Commits env f req t d d'
      → AllAnswered env d
      → AllAnswered env d'
  Commits-AllAnswered f req t d d' c s = elim (Bool-cases (is_keyed req)) [
    | inl e ↦
        let p = c.posted in
        let mine = p.own_key e in
        let row = p.row in
        let own : t.idempotency_key ≡ req.idempotency_key = ground arith in
        keyed-AllAnswered req t c.now d d' p.transfers own (c.keyed e) s
    | inr e ↦ rw (c.unkeyed e, c.posted.transfers) (one_more t d.transfers d.keys s)
  ]

  Step-AllAnswered : {d e : Db} → Step d e → AllAnswered env d → AllAnswered env e
  Step-AllAnswered (claims limit now) s = s
  Step-AllAnswered (Step.delivers id now) s = s
  Step-AllAnswered (buries id reason now) s = s
  Step-AllAnswered (fails id reason jitter now) s = s

  Steps-AllAnswered : {d e : Db} → Steps d e → AllAnswered env d → AllAnswered env e
  Steps-AllAnswered here s = s
  Steps-AllAnswered (then_step r st) s = Step-AllAnswered st (Steps-AllAnswered r s)

  Effect-AllAnswered : {d d' : Db} → Effect env d d' → AllAnswered env d → AllAnswered env d'
  Effect-AllAnswered EffectBy.nothing s = s
  Effect-AllAnswered (EffectBy.opens name currency url now) s = s
  Effect-AllAnswered (EffectBy.points id url) s = s
  Effect-AllAnswered {d} {d'} (EffectBy.transfers f req t is_debit c) s =
      Commits-AllAnswered f req t d d' c s
  Effect-AllAnswered (EffectBy.delivers r) s = Steps-AllAnswered r s

  Reachable-answered :
      {start d : Db}
      → HasIds start
      → AllAnswered env start
      → Reachable env start d
      → HasIds d × AllAnswered env d
  Reachable-answered b s started = (b, s)
  Reachable-answered b s (called r c) =
      let (b', s') = Reachable-answered b s r in
      let e = Call-Effect env c b' in (Effect-HasIds e b', Effect-AllAnswered e s')

  -- From tables with distinct account ids and answered keys, after any history of transfers by all three
  -- strategies, polls and other calls, and whatever server and merchants answered: every idempotency key is
  -- done, with status 201 and the JSON text of a posted transfer that has this key. So no committed key is
  -- ever in progress, and none is open to be stolen.
  pub keys_answered :
      {start d : Db}
      → HasIds start
      → AllAnswered env start
      → Reachable env start d
      → AllAnswered env d
  keys_answered b s reached = (Reachable-answered b s reached).1
