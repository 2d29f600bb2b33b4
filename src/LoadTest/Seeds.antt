-- ===== src/LoadTest/Seeds.antt =====
-- The accounts that a load test seeds.
use idem_ledger.Base.{
  ℕ, zero, suc, ◌+◌, ◌<◌, ◌≤◌, ◌≡◌, refl, ◌∙◌, subst, arith, String, true, false, none, List, [],
  ◌∷◌, ◌==◌, All, All-map, if◌then◌else◌, update,
}
use idem_ledger.Base.Int.{ℤ, pos, ◌+ℤ◌}
use idem_ledger.Db.{Db, Account, Posting, ok}
use idem_ledger.Server.{World}
use idem_ledger.Server.Laws.{>>=-elim, on_pool-eq-ok}
use idem_ledger.Store.Accounts.{by_id, account_row, insert_account, create_account}
use idem_ledger.Store.Accounts.Unique.{Below, exists_row-Below, update-absent}
use idem_ledger.Recon.{sum_for}
use idem_ledger.Ledger.Rows.{update_accounts}
use idem_ledger.Ledger.Rows.Success.{update_accounts-eq-ok}
use idem_ledger.Ledger.Sound.{IsSound}
use idem_ledger.Guarantees.Sound.{sum_for-new}
use idem_ledger.LoadTest.{seed_balance, funded_row, seed_account, seed_from}

-- The opening balances, once account `i` is funded.
abbrev pub funded : ℕ → (ℕ → ℤ) → ℕ → ℤ
funded i opening n = if n == i then seed_balance else opening n

-- What funding the newest account does.
abbrev seeded : String → ℕ → Db → Db
seeded name now d = record d {
  accounts = funded_row (account_row d.next_account name "INR" none now) ∷ d.accounts;
  next_account = d.next_account + 1;
}

module _ (opening : ℕ → ℤ) where
  old_rows :
      (i : ℕ) (n : ℕ) (ps : List Posting) (rows : List Account)
      → Below n rows
      → n ≤ i
      → All (λ a. a.balance ≡ opening a.id +ℤ sum_for a.id ps) rows
      → All (λ a. a.balance ≡ funded i opening a.id +ℤ sum_for a.id ps) rows
  old_rows i n ps [] b le h = tt
  old_rows i n ps (a ∷ rows) b le h =
      let ne : (a.id == i) ≡ false = ground arith in
      (rw ne h.0, old_rows i a.id ps rows b.1 (omega arith) h.1)

  funded_balance : (sum o : ℤ) → sum ≡ pos 0 → seed_balance ≡ seed_balance +ℤ sum
  unfolding ◌+ℤ◌
  funded_balance sum o h = rw h refl

  seeded-IsSound :
      (name : String) (now : ℕ) (d : Db)
      → IsSound opening d
      → IsSound (funded d.next_account opening) (seeded name now d)
  seeded-IsSound name now d s = record {
    ids = (omega arith, s.ids);
    known = All-map d.postings (λ p h. omega arith) s.known;
    numbered = s.numbered;
    conserved = s.conserved;
    integral = (
      let self : (d.next_account == d.next_account) ≡ true = ground arith in
          rw self (
            funded_balance (sum_for d.next_account d.postings) (opening d.next_account)
              (sum_for-new opening d.next_account d.postings s.known)),
      old_rows d.next_account d.next_account d.postings d.accounts s.ids (omega arith) s.integral,
    );
    unopened = λ n h. let e = s.unopened n (omega arith) in ground arith;
    nonneg = (omega arith, s.nonneg);
  }

inserted :
    (name : String) (now : ℕ) (d d' : Db) (acc : Account)
    → insert_account name "INR" none now d ≡ ok (acc, d')
    → (acc ≡ account_row d.next_account name "INR" none now)
      × (d' ≡ record d { accounts = acc ∷ d.accounts; next_account = d.next_account + 1 })
unfolding insert_account
inserted name now d d' acc h = (ground arith, ground arith)

update_newest :
    (i : ℕ) (row : Account) (rows : List Account)
    → row.id ≡ i
    → Below i rows
    → update (by_id i) funded_row (row ∷ rows) ≡ funded_row row ∷ rows
unfolding update
update_newest i row rows e b =
    let absent = exists_row-Below i i rows b (omega arith) in
    let (narrow, same, none_met) = update-absent i (λ _. true) funded_row rows absent in
    ground arith

-- The funding UPDATE after the INSERT meets the new row, and no other.
funds_new :
    (name : String) (now now' : ℕ) (d d₁ d₂ : Db) (acc : Account) (n : ℕ)
    → Below d.next_account d.accounts
    → insert_account name "INR" none now d ≡ ok (acc, d₁)
    → update_accounts (by_id acc.id) funded_row now' d₁ ≡ ok (n, d₂)
    → (acc.id ≡ d.next_account) × (d₂ ≡ seeded name now d)
funds_new name now now' d d₁ d₂ acc n b h k =
    let (row, made) = inserted name now d d₁ acc h in
    let (count, done, fits, nonneg) = update_accounts-eq-ok (by_id acc.id) funded_row now' d₁ k in
    let newest = update_newest acc.id acc d.accounts refl (rw row b) in
    (rw row refl, done ∙ rw made (rw newest (rw row refl)))

seed_account-eq-ok :
    (name_of : ℕ → String) (i : ℕ) (w : World) {id : ℕ} {w' : World}
    → Below w.committed.next_account w.committed.accounts
    → seed_account name_of i w ≡ (ok id, w')
    → (id ≡ w.committed.next_account)
      × ((now : ℕ) × (w'.committed ≡ seeded (name_of i) now w.committed))
unfolding seed_account create_account
seed_account-eq-ok name_of i w {id} {w'} b h = >>=-elim _ _ w h λ acc w1 e1 h1.
    >>=-elim _ _ w1 h1 λ n w2 e2 h2.
      let (now, x) = on_pool-eq-ok (insert_account (name_of i) "INR" none) w e1 in
      let (now', y) = on_pool-eq-ok (update_accounts (by_id acc.id) funded_row) w1 e2 in
      let (own, made) =
        funds_new (name_of i) now now' w.committed w1.committed w2.committed acc n b x y in
      (ground arith, (now, ground arith))

-- The tables after the accounts `ids` have been funded, with opening balances that are as before elsewhere.
pub record Seeded (opening : ℕ → ℤ) (d : Db) (ids : List ℕ) (d' : Db) : Type 0 where
  pub after : ℕ → ℤ
  pub sound : IsSound after d'
  pub same : (n : ℕ) → n < d.next_account → after n ≡ opening n
  pub funds : All (λ id. after id ≡ seed_balance) ids

one_more :
    (name : String) (now : ℕ) (opening : ℕ → ℤ) (d d' : Db) (ids : List ℕ)
    → Seeded (funded d.next_account opening) (seeded name now d) ids d'
    → Seeded opening d (d.next_account ∷ ids) d'
one_more name now opening d d' ids s = record {
  after = s.after;
  sound = s.sound;
  same = λ n lt. s.same n (omega arith) ∙ ground arith;
  funds = (s.same d.next_account (omega arith) ∙ ground arith, s.funds);
}

pub seed_from-Seeded :
    (name_of : ℕ → String) (n i : ℕ) (opening : ℕ → ℤ) (w : World) {ids : List ℕ} {w' : World}
    → IsSound opening w.committed
    → seed_from name_of i n w ≡ (ok ids, w')
    → Seeded opening w.committed ids w'.committed
unfolding seed_from
seed_from-Seeded name_of zero i opening w {ids} {w'} s h =
    let none_seeded : [] ≡ ids = ground arith in
    let there : w.committed ≡ w'.committed = ground arith in
    subst (λ x. Seeded opening w.committed x w'.committed) none_seeded
      (subst (Seeded opening w.committed []) there
        (record { after = opening; sound = s; same = λ n lt. refl; funds = tt }))
seed_from-Seeded name_of (suc n) i opening w {ids} {w'} s h = >>=-elim _ _ w h λ id w1 e1 h1.
    >>=-elim _ _ w1 h1 λ more w2 e2 h2.
      let (own, x) = seed_account-eq-ok name_of i w s.ids e1 in
      let (now, made) = x in
      let d : Db = w.committed in
      let sound = seeded-IsSound opening (name_of i) now d s in
      let rest =
        seed_from-Seeded name_of n (i + 1) (funded d.next_account opening) w1 (rw made sound) e2 in
      let all_ids : d.next_account ∷ more ≡ ids = ground arith in
      let there : w2.committed ≡ w'.committed = ground arith in
      subst (λ x. Seeded opening d x w'.committed) all_ids
        (subst (Seeded opening d (d.next_account ∷ more)) there (
          one_more (name_of i) now opening d w2.committed more
            (subst (λ x. Seeded (funded d.next_account opening) x more w2.committed) made rest)))
