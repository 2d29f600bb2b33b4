-- ===== src/Tests/Leases.antt =====
-- The theorems on pollers side by side, at an outbox with two pending events.
use idem_ledger.Base.{
  ℕ, ◌≡◌, refl, arith, some, List, [], ◌∷◌, ◌++◌, All, false, take, where_rows, update, exists_row,
}
use idem_ledger.Db.{Db, OutboxEvent, empty_db}
use idem_ledger.Store.Outbox.{
  is_among, new_event, insert_event, claimed_event, claim_events, update_event, delivered_event,
  insert_by_age,
}
use idem_ledger.Outbox.Lease.{delivers, Others, quiet, claim, mark, insert, claim_events-exclusive}

abbrev event : ℕ → OutboxEvent
unfolding new_event
event i = new_event i "transfer.created" "{}" (some "https://a.example") i

abbrev waiting : List OutboxEvent → Db
waiting es = record empty_db { outbox = es }

-- Event 1 is claimed. Another poller claims event 2 and delivers it, and event 3 is added.
abbrev first : List OutboxEvent
first = claimed_event 1000 (event 1) ∷ []

abbrev tables_one : Db
tables_one = waiting (claimed_event 1000 (event 1) ∷ event 2 ∷ [])

abbrev tables_two : Db
tables_two = waiting (claimed_event 1000 (event 1) ∷ claimed_event 2000 (event 2) ∷ [])

abbrev tables_three : Db
tables_three =
    waiting
      (claimed_event 1000 (event 1) ∷ delivered_event 3000 (claimed_event 2000 (event 2)) ∷ [])

abbrev tables_four : Db
tables_four = waiting (tables_three.outbox ++ event 3 ∷ [])

abbrev tables_five : Db
tables_five = waiting (
    claimed_event 1000 (event 1)
    ∷ delivered_event 3000 (claimed_event 2000 (event 2))
    ∷ claimed_event 5000 (event 3)
    ∷ [])

meanwhile : Others first 31000 tables_one tables_four
unfolding claim_events update_event insert_event new_event take where_rows update exists_row
    insert_by_age
meanwhile =
    insert 3 "transfer.created" "{}" (some "https://a.example") 3
      (mark 2 3000 delivered_event (claim 1 2000 quiet (omega arith) refl) delivers refl refl) refl

claim_events-exclusive_example :
    All (λ e. is_among first e ≡ false) (claimed_event 5000 (event 3) ∷ [])
unfolding claim_events new_event take where_rows update exists_row insert_by_age
claim_events-exclusive_example =
    claim_events-exclusive 1 1000 50 5000 (waiting (event 1 ∷ event 2 ∷ [])) tables_one tables_four
      tables_five first (claimed_event 5000 (event 3) ∷ []) refl meanwhile (omega arith) refl
