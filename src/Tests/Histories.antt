-- ===== src/Tests/Histories.antt =====
-- The theorems on histories of calls, from two funded accounts.
use idem_ledger.Base.{◌⊎◌, ◌≡◌, refl, some, map, arith, All}
use idem_ledger.Base.Int.{pos}
use idem_ledger.Server.{World}
use idem_ledger.Outbox.Tracked.{Moves}
use idem_ledger.Ledger.{execute}
use idem_ledger.Ledger.Strategies.{execute_with_for_update}
use idem_ledger.Ledger.Execute.{HasIds}
use idem_ledger.Guarantees.{Call, executes, polls, Reachable, started, called}
use idem_ledger.Guarantees.Announced.{IsAnnounced, announcements, outbox_announces}
use idem_ledger.Guarantees.Contract.{view, transfer, Allowed}
use idem_ledger.Guarantees.Once.{at_most_once}
use idem_ledger.Guarantees.Keys.{AllAnswered, keys_answered}
use idem_ledger.Guarantees.Refines.{Call-Allowed}
use idem_ledger.Outbox.{Merchant, answered, poll}
use idem_ledger.Tests.Data.{env, start, request, two_accounts}

two_accounts-HasIds : HasIds two_accounts
two_accounts-HasIds = (omega arith, (omega arith, tt))

abbrev merchant : Merchant
merchant = record {
  post = λ e. answered 200;
  status_text = λ code. "OK";
  bad_target = λ text. text;
  jitter = λ e. 3;
}

-- A transfer, and a poll after it.
abbrev once : World
once = (execute env (request (pos 200) "k") start).1

abbrev polled : World
polled = (poll merchant once).1

transfers_once : Call env two_accounts once.committed
transfers_once = executes (request (pos 200) "k") start refl refl

once-Reachable : Reachable env two_accounts polled.committed
once-Reachable = called (called started transfers_once) (polls merchant once refl refl)

two_accounts-IsAnnounced : IsAnnounced env two_accounts
two_accounts-IsAnnounced = record { payloads = refl; tracked = tt }

outbox_announces_example :
    (map (λ e. some e.payload) polled.committed.outbox
      ≡ announcements env polled.committed.transfers)
    × All (λ e. Moves e.status e.next_attempt_at) polled.committed.outbox
outbox_announces_example =
    outbox_announces env two_accounts-HasIds two_accounts-IsAnnounced once-Reachable

Call-Allowed_example :
    Allowed (view two_accounts) (view once.committed) (transfer 1 2 (pos 200) (some "k"))
unfolding transfers_once
Call-Allowed_example = Call-Allowed env transfers_once two_accounts-HasIds

keys_answered_example : AllAnswered env polled.committed
keys_answered_example = keys_answered env two_accounts-HasIds tt once-Reachable

-- A poll falls between the transfer and its retry.
at_most_once_example :
    (once.committed ≡ two_accounts)
    ⊎ (((execute env (request (pos 200) "k") polled).1.committed ≡ polled.committed)
        × ((execute_with_for_update env (request (pos 200) "k") polled).1.committed
            ≡ polled.committed))
at_most_once_example =
    at_most_once env (request (pos 200) "k") (request (pos 200) "k") start polled
      two_accounts-HasIds refl (called started (polls merchant once refl refl)) refl
