-- ===== src/Tests/Sharing.antt =====
-- Runs of imports, withdrawals and messages, from agentmesh/node.py.
use intertexum.Prelude.{
  ℕ, ◌≡◌, ◌≢◌, ◌⊎◌, refl, true, false, [], ◌∷◌, none, some, ok, err, Result, lookup, has, arith,
  Error, ◌||◌, ◌&&◌, ◌==◌,
}
use intertexum.Crypto.{RetractBody, Signed}
use intertexum.State.{Node, accepted, Allocation}
use intertexum.Node.Active.{active, withdrawn}
use intertexum.Node.Active.Sound.{Ancestor, self, up}
use intertexum.Node.Share.{ingest}
use intertexum.Node.Share.Import.{IsImported, ingest-pending, ingest_cases}
use intertexum.Node.Retract.{ingest_retraction, count_rows}
use intertexum.Node.Retract.Withdrawn.{IsAuthored, ingest_retraction-withdrawn, withdrawn-active}
use intertexum.Node.Retract.Quota.{IsBounded, ingest_retraction-IsBounded}
use intertexum.Node.Message.{receive_message, still_received}
use intertexum.Node.Message.Replay.{receive_message_again}
use intertexum.Tests.{program, env, node, base_record, derived, fresh, stored_as, hello}

abbrev imported : Result ℕ × Node
imported = ingest env node fresh none

imports : ingest env node fresh none ≡ (ok 1003, imported.1)
unfolding program
imports = refl

new_id : lookup 1003 node.records ≡ none
unfolding program
new_id = refl

ingest-pending_example : active env imported.1 imported.1.id false 1003 ≡ none
ingest-pending_example = ingest-pending env node fresh none imported.1 1003 new_id imports

ingest_cases_example :
    ((e : Error) × (ingest env node fresh none ≡ (err e, node)))
    ⊎ ((node'' : Node) × (ingest env node fresh none ≡ (ok 1003, node''))
        × IsImported env node fresh none node'')
ingest_cases_example = ingest_cases env node fresh none

-- the peer withdraws its record
abbrev withdrawal : Signed RetractBody
withdrawal = record {
  body = record { version = 1; origin = 2; target = 1001 };
  id = 6001;
  sig = 6008;
}

abbrev after_withdrawal : Node
after_withdrawal = record node {
  retractions =
      (
        6001,
        record {
          origin = 2;
          target = 1001;
          wire = withdrawal;
          supplier = 2;
          allocation = Allocation.stored;
        },
      )
      ∷ [];
  public_tombstones = 1001 ∷ [];
}

withdraws : ingest_retraction env node withdrawal (some 2) none ≡ ok after_withdrawal
unfolding program
withdraws = refl

ingest_retraction-withdrawn_example :
    IsAuthored env node withdrawal
    × ((rid origin : ℕ)
        → withdrawn after_withdrawal rid origin
          ≡ (withdrawn node rid origin || (1001 == rid && 2 == origin)))
    × (after_withdrawal ≡ record node {
      retractions = after_withdrawal.retractions;
      public_tombstones = after_withdrawal.public_tombstones;
    })
ingest_retraction-withdrawn_example =
    ingest_retraction-withdrawn env node withdrawal (some 2) none after_withdrawal withdraws

again : ingest_retraction env after_withdrawal withdrawal (some 2) none ≡ ok after_withdrawal
unfolding program
again = refl

gone : withdrawn after_withdrawal 1001 2 ≡ true
unfolding program
gone = refl

base_row : lookup 1001 after_withdrawal.records ≡ some (stored_as accepted base_record)
unfolding program
base_row = refl

below_base : Ancestor after_withdrawal 1002 1001
unfolding program
below_base = up (stored_as accepted derived) refl refl self

withdrawn-active_example : active env after_withdrawal 1 false 1002 ≢ some derived
withdrawn-active_example =
    withdrawn-active env node withdrawal (some 2) none after_withdrawal 1 1002 1001 false
      (stored_as accepted base_record) derived withdraws base_row refl refl below_base

no_rows-IsBounded : IsBounded node.retractions
unfolding count_rows
no_rows-IsBounded = record {
  pools = λ a. omega arith;
  origins = λ o. omega arith;
  suppliers = λ s. omega arith;
}

ingest_retraction-IsBounded_example : IsBounded after_withdrawal.retractions
ingest_retraction-IsBounded_example =
    ingest_retraction-IsBounded env node withdrawal (some 2) none after_withdrawal no_rows-IsBounded
      withdraws

abbrev received : Node
received = record node {
  received_ids = (3001, 0) ∷ [];
  budgets =
      (12, record { window = 2; n = 1; bytes = 100 })
      ∷ (0, record { window = 2; n = 1; bytes = 100 })
      ∷ [];
  storage = (3001, record { peer = 2; bytes = 100 }) ∷ [];
  messages = (3001, hello) ∷ [];
}

receives : receive_message env node hello 2 none none ≡ ok (received, 3001)
unfolding program
receives = refl

-- the message comes again, an hour later
abbrev replayed : Node
replayed = record received { now = 10800; now_ns = 10800000000000 }

receives_again : receive_message env replayed hello 2 none none ≡ ok (replayed, 3001)
unfolding program
receives_again = refl

unseen : has 3001 (still_received env node) ≡ false
unfolding program
unseen = refl

receive_message_again_example : replayed ≡ record received {
  now = 10800;
  now_ns = 10800000000000;
  received_ids = still_received env (record received { now = 10800; now_ns = 10800000000000 });
}
receive_message_again_example =
    receive_message_again env node hello 2 2 10800 10800000000000 3001 3001 none none none none
      received replayed unseen receives receives_again
