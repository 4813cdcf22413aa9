-- ===== src/Tests/Sending.antt =====
-- Runs of the outbox, of reply permits and of admission work, from agentmesh/conversations.py,
-- agentmesh/message_work.py and agentmesh/pow.py.
use intertexum.Prelude.{
  ℕ, ◌+◌, ◌<◌, ◌≤◌, ◌≡◌, ◌≢◌, refl, true, false, [], ◌∷◌, none, some, lookup, elem, ok, ◌^◌, ◌-◌,
  arith,
}
use intertexum.Crypto.{message, Signed, OfferBody, Payload, valid_id}
use intertexum.State.{Node, Outgoing, WorkOut, queued, delivered, lapsed}
use intertexum.Work.{check_offer, sweep as work_sweep, between}
use intertexum.Work.Outbound.{
  takes_replies, offer_body, make_offer, renew, outbound_again, first_row, outbound_row, outbound,
}
use intertexum.Work.Offers.{check_offer-outbound, outbound-consumed}
use intertexum.Outbox.{
  enqueue, expire_outbox, due, soonest, take_claim, claim_delivery, receipt, outcome, backoff,
  note_attempt, finish_attempt, deliver_claimed,
}
use intertexum.Outbox.Outcome.{deliver_claimed-release, deliver_claimed-delivered}
use intertexum.Ticketing.{
  Issuer, Sealed, Challenge, issue, verify as verify_ticket, work_valid, search, solve,
}
use intertexum.Ticketing.Honest.{verify-solve, verify-issue}
use intertexum.Tests.{program, env, node}

sending : Unit {0}
unfolding program takes_replies offer_body make_offer renew outbound_again first_row outbound_row
    outbound enqueue expire_outbox due soonest take_claim claim_delivery outcome backoff
    note_attempt finish_attempt deliver_claimed issue verify_ticket work_valid search solve
sending = tt

-- an entry that expired, the head of the line for the peer 2, and one behind it
abbrev late_entry : Outgoing
late_entry = record {
  peer = 2;
  op = message;
  state = queued;
  attempts = 3;
  next = 7000;
  expires = 7100;
}

abbrev head_entry : Outgoing
head_entry = record late_entry { attempts = 1; expires = 9000 }

abbrev next_entry : Outgoing
next_entry = record head_entry { attempts = 0; next = 6000 }

abbrev loaded : Node
loaded = record node { outbox = (3001, late_entry) ∷ (3002, head_entry) ∷ (3003, next_entry) ∷ [] }

abbrev claimed : Node
claimed = record loaded {
  outbox =
      (3001, record late_entry { state = lapsed }) ∷ (3002, head_entry) ∷ (3003, next_entry) ∷ [];
  delivering = 2 ∷ [];
}

deliver_claimed-release_example :
    elem 2 (deliver_claimed claimed (3002, head_entry) (receipt 3002)).0.delivering ≡ false
deliver_claimed-release_example = deliver_claimed-release claimed 3002 head_entry (receipt 3002)

abbrev done_entry : Outgoing
done_entry = record head_entry { state = delivered; attempts = 2; next = 7204 }

head_row : lookup 3002 claimed.outbox ≡ some head_entry
unfolding sending
head_row = refl

done_row :
    lookup 3002 (deliver_claimed claimed (3002, head_entry) (receipt 3002)).0.outbox
    ≡ some done_entry
unfolding sending
done_row = refl

not_delivered : queued ≢ delivered
not_delivered = λ e. cc e

deliver_claimed-delivered_example : ◌≡◌ {A = ℕ} 3002 3002 × (receipt 3002 ≡ receipt 3002)
deliver_claimed-delivered_example =
    deliver_claimed-delivered claimed 3002 3002 head_entry head_entry done_entry (receipt 3002)
      head_row not_delivered done_row refl

-- the permit that goes out with the message 3009
abbrev offered : Signed OfferBody
offered = record {
  body = record {
    version = 1;
    issuer = 1;
    responder = 2;
    request = 3009;
    expires = 93600;
    max_bytes = 32768;
    nonce = 6;
    network = "n";
  };
  id = 4006;
  sig = 4011;
}

abbrev sent_row : WorkOut
sent_row = record {
  peer = 2;
  op = message;
  offer = some offered;
  ticket = none;
  nonce = none;
  spent = 0;
  expires = 612000;
  active = false;
  consumed = none;
}

abbrev sent : Node
sent = record node { work_out = (3009, sent_row) ∷ [] }

no_row : lookup 3009 (work_sweep node).work_out ≡ none
unfolding sending
no_row = refl

sends : outbound env node 2 3009 none message 6 ≡ ok (sent, sent_row)
unfolding sending
sends = refl

signs : (p : Payload) → env.verify_sig node.public_key (env.sign_sig node.key p) p ≡ true
signs p = ground arith

fresh_nonce : valid_id 6 ≡ true
unfolding sending
fresh_nonce = refl

small_reply : between 1 32768 node.work_config.reply_bytes ≡ true
small_reply = refl

check_offer-outbound_example :
    check_offer env (record sent { now = 7300 }) offered 1 2 3009 ≡ ok offered.body
check_offer-outbound_example =
    check_offer-outbound env node 2 3009 none message 6 7300 sent sent_row offered signs no_row
      sends refl (omega arith) (omega arith) small_reply fresh_nonce

-- the same row after a reply came
abbrev spent_row : WorkOut
spent_row = record sent_row { consumed = some 3003 }

abbrev replied : Node
replied = record node { work_out = (3009, spent_row) ∷ [] }

has_row : lookup 3009 (work_sweep replied).work_out ≡ some spent_row
unfolding sending
has_row = refl

sends_again : outbound env replied 2 3009 none message 8 ≡ ok (replied, spent_row)
unfolding sending
sends_again = refl

outbound-consumed_example :
    (spent_row ≡ spent_row) × (replied ≡ work_sweep replied) × (spent_row.peer ≡ 2)
outbound-consumed_example =
    outbound-consumed env replied 2 3009 3003 none message 8 replied spent_row spent_row has_row
      refl sends_again

-- an issuer of the seed 1, whose hash is the nonce counted down
abbrev seal : ℕ → Challenge → ℕ
seal secret b = secret + b.payload

abbrev count_down : Sealed → ℕ → ℕ
count_down ticket nonce = 2 ^ 253 + 3 - nonce

abbrev seed : Issuer
seed = record { secret = 11; server_id = 1; network = "n"; bits = 3 }

abbrev issued : Sealed
issued = record {
  body = record {
    server = 1;
    network = "n";
    action = "register";
    peer = 2;
    payload = 44;
    expires = 220;
    bits = 3;
    salt = 9;
  };
  mac = 55;
}

issues : issue seal count_down seed 2 44 100 9 ≡ ok issued
unfolding sending
issues = refl

solves : solve seal count_down (λ n. false) 100 20 issued ≡ ok 4
unfolding sending
solves = refl

verify-solve_example : verify_ticket seal count_down seed issued 4 2 44 150 ≡ ok (9, 220)
verify-solve_example =
    verify-solve seal count_down seed (λ n. false) 100 20 2 44 9 100 150 4 issued issues
      (omega arith) solves (omega arith) (omega arith)

verifies : verify_ticket seal count_down seed issued 4 2 44 150 ≡ ok (9, 220)
unfolding sending
verifies = refl

verify-issue_example :
    ◌≡◌ {A = ℕ} 2 2
    × ◌≡◌ {A = ℕ} 44 44
    × ◌≡◌ {A = ℕ} 9 9
    × (220 ≡ 100 + 120)
    × (100 ≤ 150)
    × (150 < 100 + 120)
    × (count_down issued 4 < 2 ^ (256 - 3))
verify-issue_example =
    verify-issue seal count_down seed 2 44 9 100 4 2 44 150 9 220 issued issues verifies
