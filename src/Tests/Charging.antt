-- ===== src/Tests/Charging.antt =====
-- Runs of the admission of messages, from agentmesh/message_work.py.
use intertexum.Prelude.{
  ℕ, ◌≡◌, ◌≤◌, refl, true, false, List, [], ◌∷◌, none, some, ok, is_ok, if◌then◌else◌, ◌==◌,
}
use intertexum.Crypto.{message, Signed, OfferBody}
use intertexum.State.{Node, WorkOut}
use intertexum.Work.{Subject, Proof, admit, sweep, is_banned, defaults}
use intertexum.Work.Hour.{Event, charging, sweeping, all_charged, all_charged-le}
use intertexum.Work.Entry.{IsPaid, admit-IsPaid}
use intertexum.Work.Permit.{permit_once}
use intertexum.Work.Stored.{IsCharged, admit-IsCharged}
use intertexum.Tests.{program, env, node}

-- a node that asks for 8 bits of work
abbrev asking : Node
asking = record node { work_config = record defaults { bits = 8 } }

abbrev subject : Subject
subject = record {
  id = 3001;
  version = 1;
  thread = none;
  text = 97 ∷ [];
  expires = none;
  reply_to = 0;
  permit = 0;
  size = 100;
}

-- the nonce is the hash
abbrev proof : Proof
proof = record {
  ticket = record {
    body = record {
      version = 1;
      server = 1;
      peer = 2;
      network = "n";
      operation = message;
      message = 3001;
      thread = none;
      offer = 0;
      bits = 8;
      expires = 7300;
      salt = 4;
    };
    mac = 3010;
  };
  nonce = 77;
  offer = none;
}

abbrev paid : Node
paid = record asking {
  budgets =
      (12, record { window = 2; n = 1; bytes = 100 })
      ∷ (0, record { window = 2; n = 1; bytes = 100 })
      ∷ [];
  storage = (3001, record { peer = 2; bytes = 100 }) ∷ [];
}

pays : admit env asking subject 2 message (some proof) none ≡ ok paid
unfolding program
pays = refl

admit-IsPaid_example :
    (is_banned (sweep asking) 2 ≡ false)
    × IsPaid env (sweep asking) subject 2 message (some proof) none
admit-IsPaid_example = admit-IsPaid env asking subject 2 message (some proof) none paid pays

admit-IsCharged_example : IsCharged asking.work_config (sweep asking) paid 2 100
admit-IsCharged_example = admit-IsCharged env asking subject 2 message (some proof) none paid pays

-- the node sent the request 3009 with the permit 4006, and the peer answers
abbrev permit : Signed OfferBody
permit = record {
  body = record {
    version = 1;
    issuer = 1;
    responder = 2;
    request = 3009;
    expires = 9000;
    max_bytes = 100;
    nonce = 6;
    network = "n";
  };
  id = 4006;
  sig = 4011;
}

abbrev request_row : WorkOut
request_row = record {
  peer = 2;
  op = message;
  offer = some permit;
  ticket = none;
  nonce = none;
  spent = 0;
  expires = 9000;
  active = true;
  consumed = none;
}

abbrev waiting : Node
waiting = record asking { work_out = (3009, request_row) ∷ [] }

abbrev reply : Subject
reply = record subject {
  id = 3003;
  version = 3;
  reply_to = 3009;
  permit = 4006;
  expires = some 9000;
}

abbrev second_reply : Subject
second_reply = record reply { id = 3004 }

abbrev answered : Node
answered = record waiting {
  budgets =
      (12, record { window = 2; n = 1; bytes = 100 })
      ∷ (0, record { window = 2; n = 1; bytes = 100 })
      ∷ [];
  storage = (3003, record { peer = 2; bytes = 100 }) ∷ [];
  work_out = (3009, record request_row { consumed = some 3003 }) ∷ [];
}

answers : admit env waiting reply 2 message none none ≡ ok answered
unfolding program
answers = refl

permit_once_example :
    is_ok (
      admit env
        (record answered { now = 7205; now_ns = 7205000000000 })
        second_reply
        2
        message
        none
        none)
    ≡ false
permit_once_example =
    permit_once env reply second_reply waiting answered 2 2 7205 7205000000000 none none refl refl
      refl answers

-- in one hour: two charges under a key with a sweep between them, one that is refused, and one
-- under another key
abbrev later : Node
later = record node { now = 8000; now_ns = 8000000000000 }

abbrev hour : List Event
hour =
    charging node 9 1 30
    ∷ sweeping later
    ∷ charging later 9 1 40
    ∷ charging later 9 1 40
    ∷ charging node 8 2 10
    ∷ []

abbrev limits : ℕ → ℕ
limits key = if key == 9 then 2 else 5

charges : all_charged limits (λ _. 100) 9 [] hour ≡ (2, 70)
unfolding program all_charged
charges = refl

all_charged-le_example :
    ((all_charged limits (λ _. 100) 9 [] hour).0 ≤ 2)
    × ((all_charged limits (λ _. 100) 9 [] hour).1 ≤ 100)
all_charged-le_example =
    all_charged-le limits (λ _. 100) 2 9 [] hour (refl, (refl, (refl, (refl, (refl, tt)))))
