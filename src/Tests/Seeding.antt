-- ===== src/Tests/Seeding.antt =====
-- Runs of a seed's directory, from agentmesh/bootstrap.py and agentmesh/pow.py.
use intertexum.Prelude.{
  ℕ, ◌+◌, ◌-◌, ◌^◌, ◌<◌, ◌≡◌, refl, true, false, [], ◌∷◌, ◌==◌, none, ok, has, is_ok, if◌then◌else◌,
  arith,
}
use intertexum.Crypto.{Env, RemovalBody, RemovalReceiptBody, Signed}
use intertexum.Defense.{Defense, erase_routine}
use intertexum.Ticketing.{Sealed, Issuer, work_valid, verify as verify_ticket}
use intertexum.Erasure.{is_timely, validate}
use intertexum.Rendezvous.{purge as purge_signals, remove}
use intertexum.Bootstrap.{
  Outside, Announcement, Directory, validate_card, valid_times, check_announcement, erase_all,
  purge, schedule, removal_receipt, settle_removal, deregister_valid, deregister, same_text,
  same_announcement, may_replace, check_registration, may_register, store_announcement,
  note_registration, register_paid, register,
}
use intertexum.Bootstrap.Dispatch.{listed, discover_from, dispatch}
use intertexum.Bootstrap.Steps.{Follows, here, asked, purged, waited, at_time}
use intertexum.Bootstrap.Suppressed.{deregister-suppressed}
use intertexum.Bootstrap.Once.{register_once}
use intertexum.Tests.{program, env, node}

seeding : Unit {0}
unfolding program work_valid verify_ticket is_timely validate purge_signals remove validate_card
    valid_times check_announcement erase_all purge schedule removal_receipt settle_removal
    deregister_valid deregister same_text same_announcement may_replace check_registration
    may_register store_announcement note_registration register_paid register erase_routine
seeding = tt

-- the identities of the keys 5 and 7 are the seed and its peer
abbrev keyed : Env
keyed = record env { digest_key = λ key. if key == 5 then 1 else if key == 7 then 2 else key }

abbrev outside : Outside
outside = record {
  is_current = λ pem now. true;
  is_allowed = λ public host. true;
  address = λ host. 1;
  contains = λ range x. range == x;
  mac_of = λ secret b. secret + b.payload;
  work_hash = λ ticket n. 2 ^ 253 + 3 - n;
  hmac = λ key b. key;
}

abbrev issuer : Issuer
issuer = record { secret = 11; server_id = 1; network = "n"; bits = 3 }

abbrev seed : Directory
seed = record {
  node = node;
  network = "n";
  public = false;
  issuer = issuer;
  announcements = [];
  spent = [];
  removals = [];
  mailbox = [];
}

abbrev defense : Defense
defense = record {
  clock = 7200000;
  blocks = [];
  audits = [];
  evidence = [];
  buckets = [];
  failures = [];
}

abbrev announced : ℕ → Announcement
announced issued = record {
  body = record {
    network = "n";
    card = record { id = 2; certificate = 7; host = 97 ∷ []; port = 80 };
    issued = issued;
    expires = issued + 900;
    membership = none;
  };
  id = 11000 + issued;
  sig = 7 + (11000 + issued);
}

abbrev ticket : Sealed
ticket = record {
  body = record {
    server = 1;
    network = "n";
    action = "register";
    peer = 2;
    payload = 18200;
    expires = 7300;
    bits = 3;
    salt = 9;
  };
  mac = 18211;
}

abbrev listing : Directory
listing = record seed {
  announcements = (2, record { issued = 7200; expires = 8100; wire = announced 7200 }) ∷ [];
  spent = (9, 7300) ∷ [];
}

abbrev charged : Defense
charged = (register keyed outside seed defense (announced 7200) ticket 4).1

registers :
    register keyed outside seed defense (announced 7200) ticket 4 ≡ (listing, charged, ok 8100)
unfolding seeding
registers = refl

-- pages are asked for, and a purge comes between
abbrev busy : Directory
busy = at_time listing 7250

follows : Follows keyed outside (λ ip port. false) listing (purge busy charged).0
unfolding dispatch
follows = purged charged (waited 7250 (omega arith) (asked charged (discover_from none) 1 0 here))

register_once_example :
    (is_ok (register keyed outside (purge busy charged).0 defense (announced 7200) ticket 5).2
      ≡ false)
    × ((register keyed outside (purge busy charged).0 defense (announced 7200) ticket 5).0
        ≡ (purge busy charged).0)
register_once_example =
    register_once keyed outside (λ ip port. false) seed listing (purge busy charged).0 defense
      charged defense (announced 7200) (announced 7200) ticket 4 5 8100 registers follows

abbrev request : Signed RemovalBody
request = record {
  body = record {
    peer = 2;
    certificate = 7;
    seed = 1;
    network = "n";
    issued = 7190;
    expires = 7490;
    nonce =
        0 ∷ 0 ∷ 0 ∷ 0 ∷ 0 ∷ 0 ∷ 0 ∷ 0 ∷ 0 ∷ 0 ∷ 0 ∷ 0 ∷ 0 ∷ 0 ∷ 0 ∷ 0 ∷ 0 ∷ 0 ∷ 0 ∷ 0 ∷ 0 ∷ 0 ∷ 0
        ∷ 0 ∷ 0 ∷ 0 ∷ 0 ∷ 0 ∷ 0 ∷ 0 ∷ 0 ∷ 0 ∷ [];
  };
  id = 12000;
  sig = 12007;
}

abbrev receipt : Signed RemovalReceiptBody
receipt = record {
  body = record {
    seed = 1;
    network = "n";
    peer = 2;
    request_id = 12000;
    original_request_id = 12000;
    accepted_at = 7200;
    clear_at = 7260;
    suppression_until = 10830;
    cleared = false;
  };
  id = 12000;
  sig = 12005;
}

abbrev leaving : Directory
leaving = record listing {
  removals =
      (
        2,
        record {
          request_id = 12000;
          received = 7200;
          clear_at = 7260;
          suppress_until = 10830;
          cleared = false;
        },
      )
      ∷ [];
}

deregisters : deregister keyed listing defense request ≡ (leaving, defense, ok receipt)
unfolding seeding
deregisters = refl

-- ten minutes later, behind a purge
abbrev gone : Directory
gone = (purge (at_time leaving 7800) defense).0

leaves : Follows keyed outside (λ ip port. false) leaving gone
leaves = purged defense (waited 7800 (omega arith) here)

early : gone.node.now < 10830
unfolding seeding
early = omega arith

deregister-suppressed_example :
    (has 2 (listed gone none) ≡ false)
    × (is_ok (register keyed outside gone defense (announced 7790) ticket 4).2 ≡ false)
    × ((register keyed outside gone defense (announced 7790) ticket 4).0 ≡ gone)
deregister-suppressed_example =
    deregister-suppressed keyed outside (λ ip port. false) listing leaving gone defense defense
      defense request receipt (announced 7790) ticket 4 none deregisters refl leaves early refl
