-- ===== src/Tests/Talking.antt =====
-- Runs of threads, from agentmesh/conversations.py.
use intertexum.Prelude.{
  ℕ, ◌+◌, ◌≡◌, refl, true, [], ◌∷◌, ◌==◌, List, none, some, ok, has, if◌then◌else◌, arith,
}
use intertexum.Crypto.{Env, PostKind, root, reply, anyone, Ticket, message}
use intertexum.State.{Node}
use intertexum.Work.{defaults, Subject, valid_work, valid_ticket}
use intertexum.Work.Outbound.{reply_info}
use intertexum.Threads.{
  Post, Threads, found_root, root_of, is_member, access, may_write, check_kind, insert_root, hangs,
  make_body, checked, create, subject_of, check_pin, pay_post, insert_post, may_answer, accept_kind,
  accept,
}
use intertexum.Threads.Order.{
  Reached, no_threads, fresh, then_step, created, accepted, IsOrdered, reached-IsOrdered,
}
use intertexum.Threads.Accepted.{IsAnswer, accept-IsAnswer}
use intertexum.Threads.Pages.{
  Filters, Page, Row, Sizes, valid_filters, rows_of, page_root, is_shown, entry_of, fill, last_seq,
  next_cursor, page,
}
use intertexum.Threads.Pages.Whole.{IsWhole, page-IsWhole}
use intertexum.Challenging.{scope, may_ask, check_asked, ticket_for, challenge}
use intertexum.Challenging.Honest.{valid_ticket-challenge}
use intertexum.Tests.{program, env, node}

talking : Unit {0}
unfolding program scope may_ask check_asked ticket_for challenge found_root root_of is_member access
    may_write check_kind insert_root hangs make_body checked create subject_of check_pin pay_post
    insert_post may_answer accept_kind accept valid_filters rows_of page_root is_shown entry_of fill
    last_seq next_cursor page reply_info
talking = tt

-- the identities of the keys 5 and 7 are the node and its peer
abbrev keyed : Env
keyed = record env { digest_key = λ key. if key == 5 then 1 else if key == 7 then 2 else key }

-- a host that asks for no work
abbrev host : Node
host = record node { work_config = record defaults { bits = 0 } }

abbrev nonce : List ℕ
nonce =
    0 ∷ 0 ∷ 0 ∷ 0 ∷ 0 ∷ 0 ∷ 0 ∷ 0 ∷ 0 ∷ 0 ∷ 0 ∷ 0 ∷ 0 ∷ 0 ∷ 0 ∷ 0 ∷ 0 ∷ 0 ∷ 0 ∷ 0 ∷ 0 ∷ 0 ∷ 0 ∷ 0
    ∷ 0 ∷ 0 ∷ 0 ∷ 0 ∷ 0 ∷ 0 ∷ 0 ∷ 0 ∷ []

abbrev post : ℕ → ℕ → ℕ → PostKind → Post
post origin key stamp kind = record {
  body = record {
    version = 1;
    kind = kind;
    origin = origin;
    certificate = key;
    text = 97 ∷ [];
    created_ms = stamp;
    nonce = nonce;
  };
  id = 10000 + stamp;
  sig = key + (10000 + stamp);
}

abbrev topic : Post
topic = post 1 5 7200000 (root (anyone ∷ []))

abbrev comment : Post
comment = post 2 7 7200005 (reply 7210000 7210000)

abbrev opened : Threads
opened = record no_threads {
  threads = (7210000, record { seq = 1; wire = topic }) ∷ [];
  thread_seq = 1;
}

abbrev answered : Threads
answered = record opened {
  posts = (7210005, record { seq = 1; thread = 7210000; received = 7200000; wire = comment }) ∷ [];
  post_seq = 1;
}

abbrev paid : Node
paid = record host {
  budgets =
      (12, record { window = 2; n = 1; bytes = 100 })
      ∷ (0, record { window = 2; n = 1; bytes = 100 })
      ∷ [];
  storage = (7210005, record { peer = 2; bytes = 100 }) ∷ [];
}

opens : create keyed host no_threads (97 ∷ []) (anyone ∷ []) nonce ≡ ok (opened, topic)
unfolding talking
opens = refl

answers : accept keyed host opened comment 2 none ≡ ok (paid, answered)
unfolding talking
answers = refl

reached : Reached keyed answered
reached =
    then_step (then_step fresh (created host (97 ∷ []) (anyone ∷ []) nonce topic opens))
      (accepted host paid comment 2 none answers)

reached-IsOrdered_example : IsOrdered answered
reached-IsOrdered_example = reached-IsOrdered keyed answered reached

accept-IsAnswer_example :
    IsAnswer keyed host opened comment 2
    × (answered.threads ≡ opened.threads)
    × (has comment.id answered.posts ≡ true)
accept-IsAnswer_example = accept-IsAnswer keyed host paid opened answered comment 2 none answers

abbrev filters : Filters
filters = record { thread = some 7210000; after = 0; since_ms = 0; until_ms = 9000000; limit = 50 }

abbrev sizes : Sizes
sizes = record { of_root = λ r. 100; of_entry = λ e. 200 }

abbrev shown : Page
shown = record {
  root = some topic;
  items =
      record { object = comment; cursor = 1; received_ms = some 7200000; reply_offer = none } ∷ [];
  next = none;
}

shows : page sizes paid answered 2 filters ≡ ok shown
unfolding talking
shows = refl

abbrev comment_row : Row
comment_row = record { seq = 1; received = some 7200000; wire = comment }

page-IsWhole_example : IsWhole paid 2 filters (rows_of answered filters (some 7210000)) shown
page-IsWhole_example = page-IsWhole keyed sizes paid answered 2 filters shown reached shows

-- a challenge for the message 3001 of the peer, and the message
abbrev challenged : Ticket
challenged = record {
  body = record {
    version = 1;
    server = 1;
    peer = 2;
    network = "n";
    operation = message;
    message = 3001;
    thread = none;
    offer = 0;
    bits = node.work_config.bits;
    expires = 7320;
    salt = 6;
  };
  mac = 3010;
}

abbrev asked : Node
asked = record node {
  budgets =
      (13, record { window = 2; n = 1; bytes = 0 })
      ∷ (1, record { window = 2; n = 1; bytes = 0 })
      ∷ [];
}

abbrev note : Subject
note = record {
  id = 3001;
  version = 1;
  thread = none;
  text = 97 ∷ [];
  expires = none;
  reply_to = 0;
  permit = 0;
  size = 100;
}

challenges : challenge env node no_threads 2 message 3001 none none 6 ≡ ok (asked, challenged)
unfolding talking
challenges = refl

solves : valid_work env challenged 4 ≡ true
unfolding talking
solves = refl

abbrev later : Node
later = record asked { now = 7300 }

valid_ticket-challenge_example :
    valid_ticket env later note 2 message (record { ticket = challenged; nonce = 4; offer = none })
    ≡ true
valid_ticket-challenge_example =
    valid_ticket-challenge env node asked later no_threads 2 message 3001 none none 6 4 challenged
      note challenges solves refl refl refl refl (omega arith) (omega arith) refl refl
