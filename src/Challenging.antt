-- ===== src/Challenging.antt =====
-- agentmesh/message_work.py: the challenge that a receiver issues, and what a sender makes of it.
--
-- The messages of `solve_for` to the receiver are answers; its loop reserves slices of time on a
-- monotonic clock and is left out. The salt is drawn by `secrets`.
pub mod Honest
use intertexum.Prelude.{
  ℕ, ◌+◌, Bool, true, false, not, ◌&&◌, ◌||◌, ◌==◌, leb, ltb, Option, none, some, lookup, Table,
  Result, ok, err, invalid, denied, work_budget, guard, ◌>>=◌, ◌>>◌, if◌then◌else◌, str_eq, update,
}
use intertexum.Crypto.{
  Env, Signed, OfferBody, Operation, message, thread_post, Ticket, TicketBody, valid_id,
}
use intertexum.State.{Capability, Node, WorkOut}
use intertexum.Policy.{capability}
use intertexum.Node.Peers.{peer, require, messaging}
use intertexum.Work.{
  sweep, check_capacity, budget, peer_key, global_key, receiving, challenging, solving, is_banned,
  check_offer, same_operation, same_id,
}
use intertexum.Threads.{Threads, root_of, access, may_write, audience_of}

-- `scope`
unfoldable pub may_ask : Node → Threads → ℕ → Operation → Option ℕ → Result (Unit {0})
may_ask node t asker message none = require node asker messaging
may_ask node t asker message (some thread) = err invalid
may_ask node t asker thread_post none = err invalid
may_ask node t asker thread_post (some thread) = do
  guard (valid_id thread) invalid
  capability node Capability.threads
  host ← root_of t thread
  access node host.wire.body asker
  may_write node (audience_of host.wire.body.kind) asker

unfoldable pub scope : Node → Threads → ℕ → Operation → Option ℕ → Result (Unit {0})
unfolding may_ask
scope node t asker op thread = do
  capability node Capability.receive
  peer node asker false
  guard (not (is_banned node asker)) denied
  may_ask node t asker op thread

module _ (env : Env) where
  unfoldable pub check_asked : Node → ℕ → ℕ → Option (Signed OfferBody) → Result (Unit {0})
  check_asked node asker id none = ok tt
  check_asked node asker id (some offer) = do check_offer env node offer asker node.id id; ok tt

  unfoldable pub ticket_for :
      Node → ℕ → Operation → ℕ → Option ℕ → Option (Signed OfferBody) → ℕ → Ticket
  ticket_for node asker op id thread offer salt =
      let body : TicketBody = record {
        version = 1;
        server = node.id;
        peer = asker;
        network = node.network;
        operation = op;
        message = id;
        thread = thread;
        offer = env.offer_digest offer;
        bits = node.work_config.bits;
        expires = node.now + 120;
        salt = salt;
      } in
      record { body = body; mac = env.authenticator node.message_secret body }

  -- `challenge`, a transaction; the two hourly budgets of the message itself are only read
  unfoldable pub challenge :
      Node
      → Threads
      → ℕ
      → Operation
      → ℕ
      → Option ℕ
      → Option (Signed OfferBody)
      → ℕ
      → Result (Node × Ticket)
  unfolding scope check_asked ticket_for
  challenge node t asker op id thread offer salt = do
    guard (valid_id id) invalid
    scope node t asker op thread
    let cfg = node.work_config
    let swept = sweep node
    check_capacity swept asker 0
    budget swept (peer_key receiving asker) 1 0 cfg.peer_hour cfg.peer_hour_bytes
    budget swept (global_key receiving) 1 0 cfg.total_hour cfg.total_hour_bytes
    n1 ← budget swept (peer_key challenging asker) 1 0 60 0
    n2 ← budget n1 (global_key challenging) 1 0 240 0
    check_asked n2 asker id offer
    ok (n2, ticket_for node asker op id thread offer salt)

  -- the tests of `solve_for` on the challenge of a receiver; its size and the length of its salt are
  -- taken to be in order
  unfoldable pub check_challenge :
      Node → ℕ → Operation → ℕ → Option ℕ → Option (Signed OfferBody) → Ticket → Result (Unit {0})
  check_challenge node receiver op id thread offer ticket = do
    let b = ticket.body
    guard (b.version == 1 && b.server == receiver && b.peer == node.id) work_budget
    guard (str_eq b.network node.network && same_operation b.operation op && b.message == id)
        work_budget
    guard (same_id b.thread thread && b.offer == env.offer_digest offer) work_budget
    guard (leb b.bits node.work_config.max_solve_bits) work_budget
    guard (ltb node.now b.expires && leb b.expires (node.now + 120)) work_budget
    guard (valid_id ticket.mac) work_budget

-- the ticket goes into the row of the outgoing message
unfoldable pub keep_ticket : Node → ℕ → Ticket → Node
keep_ticket node id ticket = record node {
  work_out = update id (λ r. record r { ticket = some ticket; nonce = none }) node.work_out;
}

abbrev pub spent_of : Option WorkOut → Option ℕ
spent_of none = none
spent_of (some row) = some row.spent

-- the accounting of one slice of a tenth of a second, a transaction
unfoldable pub may_spend : ℕ → Option ℕ → Bool
may_spend limit none = false
may_spend limit (some spent) = leb (spent + 100) limit

unfoldable pub reserve_slice : Node → ℕ → ℕ → Result Node
unfolding may_spend
reserve_slice node receiver id = do
  let cfg = node.work_config
  guard (may_spend cfg.max_solve_ms (spent_of (lookup id node.work_out))) work_budget
  n1 ← budget node (peer_key solving receiver) 100 0 cfg.peer_solve_hour_ms 0
  n2 ← budget n1 (global_key solving) 100 0 cfg.total_solve_hour_ms 0
  ok (record n2 { work_out = update id (λ r. record r { spent = r.spent + 100 }) n2.work_out })

-- the nonce that was found; the permit of the message is live where work was asked for
unfoldable pub keep_nonce : Node → ℕ → Ticket → ℕ → Node
keep_nonce node id ticket nonce = record node {
  work_out =
      update id (λ r. record r { nonce = some nonce; active = ltb 0 ticket.body.bits })
        node.work_out;
}
