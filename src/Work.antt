-- ===== src/Work.antt =====
-- agentmesh/message_work.py: what a receiver asks of a message before it stores it, the hourly
-- budgets and storage limits, and the one-use permits for a free reply.
pub mod Limits
pub mod Hour
pub mod Entry
pub mod Permit
pub mod Stored
pub mod Outbound
pub mod Offers
use intertexum.Prelude.{
  ℕ, zero, suc, ◌+◌, ◌*◌, ◌-◌, ◌/◌, ◌^◌, Bool, true, false, not, ◌&&◌, ◌||◌, ◌==◌, leb, ltb, List,
  [], ◌∷◌, ◌++◌, Table, Option, none, some, lookup, has, replace, insert_new, update, keep_rows,
  sum_by, keep, any, length, Result, ok, err, invalid, denied, integrity, guard, ◌>>=◌, ◌>>◌,
  if◌then◌else◌, str_eq,
}
use intertexum.Crypto.{
  Env, Signed, OfferBody, of_offer, verify, valid_id, Operation, message, thread_post, Ticket,
  TicketBody,
}
use intertexum.Records.{byte_length}
use intertexum.State.{
  WorkConfig, Budget, Storage, Admission, ReplySent, WorkOut, Ban, Target, one_peer, range, Node,
}
use intertexum.Policy.{is_none}
use intertexum.Node.Peers.{key_of}

-- `DEFAULTS` and `BOUNDS`
abbrev pub defaults : WorkConfig
defaults = record {
  bits = 0;
  peer_pending = 256;
  peer_bytes = 8388608;
  total_bytes = 67108864;
  peer_hour = 1000;
  total_hour = 5000;
  peer_hour_bytes = 33554432;
  total_hour_bytes = 134217728;
  max_solve_bits = 22;
  max_solve_ms = 10000;
  peer_solve_hour_ms = 60000;
  total_solve_hour_ms = 120000;
  reply_seconds = 86400;
  reply_bytes = 32768;
}

abbrev pub between : ℕ → ℕ → ℕ → Bool
between lo hi value = leb lo value && leb value hi

-- `validate_config` of the values over the defaults, which are in range themselves
unfoldable pub validate_config : WorkConfig → Result WorkConfig
validate_config c = do
  guard (between 0 28 c.bits) invalid
  guard (between 1 10000 c.peer_pending) invalid
  guard (between 1 268435456 c.peer_bytes) invalid
  guard (between 1 1073741824 c.total_bytes) invalid
  guard (between 1 100000 c.peer_hour) invalid
  guard (between 1 100000 c.total_hour) invalid
  guard (between 1 1073741824 c.peer_hour_bytes) invalid
  guard (between 1 1073741824 c.total_hour_bytes) invalid
  guard (between 0 28 c.max_solve_bits) invalid
  guard (between 100 60000 c.max_solve_ms) invalid
  guard (between 100 3600000 c.peer_solve_hour_ms) invalid
  guard (between 100 3600000 c.total_solve_hour_ms) invalid
  guard (between 60 604800 c.reply_seconds) invalid
  guard (between 1 32768 c.reply_bytes) invalid
  ok c

-- The keys of `message_budget`: `'receive:'+peer`, `'receive:global'` and so on, numbered.
pub data Purpose : Type 0 where
  receiving challenging solving carrying : Purpose

abbrev pub purpose_code : Purpose → ℕ
purpose_code receiving = 0
purpose_code challenging = 1
purpose_code solving = 2
purpose_code carrying = 3

unfoldable pub global_key : Purpose → ℕ
global_key p = purpose_code p

unfoldable pub peer_key : Purpose → ℕ → ℕ
peer_key p peer = 4 + 4 * peer + purpose_code p

-- `sweep`
unfoldable pub sweep : Node → Node
sweep node = record node {
  budgets = keep_rows (λ _ b. leb (node.now / 3600) b.window) node.budgets;
  replies_sent = keep_rows (λ _ r. ltb node.now r.expires) node.replies_sent;
  admitted_offers = keep_rows (λ _ r. ltb node.now r.expires) node.admitted_offers;
  work_out = keep_rows (λ _ r. ltb node.now r.expires) node.work_out;
}

-- what `budget` finds used in the hour
unfoldable pub used_in : ℕ → Option Budget → ℕ × ℕ
used_in window none = (0, 0)
used_in window (some row) = if row.window == window then (row.n, row.bytes) else (0, 0)

abbrev pub max_budget_rows : ℕ
max_budget_rows = 4096

-- `budget` with `consume=True`
unfoldable pub budget : Node → ℕ → ℕ → ℕ → ℕ → ℕ → Result Node
unfolding used_in
budget node key n size nlimit blimit = do
  let window = node.now / 3600
  let found = lookup key node.budgets
  let used = used_in window found
  guard (leb (used.0 + n) nlimit && leb (used.1 + size) blimit) denied
  guard (not (is_none found) || ltb (length node.budgets) max_budget_rows) denied
  let row : Budget = record { window = window; n = used.0 + n; bytes = used.1 + size }
  ok (record node { budgets = replace key row node.budgets })

abbrev pub stored_bytes : Table Storage → ℕ
stored_bytes = sum_by (λ r. r.1.bytes)

unfoldable pub of_peer : ℕ → Table Storage → Table Storage
of_peer peer rows = keep_rows (λ _ r. r.peer == peer) rows

-- `check_capacity`
unfoldable pub check_capacity : Node → ℕ → ℕ → Result (Unit {0})
unfolding of_peer
check_capacity node peer size = do
  let mine = of_peer peer node.storage
  let cfg = node.work_config
  guard
      (ltb (length mine) cfg.peer_pending
        && leb (stored_bytes mine + size) cfg.peer_bytes
        && leb (stored_bytes node.storage + size) cfg.total_bytes)
      denied

abbrev pub names_peer : Target → ℕ → Bool
names_peer (one_peer p) peer = p == peer
names_peer (range r) peer = false

-- `node.defense.blocked(peer=peer)`, at the clock in milliseconds
unfoldable pub is_banned : Node → ℕ → Bool
is_banned node peer =
    any (λ b. names_peer b.target peer && (b.expires == 0 || ltb (node.now_ns / 1000000) b.expires))
      node.bans

-- What `admit` reads of a message or a post.
pub record Subject : Type 0 where
  pub id : ℕ
  pub version : ℕ
  pub thread : Option ℕ
  pub text : List ℕ
  pub expires : Option ℕ
  pub reply_to : ℕ
  pub permit : ℕ
  pub size : ℕ

-- `{'ticket', 'nonce', 'offer'}`
pub record Proof : Type 0 where
  pub ticket : Ticket
  pub nonce : ℕ
  pub offer : Option (Signed OfferBody)

abbrev pub same_operation : Operation → Operation → Bool
same_operation message message = true
same_operation thread_post thread_post = true
same_operation _ _ = false

abbrev pub same_id : Option ℕ → Option ℕ → Bool
same_id none none = true
same_id (some a) (some b) = a == b
same_id _ _ = false

module _ (env : Env) where
  -- `check_offer`
  unfoldable pub check_offer : Node → Signed OfferBody → ℕ → ℕ → ℕ → Result OfferBody
  check_offer node offer issuer responder request = do
    key ← key_of env node issuer false
    b ← verify env of_offer offer key
    guard (b.version == 1 && b.issuer == issuer && b.responder == responder) invalid
    guard (b.request == request && str_eq b.network node.network) invalid
    guard (ltb node.now b.expires && leb b.expires (node.now + 604800)) invalid
    guard (between 1 32768 b.max_bytes) invalid
    guard (valid_id b.nonce) invalid
    ok b

  -- `valid_work`
  unfoldable pub valid_work : Ticket → ℕ → Bool
  valid_work ticket nonce =
      ltb nonce (2 ^ 63) && ltb (env.work_hash ticket nonce) (2 ^ (256 - ticket.body.bits))

  -- the tests of `admit` on a ticket
  unfoldable pub valid_ticket : Node → Subject → ℕ → Operation → Proof → Bool
  unfolding valid_work
  valid_ticket node obj peer op proof =
      let b = proof.ticket.body in
      proof.ticket.mac == env.authenticator node.message_secret b
      && b.version == 1
      && b.server == node.id
      && b.peer == peer
      && str_eq b.network node.network
      && same_operation b.operation op
      && b.message == obj.id
      && same_id b.thread (elim op [ thread_post ↦ obj.thread | message ↦ none ])
      && b.offer == env.offer_digest proof.offer
      && b.bits == node.work_config.bits
      && (ltb node.now b.expires && leb b.expires (node.now + 120))
      && valid_work proof.ticket proof.nonce

  -- The offer that the proof carries: checked, and dropped where no work was asked.
  unfoldable pub accept_offer :
      Node → Subject → ℕ → Proof → Option (Signed OfferBody) → Result (Option (Signed OfferBody))
  accept_offer node obj peer proof none = ok none
  accept_offer node obj peer proof (some offer) = do
    b ← check_offer node offer peer node.id obj.id
    let latest : ℕ = elim obj.expires [ none ↦ node.now + 604800 | some t ↦ t ]
    guard (leb b.expires latest) invalid
    ok (if proof.ticket.body.bits == 0 then none else some offer)

  -- The free reply of version 3: it spends the permit of the request that it answers.
  unfoldable pub use_permit : Node → Subject → ℕ → WorkOut → Option (Signed OfferBody) → Result Node
  use_permit node obj peer row none = err denied
  use_permit node obj peer row (some permit) = do
    b ← check_offer node permit node.id peer obj.reply_to
    guard (permit.id == obj.permit && is_none row.consumed) denied
    guard (leb (byte_length obj.text) b.max_bytes) denied
    ok (record node {
      work_out = update obj.reply_to (λ r. record r { consumed = some obj.id }) node.work_out;
    })

  unfoldable pub spend_permit : Node → Subject → ℕ → Option WorkOut → Result Node
  unfolding use_permit
  spend_permit node obj peer none = err denied
  spend_permit node obj peer (some row) = do
    guard (row.active && row.peer == peer) denied
    use_permit node obj peer row row.offer

  -- the three ways in without a routed proof: a free reply, none at all, a proof of work
  unfoldable pub clear :
      Node → Subject → ℕ → Operation → Option Proof → Result (Node × Option (Signed OfferBody))
  unfolding valid_ticket accept_offer spend_permit
  clear node obj peer op admission =
      if same_operation op message && obj.version == 3
      then (do
        guard (is_none admission) invalid
        node' ← spend_permit node obj peer (lookup obj.reply_to node.work_out)
        ok (node', none))
      else elim admission [
        | none ↦ do guard (node.work_config.bits == 0) denied; ok (node, none)
        | some proof ↦ do
          guard (valid_ticket node obj peer op proof) denied
          offer ← accept_offer node obj peer proof proof.offer
          ok (node, offer)
      ]

  -- `_routed_work` is the difficulty that routing verified
  unfoldable pub entry :
      Node
      → Subject
      → ℕ
      → Operation
      → Option Proof
      → Option ℕ
      → Result (Node × Option (Signed OfferBody))
  unfolding clear
  entry node obj peer op admission none = clear node obj peer op admission
  entry node obj peer op admission (some work) = do
    guard
        (same_operation op message
          && obj.version == 2
          && is_none admission
          && leb node.work_config.bits work)
        denied
    ok (node, none)

  unfoldable pub keep_offer : Node → ℕ → ℕ → Option (Signed OfferBody) → Result Node
  keep_offer node id peer none = ok node
  keep_offer node id peer (some offer) = do
    guard (ltb (length node.admitted_offers) 10000) denied
    guard (not (has id node.admitted_offers)) integrity
    let row : Admission = record { peer = peer; offer = offer; expires = offer.body.expires }
    ok (record node { admitted_offers = insert_new id row node.admitted_offers })

  -- the accounting at the end of `admit`
  unfoldable pub charge : Node → Subject → ℕ → Result Node
  charge node obj peer = do
    let cfg = node.work_config
    check_capacity node peer obj.size
    n1 ← budget node (peer_key receiving peer) 1 obj.size cfg.peer_hour cfg.peer_hour_bytes
    n2 ← budget n1 (global_key receiving) 1 obj.size cfg.total_hour cfg.total_hour_bytes
    guard (not (has obj.id n2.storage)) integrity
    let row : Storage = record { peer = peer; bytes = obj.size }
    ok (record n2 { storage = insert_new obj.id row n2.storage })

  -- `admit`, in the transaction of the caller: an error undoes every write.
  unfoldable pub admit : Node → Subject → ℕ → Operation → Option Proof → Option ℕ → Result Node
  admit node obj peer op admission routed = do
    let swept = sweep node
    guard (not (is_banned swept peer)) denied
    (cleared, offer) ← entry swept obj peer op admission routed
    charged ← charge cleared obj peer
    keep_offer charged obj.id peer offer
