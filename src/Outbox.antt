-- ===== src/Outbox.antt =====
-- agentmesh/conversations.py: the durable outbox, the claim of one entry and its delivery.
--
-- The rows of `outbox` stand in the order of their rowids; the arguments of a request and the texts
-- of errors are left out. `_delivery_ready` is on another clock: the peers that it holds back are an
-- argument. The request of the network client is its answer.
pub mod Order
pub mod Outcome
use intertexum.Prelude.{
  ℕ, ◌+◌, ◌^◌, Bool, true, false, not, ◌&&◌, ◌||◌, ◌==◌, leb, ltb, elem, add, List, [], ◌∷◌, ◌++◌,
  length, keep, take, Option, none, some, Table, lookup, insert_new, update, keep_rows, min, Result,
  ok, err, Error, invalid, denied, work_budget, guard, ◌>>=◌, ◌>>◌, if◌then◌else◌,
}
use intertexum.Crypto.{Env, Operation, message, valid_id}
use intertexum.State.{
  Capability, Delivery, queued, paused, delivered, lapsed, Outgoing, WorkOut, Node,
}
use intertexum.Policy.{capability}
use intertexum.Node.Peers.{peer}
use intertexum.Node.Message.{Message, make_message}
use intertexum.Work.{between}

-- `state IN ('queued','paused')`
abbrev pub is_waiting : Delivery → Bool
is_waiting queued = true
is_waiting paused = true
is_waiting _ = false

abbrev pub is_queued : Delivery → Bool
is_queued queued = true
is_queued _ = false

abbrev pub is_paused : Delivery → Bool
is_paused paused = true
is_paused _ = false

abbrev pub max_outbox : ℕ
max_outbox = 10000

-- `enqueue`, with the ID of the message or the post
unfoldable pub enqueue : Node → ℕ → Operation → ℕ → ℕ → Result Node
enqueue node recipient op id ttl = do
  capability node Capability.send
  peer node recipient false
  guard (between 60 604800 ttl) invalid
  guard (ltb (length node.outbox) max_outbox) denied
  let row : Outgoing = record {
    peer = recipient;
    op = op;
    state = queued;
    attempts = 0;
    next = node.now;
    expires = node.now + ttl;
  }
  ok (record node { outbox = insert_new id row node.outbox })

-- `queue_message`
unfoldable pub queue_message : Env → Node → ℕ → List ℕ → List ℕ → ℕ → Result Node
unfolding enqueue
queue_message env node recipient content nonce ttl = do
  obj ← make_message env node recipient content nonce (some (node.now + ttl)) none
  enqueue node recipient message obj.id ttl

abbrev pub OutboxRow : Type 0
OutboxRow = ℕ × Outgoing

-- `ORDER BY id`
unfoldable pub insert_outgoing : OutboxRow → List OutboxRow → List OutboxRow
insert_outgoing x [] = x ∷ []
insert_outgoing x (y ∷ ys) =
    let rest = insert_outgoing x ys in if leb x.0 y.0 then x ∷ y ∷ ys else y ∷ rest

unfoldable pub by_id : List OutboxRow → List OutboxRow
unfolding insert_outgoing
by_id [] = []
by_id (x ∷ xs) = insert_outgoing x (by_id xs)

-- `ack` deletes an entry that is delivered or expired
unfoldable pub acknowledge_delivery : Node → Option ℕ → Result Node
acknowledge_delivery node none = ok node
acknowledge_delivery node (some id) = do
  guard (valid_id id) invalid
  ok (record node {
    outbox = keep_rows (λ rid r. not (rid == id && not (is_waiting r.state))) node.outbox;
  })

-- `deliveries`: a page of the outbox, and whether more follow
unfoldable pub deliveries : Node → Option ℕ → ℕ → Option ℕ → Result (Node × List OutboxRow × Bool)
unfolding acknowledge_delivery by_id
deliveries node after limit ack = do
  capability node Capability.send
  guard (elim after [ none ↦ true | some id ↦ valid_id id ]) invalid
  guard (between 1 100 limit) invalid
  node' ← acknowledge_delivery node ack
  let behind = keep_rows (λ rid _. elim after [ none ↦ true | some id ↦ ltb id rid ]) node'.outbox
  let rows = take (limit + 1) (by_id behind)
  ok (node', take limit rows, ltb limit (length rows))

-- the expiry that a claim begins with
unfoldable pub expire_outbox : ℕ → Table Outgoing → Table Outgoing
expire_outbox now [] = []
expire_outbox now ((id, row) ∷ rest) =
    (
      id,
      (if is_waiting row.state && leb row.expires now then record row { state = lapsed } else row),
    )
    ∷ expire_outbox now rest

abbrev pub is_due : ℕ → List ℕ → List ℕ → Outgoing → Bool
is_due now excluded waiting row =
    is_queued row.state
    && leb row.next now
    && not (elem row.peer waiting)
    && not (elem row.peer excluded)

-- The rows that the query of a claim selects; `waiting` are the peers of the waiting rows before.
unfoldable pub due : ℕ → List ℕ → List ℕ → Table Outgoing → List OutboxRow
due now excluded waiting [] = []
due now excluded waiting ((id, row) ∷ rest) =
    let others =
      due now excluded (if is_waiting row.state then row.peer ∷ waiting else waiting) rest in
    if is_due now excluded waiting row then (id, row) ∷ others else others

-- `ORDER BY q.next,q.rowid LIMIT 1`
abbrev pub sooner : OutboxRow → Option OutboxRow → Option OutboxRow
sooner x none = some x
sooner x (some y) = if leb x.1.next y.1.next then some x else some y

unfoldable pub soonest : List OutboxRow → Option OutboxRow
soonest [] = none
soonest (x ∷ xs) = sooner x (soonest xs)

-- the row that was found, and its peer marked as busy
unfoldable pub take_claim : Node → Option OutboxRow → Node × Option OutboxRow
take_claim node none = (node, none)
take_claim node (some (id, row)) =
    (record node { delivering = add row.peer node.delivering }, some (id, row))

-- `_claim_delivery`; `held` are the peers that the pace of the worker holds back
unfoldable pub claim_delivery : Node → List ℕ → Result (Node × Option OutboxRow)
unfolding expire_outbox due soonest take_claim
claim_delivery node held = do
  capability node Capability.send
  capability node Capability.network
  let rows = expire_outbox node.now node.outbox
  let found = soonest (due node.now (node.delivering ++ held) [] rows)
  ok (take_claim (record node { outbox = rows }) found)

-- what the request came to: the ID of the receipt, or an exception
pub data Answer : Type 0 where
  receipt : ℕ → Answer
  failed : Error → Answer

unfoldable pub outcome : ℕ → Answer → Delivery
outcome id (receipt got) = if got == id then delivered else queued
outcome id (failed work_budget) = paused
outcome id (failed _) = queued

-- the wait before the next attempt, in seconds
unfoldable pub backoff : ℕ → ℕ
backoff attempts = min 300 (2 ^ min (attempts + 1) 9)

abbrev pub release : ℕ → Node → Node
release peer_id node = record node { delivering = keep (λ p. not (p == peer_id)) node.delivering }

-- the row behind the request
unfoldable pub note_attempt : Node → OutboxRow → Answer → Node
unfolding outcome backoff
note_attempt node (id, row) answer = record node {
  outbox =
      update id
        (λ r. record r {
          state = outcome id answer;
          attempts = r.attempts + 1;
          next = node.now + backoff row.attempts;
        })
        node.outbox;
}

-- the `finally` of `_deliver_claimed`, with or without an exception of the policy
unfoldable pub finish_attempt : Node → Node → ℕ → Result (Unit {0}) → Node × Result (Unit {0})
finish_attempt node tried peer_id (err e) = (release peer_id node, err e)
finish_attempt node tried peer_id (ok done) = (release peer_id tried, ok tt)

-- `_deliver_claimed`
unfoldable pub deliver_claimed : Node → OutboxRow → Answer → Node × Result (Unit {0})
unfolding note_attempt finish_attempt
deliver_claimed node (id, row) answer =
    finish_attempt node (note_attempt node (id, row) answer) row.peer
      (capability node Capability.send >> capability node Capability.network)

-- `deliver`
unfoldable pub deliver : Node → Answer → Node × Result (Unit {0})
unfolding claim_delivery deliver_claimed
deliver node answer = elim (claim_delivery node []) [
  | err e ↦ (node, err e)
  | ok (claimed, none) ↦ (claimed, ok tt)
  | ok (claimed, some row) ↦ deliver_claimed claimed row answer
]

-- `resume` of agentmesh/message_work.py
unfoldable pub resume : Node → ℕ → Result Node
resume node id = do
  guard (valid_id id) invalid
  guard (elim (lookup id node.outbox) [ none ↦ false | some row ↦ is_paused row.state ]) denied
  ok (record node {
    work_out = update id (λ r. record r { spent = 0; ticket = none; nonce = none }) node.work_out;
    outbox = update id (λ r. record r { state = queued; next = node.now }) node.outbox;
  })
