-- ===== src/Lifecycle.antt =====
-- agentmesh/lifecycle.py: the choice to retain or reject a record, maintenance and forgetting.
pub mod Choices
pub mod Upkeep
pub mod Inbox
use intertexum.Prelude.{
  ℕ, zero, suc, ◌+◌, ◌-◌, Bool, true, false, not, ◌&&◌, ◌||◌, ◌==◌, leb, ltb, List, [], ◌∷◌, ◌++◌,
  Table, Option, none, some, lookup, has, delete, replace, insert_new, keep_rows, keep, elem, add,
  length, Result, ok, err, Error, invalid, denied, guard, ◌>>=◌, ◌>>◌, if◌then◌else◌,
}
use intertexum.Crypto.{Signed, RecordBody, MessageBody, valid_id}
use intertexum.Records.{is_public}
use intertexum.State.{Capability, Retention, Stored, Node, private}
use intertexum.Policy.{capability}
use intertexum.Node.Active.{withdrawn, is_private}
use intertexum.Cache
use intertexum.Cache.{drop_record}

-- the two `DELETE`s of a record and its retention row
unfoldable pub erase : ℕ → Node → Node
unfolding drop_record
erase rid node =
    let dropped = drop_record rid node in
    record dropped { retention = delete rid dropped.retention }

abbrev pub max_rejected : ℕ
max_rejected = 10000

-- `retain` from the row of the record
unfoldable pub retain_row : Node → ℕ → Stored → Retention → Bool → Result Node
unfolding erase
retain_row node rid row choice reject =
    if reject
    then (do
      guard (not (is_private row.state || row.wire.body.origin == node.id)) denied
      guard (ltb (length node.rejected) max_rejected || elem rid node.rejected) denied
      ok (erase rid (record node { rejected = add rid node.rejected })))
    else ok (record node { retention = replace rid choice node.retention })

-- `retain`; `ttl` is 0 for no expiry
unfoldable pub retain : Node → ℕ → ℕ → Bool → ℕ → Bool → Result Node
unfolding retain_row
retain node rid priority pinned ttl reject = do
  capability node Capability.retain
  guard (valid_id rid && leb priority 100 && leb ttl 31536000) invalid
  let choice : Retention = record {
    priority = priority;
    pinned = pinned;
    expires = if ttl == 0 then 0 else node.now + ttl;
  }
  elim (lookup rid node.records) [
    | none ↦ err invalid
    | some row ↦ retain_row node rid row choice reject
  ]

-- `ORDER BY priority,id` on the rows of `retention`
abbrev pub RetentionRow : Type 0
RetentionRow = ℕ × Retention

abbrev pub precedes : RetentionRow → RetentionRow → Bool
precedes a b = ltb a.1.priority b.1.priority || (a.1.priority == b.1.priority && leb a.0 b.0)

unfoldable pub insert_row : RetentionRow → List RetentionRow → List RetentionRow
insert_row x [] = x ∷ []
insert_row x (y ∷ ys) = let rest = insert_row x ys in if precedes x y then x ∷ y ∷ ys else y ∷ rest

unfoldable pub by_priority : List RetentionRow → List RetentionRow
unfolding insert_row
by_priority [] = []
by_priority (x ∷ xs) = insert_row x (by_priority xs)

-- the test of `maintain` on one unpinned row that has a record
unfoldable pub is_evictable : Node → Option Stored → Retention → ℕ → Option ℕ → Bool
is_evictable node none t count evict_to = false
is_evictable node (some row) t count evict_to =
    not (row.wire.body.origin == node.id)
    && ((not (t.expires == 0) && leb t.expires node.now)
        || elim evict_to [ none ↦ false | some limit ↦ ltb limit count ])

-- the loop of `maintain`; `seen` is the state that the rows were selected from
unfoldable pub evict : Node → Option ℕ → List RetentionRow → ℕ → Node × ℕ → Node × ℕ
unfolding is_evictable erase
evict seen evict_to [] count acc = acc
evict seen evict_to ((rid, t) ∷ rest) count (node, removed) =
    let go = is_evictable seen (lookup rid seen.records) t count evict_to in
    evict seen evict_to rest (if go then count - 1 else count)
      (if go then (erase rid node, removed + 1) else (node, removed))

-- `INSERT OR IGNORE INTO message_clock(id) SELECT id FROM messages ORDER BY rowid`
unfoldable pub clock_messages : Table (Signed MessageBody) → Table ℕ × ℕ → Table ℕ × ℕ
clock_messages [] acc = acc
clock_messages ((mid, _) ∷ rest) (clock, last) =
    clock_messages rest
      (if has mid clock then (clock, last) else (clock ++ (mid, last + 1) ∷ [], last + 1))

unfoldable pub is_acknowledged : Option ℕ → ℕ → Bool
is_acknowledged none ack_before = false
is_acknowledged (some seq) ack_before = leb seq ack_before

-- the deletion of acknowledged messages, with the trigger on the table
unfoldable pub acknowledge : Node → ℕ → Node
unfolding is_acknowledged
acknowledge node ack_before =
    let gone = λ (mid : ℕ). is_acknowledged (lookup mid node.message_clock) ack_before in
    record node {
      storage = keep_rows (λ mid _. not (has mid node.messages && gone mid)) node.storage;
      messages = keep_rows (λ mid _. not (gone mid)) node.messages;
      message_clock = keep_rows (λ _ seq. not (leb seq ack_before)) node.message_clock;
    }

-- `maintain` behind its checks: the transaction, and the sweep that follows it
unfoldable pub upkeep : Node → ℕ → Option ℕ → Node × ℕ
unfolding clock_messages acknowledge evict by_priority
upkeep node ack_before evict_to =
    let (clock, last) = clock_messages node.messages (node.message_clock, node.last_seq) in
    let ticked = record node { message_clock = clock; last_seq = last } in
    let rows = by_priority (keep_rows (λ _ t. not t.pinned) ticked.retention) in
    let (evicted, removed) = evict ticked evict_to rows (length ticked.records) (ticked, 0) in
    let (swept, more) = Cache.sweep (acknowledge evicted ack_before) in (swept, removed + more)

unfoldable pub maintain : Node → ℕ → Option ℕ → Result (Node × ℕ)
maintain node ack_before evict_to = do
  capability node Capability.retain
  guard (elim evict_to [ none ↦ true | some limit ↦ leb limit 10000 ]) invalid
  ok (upkeep node ack_before evict_to)

-- `forget` from the row of the record
unfoldable pub forget_row : Node → ℕ → Stored → Result Node
unfolding erase
forget_row node rid row = do
  guard (row.wire.body.origin == node.id) denied
  guard (is_private row.state || withdrawn node rid node.id) denied
  let marked =
      if is_public row.wire.body.audience
      then add rid node.public_tombstones
      else node.public_tombstones
  ok (erase rid (record node { public_tombstones = marked }))

unfoldable pub forget : Node → ℕ → Result Node
unfolding forget_row
forget node rid = do
  capability node Capability.retain
  guard (valid_id rid) invalid
  elim (lookup rid node.records) [ none ↦ ok node | some row ↦ forget_row node rid row ]
