-- ===== src/Lifecycle/Upkeep.antt =====
-- agentmesh/lifecycle.py: `maintain` evicts nothing of the owner's.
use intertexum.Prelude.{
  ℕ, ◌+◌, ◌-◌, ◌≡◌, ◌≢◌, ◌∙◌, ap, false, List, [], ◌∷◌, Option, some, lookup, keep_rows, arith,
  length, Bool-cases, inl, inr, lookup-delete, not, ok,
}
use intertexum.State.{Node, Stored, pending, Retention}
use intertexum.Cache.Keeps.{sweep-IsOwned}
use intertexum.Lifecycle.{
  maintain, upkeep, evict, erase, is_evictable, acknowledge, clock_messages, by_priority,
  RetentionRow,
}

lookup-erase :
    (rid other : ℕ) (node : Node) (row : Stored)
    → other ≢ rid
    → lookup rid node.records ≡ some row
    → lookup rid (erase other node).records ≡ some row
unfolding erase
lookup-erase rid other node row apart at = lookup-delete other rid node.records ∙ ground (arith, at)

module _ (seen : Node) (rid : ℕ) (row : Stored) (at : lookup rid seen.records ≡ some row)
    (own : row.wire.body.origin ≡ seen.id) where
  is_evictable-own :
      (t : Retention) (count : ℕ) (evict_to : Option ℕ)
      → is_evictable seen (lookup rid seen.records) t count evict_to ≡ false
  unfolding is_evictable
  is_evictable-own t count evict_to = rw at (ground arith)

  lookup-evict :
      (evict_to : Option ℕ) (rows : List RetentionRow) (count : ℕ) (node : Node) (removed : ℕ)
      → lookup rid node.records ≡ some row
      → lookup rid (evict seen evict_to rows count (node, removed)).0.records ≡ some row
  unfolding evict
  lookup-evict evict_to [] count node removed h = h
  lookup-evict evict_to ((other, t) ∷ rest) count node removed h =
      elim (Bool-cases (is_evictable seen (lookup other seen.records) t count evict_to)) [
        | inr kept ↦ rw (kept, evict) (lookup-evict evict_to rest count node removed h)
        | inl gone ↦
            let apart : other ≢ rid = λ same. ground (
              arith,
              is_evictable-own t count evict_to,
              ap (λ k. is_evictable seen (lookup k seen.records) t count evict_to) same,
            ) in
            rw (gone, evict)
              (lookup-evict evict_to rest (count - 1) (erase other node) (removed + 1)
                (lookup-erase rid other node row apart h))
      ]

upkeep-own :
    (node : Node) (ack_before : ℕ) (evict_to : Option ℕ) (rid : ℕ) (row : Stored)
    → lookup rid node.records ≡ some row
    → row.wire.body.origin ≡ node.id
    → row.state ≢ pending
    → lookup rid (upkeep node ack_before evict_to).0.records ≡ some row
unfolding upkeep acknowledge
upkeep-own node ack_before evict_to rid row at own settled =
    let (clock, last) = clock_messages node.messages (node.message_clock, node.last_seq) in
    let ticked : Node = record node { message_clock = clock; last_seq = last } in
    let rows = by_priority (keep_rows (λ _ t. not t.pinned) ticked.retention) in
    let evicted = evict ticked evict_to rows (length ticked.records) (ticked, 0) in
    let kept =
      lookup-evict ticked rid row at own evict_to rows (length ticked.records) ticked 0 at in
    (sweep-IsOwned rid row (acknowledge evicted.0 ack_before)
      (record { stored = kept; taken = inl settled })).stored

-- Maintenance, with the sweep of transit copies that ends it, deletes no record of the owner's that
-- is private or accepted, whatever the eviction target.
pub maintain-own :
    (node : Node) (ack_before : ℕ) (evict_to : Option ℕ) (node' : Node) (removed rid : ℕ)
    (row : Stored)
    → lookup rid node.records ≡ some row
    → row.wire.body.origin ≡ node.id
    → row.state ≢ pending
    → maintain node ack_before evict_to ≡ ok (node', removed)
    → lookup rid node'.records ≡ some row
unfolding maintain
maintain-own node ack_before evict_to node' removed rid row at own settled e =
    let same : (upkeep node ack_before evict_to).0 ≡ node' = ground arith in
    rw (← same) (upkeep-own node ack_before evict_to rid row at own settled)
