-- ===== src/Node/Retract.antt =====
-- Withdrawals: `retract`, `_retraction_allocation` and `ingest_retraction` of agentmesh/node.py.
--
-- The row of `retraction_sources` stands beside the row of `retractions` that it belongs to.
pub mod Withdrawn
pub mod Quota
use intertexum.Prelude.{
  ℕ, suc, ◌+◌, Bool, true, false, not, ◌&&◌, ◌||◌, ◌==◌, ltb, List, [], ◌∷◌, Table, Option, none,
  some, lookup, insert_new, add, Result, ok, err, invalid, denied, integrity, has, guard, ◌>>=◌,
  ◌>>◌, if◌then◌else◌,
}
use intertexum.Crypto.{Env, RecordBody, RetractBody, Signed, of_retract, verify, sign, valid_id}
use intertexum.Records.{is_public}
use intertexum.State.{Allocation, local, stored, unknown, Retraction, Stored, Node}
use intertexum.Node.Peers.{peer, key_of}
use intertexum.Node.Ancestry.{Object}
use intertexum.Node.Active.{withdrawn, verified_record, visible, is_private}

abbrev pub max_events : ℕ
max_events = 10000

abbrev pub max_unknown_per_origin : ℕ
max_unknown_per_origin = 256

abbrev pub max_unknown_per_supplier : ℕ
max_unknown_per_supplier = 512

abbrev pub is_unknown : Allocation → Bool
is_unknown unknown = true
is_unknown _ = false

unfoldable pub same_allocation : Allocation → Allocation → Bool
same_allocation local local = true
same_allocation stored stored = true
same_allocation unknown unknown = true
same_allocation _ _ = false

-- `SELECT count(*) ... WHERE`
unfoldable pub count_rows : (Retraction → Bool) → Table Retraction → ℕ
count_rows p [] = 0
count_rows p ((_, r) ∷ rest) = (if p r then 1 else 0) + count_rows p rest

-- `_retraction_allocation`
unfoldable pub allocation_of : Node → ℕ → Option Stored → Allocation
allocation_of node origin none = if origin == node.id then local else unknown
allocation_of node origin (some row) =
    if origin == node.id then local else if row.wire.body.origin == origin then stored else unknown

-- the verified withdrawal as a row
unfoldable pub retraction_row : Signed RetractBody → ℕ → Allocation → Retraction
retraction_row obj supplier allocation = record {
  origin = obj.body.origin;
  target = obj.body.target;
  wire = obj;
  supplier = supplier;
  allocation = allocation;
}

-- `target and decode(target['wire'])['body']['audience']==['@public']`
unfoldable pub is_public_row : Option Stored → Bool
is_public_row none = false
is_public_row (some row) = is_public row.wire.body.audience

-- the limits of `ingest_retraction` on the pool and, for an unknown target, on origin and supplier
unfoldable pub has_room : Table Retraction → ℕ → ℕ → Allocation → Bool
unfolding count_rows same_allocation
has_room rows origin supplier allocation =
    ltb (count_rows (λ r. same_allocation r.allocation allocation) rows) max_events
    && (not (is_unknown allocation)
        || (ltb (count_rows (λ r. is_unknown r.allocation && r.origin == origin) rows)
              max_unknown_per_origin
            && ltb (count_rows (λ r. is_unknown r.allocation && r.supplier == supplier) rows)
                max_unknown_per_supplier))

module _ (env : Env) where
  -- The requested record stands in for a stored one: its allocation, and whether it is public.
  unfoldable pub reserve :
      Node → RetractBody → Allocation → Option Object → Result (Allocation × Bool)
  reserve node body allocation none = ok (allocation, false)
  reserve node body allocation (some requested) =
      if is_unknown allocation
        && requested.id == body.target
        && requested.body.origin == body.origin
      then (do
        record_body ← verified_record env node requested false
        seen ← visible node record_body node.id
        guard seen denied
        ok (stored, is_public record_body.audience))
      else ok (allocation, false)

  abbrev pub supplier_of : RetractBody → Option ℕ → ℕ
  supplier_of body none = body.origin
  supplier_of body (some s) = s

  unfoldable pub check_supplier : Node → ℕ → Result (Unit {0})
  check_supplier node supplier =
      if supplier == node.id then ok tt else do peer node supplier true; ok tt

  -- the writes at the end of `ingest_retraction`
  unfoldable pub write_retraction : Node → Signed RetractBody → ℕ → Allocation → Bool → Node
  unfolding retraction_row is_public_row
  write_retraction node obj supplier allocation requested_public =
      let marked =
        not (is_unknown allocation)
        && (requested_public || is_public_row (lookup obj.body.target node.records)) in
      record node {
        public_tombstones =
            if marked then add obj.body.target node.public_tombstones else node.public_tombstones;
        retractions = insert_new obj.id (retraction_row obj supplier allocation) node.retractions;
      }

  -- the part of `ingest_retraction` behind the test for a known withdrawal
  unfoldable pub store_retraction :
      Node → Signed RetractBody → Option ℕ → Option Object → Result Node
  unfolding check_supplier
  store_retraction node obj supplier requested = do
    let from = supplier_of obj.body supplier
    check_supplier node from
    let first = allocation_of node obj.body.origin (lookup obj.body.target node.records)
    (allocation, requested_public) ← reserve node obj.body first requested
    guard (has_room node.retractions obj.body.origin from allocation) denied
    guard (not (has obj.id node.retractions)) integrity
    ok (write_retraction node obj from allocation requested_public)

  unfoldable pub ingest_retraction :
      Node → Signed RetractBody → Option ℕ → Option Object → Result Node
  ingest_retraction node obj supplier requested = do
    key ← key_of env node obj.body.origin true
    body ← verify env of_retract obj key
    guard (body.version == 1 && valid_id body.target) invalid
    let rest = store_retraction node obj supplier requested
    elim (withdrawn node body.target body.origin) [ true ↦ ok node | false ↦ rest ]

  -- `retract` from the row of the record
  unfoldable pub retract_row : Node → ℕ → Stored → Result (Node × Signed RetractBody)
  retract_row node rid row = do
    guard (not (is_private row.state)) invalid
    guard (row.wire.body.origin == node.id) denied
    let body : RetractBody = record { version = 1; origin = node.id; target = rid }
    let obj = sign env of_retract node.key body
    node' ← ingest_retraction node obj none none
    ok (node', obj)

  unfoldable pub retract : Node → ℕ → Result (Node × Signed RetractBody)
  unfolding retract_row
  retract node rid = elim (lookup rid node.records) [
    | none ↦ err invalid
    | some row ↦ retract_row node rid row
  ]
