-- ===== src/Cache.antt =====
-- agentmesh/cache.py: transit copies of public records, their expiry and eviction, and the credit
-- that observed providers get.
pub mod Bounds
pub mod Keeps
use intertexum.Prelude.{
  ℕ, zero, suc, ◌+◌, ◌-◌, Bool, true, false, not, ◌&&◌, ◌||◌, ◌==◌, leb, ltb, List, [], ◌∷◌, ◌++◌,
  Table, Option, none, some, lookup, has, delete, replace, insert_new, keep_rows, keep, elem,
  sum_by, length, min, Result, ok, err, Error, invalid, denied, guard, ◌>>=◌, ◌>>◌, if◌then◌else◌,
}
use intertexum.Crypto.{Env, Signed, RecordBody, of_record}
use intertexum.Records.{is_public}
use intertexum.State.{
  Capability, CacheSettings, Transit, Observation, Stored, RecordState, pending, Node,
}
use intertexum.Policy.{
  capable, capability, sources, authors, require_source, require_record, remember_source, is_none,
}
use intertexum.Node.Peers.{peer}
use intertexum.Node.Ancestry.{Object}
use intertexum.Node.Active.{verified_record, withdrawn, active, is_pending, live}
use intertexum.Node.Share.{save, is_some, max_records}
use intertexum.Work.{is_banned, between}

-- `DELETE FROM records WHERE id=?`, with the triggers on the table
unfoldable pub drop_record : ℕ → Node → Node
drop_record rid node = record node {
  records = delete rid node.records;
  record_sources = keep (λ r. not (r.0 == rid)) node.record_sources;
}

-- what `discard` deletes: a pending record that has no retention row
unfoldable pub is_disposable : Node → ℕ → Option Stored → Bool
is_disposable node rid none = false
is_disposable node rid (some row) = is_pending row.state && not (has rid node.retention)

-- `discard`: the new state, and the number of records deleted
unfoldable pub discard : Node → ℕ → Node × ℕ
unfolding is_disposable drop_record
discard node rid =
    let cleared = record node { transit = delete rid node.transit } in
    if is_disposable node rid (lookup rid node.records)
    then (drop_record rid cleared, 1)
    else (cleared, 0)

-- `ORDER BY used,id`
abbrev pub TransitRow : Type 0
TransitRow = ℕ × Transit

abbrev pub before : TransitRow → TransitRow → Bool
before a b = ltb a.1.used b.1.used || (a.1.used == b.1.used && leb a.0 b.0)

unfoldable pub insert_row : TransitRow → List TransitRow → List TransitRow
insert_row x [] = x ∷ []
insert_row x (y ∷ ys) = let rest = insert_row x ys in if before x y then x ∷ y ∷ ys else y ∷ rest

unfoldable pub by_use : List TransitRow → List TransitRow
unfolding insert_row
by_use [] = []
by_use (x ∷ xs) = insert_row x (by_use xs)

unfoldable pub is_stale : Node → ℕ → Option Stored → ℕ → Bool
is_stale node now none expires = true
is_stale node now (some row) expires = not (is_pending row.state) || leb expires now

-- one turn of the first loop of `sweep`; `seen` is the state that the rows were selected from
unfoldable pub expire_row : Node → TransitRow → Node → ℕ → Node × ℕ
expire_row seen (rid, row) node removed =
    let (node', n) = discard node rid in
    if is_stale seen seen.now (lookup rid seen.records) row.expires
    then (node', removed + n)
    else (node, removed)

unfoldable pub expire_rows : Node → List TransitRow → Node × ℕ → Node × ℕ
unfolding is_stale expire_row
expire_rows seen [] acc = acc
expire_rows seen (entry ∷ rest) (node, removed) =
    expire_rows seen rest (expire_row seen entry node removed)

-- the second loop of `sweep`: the least recently used go until the limits are met
unfoldable pub evict_rows : CacheSettings → List TransitRow → ℕ → ℕ → Node × ℕ → Node × ℕ
evict_rows opts [] count size acc = acc
evict_rows opts ((rid, row) ∷ rest) count size (node, removed) =
    let (node', n) = discard node rid in
    let next = evict_rows opts rest (count - 1) (size - row.bytes) (node', removed + n) in
    if leb count opts.max_records && leb size opts.max_bytes then (node, removed) else next

abbrev pub transit_bytes : List TransitRow → ℕ
transit_bytes = sum_by (λ r. r.1.bytes)

-- `sweep`
unfoldable pub sweep : Node → Node × ℕ
sweep node =
    let watched = record node {
      observations = keep_rows (λ _ o. ltb node.now o.expires) node.observations;
    } in
    let (fresh, removed) = expire_rows watched (by_use watched.transit) (watched, 0) in
    let rows = by_use fresh.transit in
    evict_rows fresh.cache_settings rows (length rows) (transit_bytes rows) (fresh, removed)

-- `configure`: the settings that are given, then a sweep
unfoldable pub set_or : ℕ → Option ℕ → ℕ
set_or old none = old
set_or old (some value) = value

unfoldable pub in_range : ℕ → ℕ → Option ℕ → Bool
in_range lo hi none = true
in_range lo hi (some value) = between lo hi value

unfoldable pub cap_expiry : ℕ → Option ℕ → Table Transit → Table Transit
cap_expiry now ttl [] = []
cap_expiry now none t = t
cap_expiry now (some ttl) ((rid, row) ∷ t) =
    (rid, record row { expires = min row.expires (now + ttl) }) ∷ cap_expiry now (some ttl) t

unfoldable pub configure : Node → Option ℕ → Option ℕ → Option ℕ → Result Node
unfolding set_or in_range cap_expiry
configure node ttl max_records max_bytes = do
  capability node Capability.cache
  capability node Capability.retain
  guard (not (is_none ttl && is_none max_records && is_none max_bytes)) invalid
  guard (in_range 60 86400 ttl) invalid
  guard (in_range 1 2048 max_records) invalid
  guard (in_range 65536 268435456 max_bytes) invalid
  let old = node.cache_settings
  let new : CacheSettings = record {
    ttl = set_or old.ttl ttl;
    max_records = set_or old.max_records max_records;
    max_bytes = set_or old.max_bytes max_bytes;
  }
  ok
      (sweep
        (record node { cache_settings = new; transit = cap_expiry node.now ttl node.transit })).0

-- whether a record of that state may become or stay a transit copy
unfoldable pub may_manage : Node → ℕ → Option Stored → Bool
may_manage node rid none = true
may_manage node rid (some row) = is_pending row.state && has rid node.transit

module _ (env : Env) where
  abbrev pub size_of : Object → ℕ
  size_of obj = env.wire_size (of_record obj.body)

  -- the last part of `remember`: the copy is stored, then the limits are enforced
  unfoldable pub store_copy : Node → Object → Option ℕ → Result (Node × Bool)
  store_copy node obj source = do
    saved ← save node obj pending
    noted ← elim source [ none ↦ ok saved | some s ↦ remember_source saved obj s ]
    let row : Transit = record {
      expires = node.now + node.cache_settings.ttl;
      used = node.now_ns;
      bytes = size_of obj;
    }
    let (swept, _) = sweep (record noted { transit = replace obj.id row noted.transit })
    ok (swept, has obj.id swept.transit)

  -- the tests of `remember` that return `False`, after the first sweep
  unfoldable pub accepts_copy : Node → Object → Bool
  unfolding may_manage
  accepts_copy node obj =
      may_manage node obj.id (lookup obj.id node.records)
      && not (has obj.id node.retention)
      && leb (size_of obj) node.cache_settings.max_bytes
      && (has obj.id node.records || ltb (length node.records) max_records)

  unfoldable pub remember_swept : Node → Object → Option ℕ → Result (Node × Bool)
  unfolding store_copy accepts_copy
  remember_swept node obj source =
      if accepts_copy node obj then store_copy node obj source else ok (node, false)

  -- what can never be a transit copy
  unfoldable pub excluded : Node → Object → Bool
  excluded node obj =
      obj.body.origin == node.id
      || not (is_public obj.body.audience)
      || withdrawn node obj.id obj.body.origin
      || elem obj.id node.rejected

  -- `remember`, a transaction
  unfoldable pub remember : Node → Object → Option ℕ → Result (Node × Bool)
  unfolding remember_swept excluded
  remember node obj source =
      let tried = (do
        body ← verified_record env node obj false
        require_source node authors body.origin
        elim source [ none ↦ require_record node obj | some s ↦ require_source node sources s ]
        let rest = remember_swept (sweep node).0 obj source
        if excluded node obj then ok (node, false) else rest) in
      if capable node Capability.cache
        && capable node Capability.fetch
        && capable node Capability.retain
      then tried
      else ok (node, false)

  -- the test of `hit` on the copy that `_active` gives
  unfoldable pub is_public_copy : Option Object → Bool
  is_public_copy none = false
  is_public_copy (some obj) = is_public obj.body.audience

  unfoldable pub touch : ℕ → ℕ → Table Transit → Table Transit
  touch rid now_ns [] = []
  touch rid now_ns ((r, row) ∷ t) =
      (r, (if r == rid then record row { used = now_ns } else row)) ∷ touch rid now_ns t

  -- `hit`
  unfoldable pub hit : Node → ℕ → Node × Bool
  unfolding is_public_copy touch
  hit node rid =
      if capable node Capability.cache
        && live node.now (lookup rid node.transit)
        && is_public_copy (active env node node.id true rid)
      then (record node { transit = touch rid node.now_ns node.transit }, true)
      else (node, false)

  -- `credit`, a transaction
  unfoldable pub credit : Node → ℕ → Object → Result Node
  credit node from obj =
      let tried = (do
        body ← verified_record env node obj false
        let past = body.origin == from || body.origin == node.id || not (is_public body.audience)
        let skip = past || withdrawn node obj.id body.origin
        let known = peer node from false
        let kept = keep_rows (λ _ o. ltb node.now o.expires) node.observations
        let row : Observation = record { peer = from; expires = node.now + 86400 }
        let counted = record node {
          observations = if ltb (length kept) 2048 then insert_new obj.id row kept else kept;
        }
        if skip
            then ok node
            else (known >> (if is_banned node from then ok node else ok counted))) in
      if capable node Capability.reward_relays then tried else ok node
