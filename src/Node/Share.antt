-- ===== src/Node/Share.antt =====
-- Private memory, publishing, import and approval: `write_private`, `publish`, `_check_parents`,
-- `ingest`, `approve` and `get` of agentmesh/node.py.
--
-- An error leaves the state as it was, but in `ingest`, which can fail after it saved.
pub mod Audience
pub mod Import
pub mod Approval
use intertexum.Prelude.{
  ℕ, ◌*◌, Bool, true, false, not, ◌&&◌, ◌||◌, ◌==◌, leb, ltb, elem, List, [], ◌∷◌, length, map,
  Option, none, some, lookup, has, insert_new, update, delete, Result, ok, err, invalid, denied,
  guard, ◌>>=◌, ◌>>◌, all, if◌then◌else◌,
}
use intertexum.Crypto.{Env, Reader, everyone, anyone, named, RecordBody, Signed, of_record, sign}
use intertexum.Records.{
  check_vector, validate_record, is_public, is_everyone, includes, reader_eq, reader_lt,
}
use intertexum.State.{Capability, Stored, RecordState, private, pending, accepted, Node}
use intertexum.Policy.{
  capable, capability, sources, authors, require_source, require_record, remember_source, sort,
}
use intertexum.Node.Peers.{require, reading}
use intertexum.Node.Ancestry.{Object}
use intertexum.Node.Active.{verified_record, visible, withdrawn, active, is_private, is_accepted}

abbrev pub max_records : ℕ
max_records = 10000

-- `sorted(set(parents))` and `sorted(set(audience))`
unfoldable pub insert_id : ℕ → List ℕ → List ℕ
insert_id x [] = x ∷ []
insert_id x (y ∷ ys) =
    let rest = insert_id x ys in if x == y then y ∷ ys else if ltb x y then x ∷ y ∷ ys else y ∷ rest

unfoldable pub sorted_ids : List ℕ → List ℕ
unfolding insert_id
sorted_ids [] = []
sorted_ids (x ∷ xs) = insert_id x (sorted_ids xs)

unfoldable pub insert_reader : Reader → List Reader → List Reader
insert_reader x [] = x ∷ []
insert_reader x (y ∷ ys) =
    let rest = insert_reader x ys in
    if reader_eq x y then y ∷ ys else if reader_lt x y then x ∷ y ∷ ys else y ∷ rest

unfoldable pub sorted_readers : List Reader → List Reader
unfolding insert_reader
sorted_readers [] = []
sorted_readers (x ∷ xs) = insert_reader x (sorted_readers xs)

-- `_save`
unfoldable pub save : Node → Object → RecordState → Result Node
save node obj state = do
  guard (has obj.id node.records || ltb (length node.records) max_records) denied
  let row : Stored = record { wire = obj; state = state }
  ok (record node { records = insert_new obj.id row node.records })

-- `set(pa) | {origin}` holds every member of the audience
unfoldable pub is_covered : List Reader → ℕ → List Reader → Bool
is_covered parents_audience origin =
    all (λ r. includes parents_audience r || reader_eq r (named origin))

-- The test of `_check_parents` on one parent: the audience does not widen the parent's.
unfoldable pub narrows : List Reader → RecordBody → Bool
unfolding is_covered
narrows audience parent =
    is_public parent.audience
    || (not (is_public audience)
        && (is_everyone parent.audience
            || (not (is_everyone audience) && is_covered parent.audience parent.origin audience)))

abbrev pub with_state : Node → ℕ → RecordState → Node
with_state node rid state = record node {
  records = update rid (λ r. record r { state = state }) node.records;
}

abbrev pub is_some {ℓ} : {A : Type ℓ} → Option A → Bool
is_some none = false
is_some (some a) = true

module _ (env : Env) where
  unfoldable pub check_parent : Node → List Reader → Option Object → Result (Unit {0})
  check_parent node audience none = err denied
  check_parent node audience (some parent) = guard (narrows audience parent.body) denied

  unfoldable pub check_each : Node → List Reader → List ℕ → Result (Unit {0})
  unfolding check_parent
  check_each node audience [] = ok tt
  check_each node audience (rid ∷ rest) =
      let others = check_each node audience rest in
      check_parent node audience (active env node node.id false rid) >> others

  -- `_check_parents`
  abbrev pub check_parents : Node → RecordBody → Result (Unit {0})
  check_parents node body = check_each node body.audience body.parents

  -- `write_private`; `now_ms` is `int(time.time()*1000)`
  unfoldable pub write_private : Node → List ℕ → List ℕ → List ℕ → ℕ → Result (Node × ℕ)
  unfolding sorted_ids save
  write_private node content embedding parents now_ms = do
    capability node Capability.write
    check_vector env embedding node.dimensions
    let body : RecordBody = record {
      version = 1;
      origin = node.id;
      model = node.model;
      vector = embedding;
      text = content;
      parents = sorted_ids parents;
      audience = [];
      created_ms = now_ms;
    }
    validate_record env body node.model node.dimensions true
    let obj = sign env of_record node.key body
    node' ← save node obj private
    ok (node', obj.id)

  -- `publish` from the row of the private record
  unfoldable pub publish_row : Node → Stored → List Reader → Result (Node × ℕ)
  unfolding sorted_readers save
  publish_row node row audience = do
    guard (is_private row.state) invalid
    draft ← verified_record env node row.wire true
    let body = record draft { audience = sorted_readers audience }
    validate_record env body node.model node.dimensions false
    check_parents node body
    let shared = sign env of_record node.key body
    guard (not (withdrawn node shared.id node.id)) denied
    node' ← save node shared accepted
    ok (node', shared.id)

  unfoldable pub publish : Node → ℕ → List Reader → Result (Node × ℕ)
  unfolding publish_row
  publish node private_id audience = do
    capability node Capability.publish
    elim (lookup private_id node.records) [
      | none ↦ err invalid
      | some row ↦ publish_row node row audience
    ]

  -- The checks of `ingest` before it saves.
  unfoldable pub check_import : Node → Object → Option ℕ → Result (Unit {0})
  check_import node obj source = do
    capability node Capability.fetch
    body ← verified_record env node obj false
    seen ← visible node body node.id
    guard seen denied
    guard (not (withdrawn node obj.id body.origin)) denied
    guard (not (elem obj.id node.rejected)) denied
    require_source node authors body.origin
    elim source [ none ↦ require_record node obj | some s ↦ require_source node sources s ]

  unfoldable pub note_source : Node → Object → Option ℕ → Result Node
  note_source node obj none = ok node
  note_source node obj (some source) = remember_source node obj source

  unfoldable pub noted : Node → Object → Result Node → Result ℕ × Node
  noted node' obj (err e) = (err e, node')
  noted node' obj (ok node'') = (ok obj.id, node'')

  -- What was saved stays saved if `remember_source` raises.
  unfoldable pub after_save : Node → Object → Option ℕ → Result Node → Result ℕ × Node
  unfolding noted
  after_save node obj source (err e) = (err e, node)
  after_save node obj source (ok node') = noted node' obj (note_source node' obj source)

  unfoldable pub ingest : Node → Object → Option ℕ → Result ℕ × Node
  unfolding after_save
  ingest node obj source =
      after_save node obj source (check_import node obj source >> save node obj pending)

  -- `approve` from the row of the record. If the approved record is not active, its old state is
  -- written back before the error, so the state is the one before.
  unfoldable pub approve_row : Node → ℕ → Stored → Result Node
  approve_row node rid row = do
    guard (not (is_private row.state)) invalid
    body ← verified_record env node row.wire false
    require_record node row.wire
    guard (not (withdrawn node rid body.origin)) denied
    seen ← visible node body node.id
    guard seen denied
    check_parents node body
    let node' = with_state node rid accepted
    guard (is_some (active env node' node.id false rid)) denied
    ok (record node' { transit = delete rid node'.transit })

  unfoldable pub approve : Node → ℕ → Result Node
  unfolding approve_row
  approve node rid = do
    capability node Capability.approve
    elim (lookup rid node.records) [ none ↦ err invalid | some row ↦ approve_row node rid row ]

  -- `get`
  unfoldable pub get : Node → ℕ → ℕ → Result Object
  get node rid requester = do
    guard (requester == node.id || capable node Capability.serve_memory) denied
    require node requester reading
    elim (active env node requester false rid) [ none ↦ err denied | some obj ↦ ok obj ]
