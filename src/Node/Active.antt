-- ===== src/Node/Active.antt =====
-- Verification and authorization of one record, and `_active`, which every serving path uses:
-- `_verified_record`, `_stored_record`, `_visible`, `_withdrawn` and `_active` of agentmesh/node.py
-- and `eligible` of agentmesh/cache.py.
--
-- The cache of verified wires is left out, and `deadline` is `None`, as for the calls of this
-- module's clients other than a remote search.
pub mod Sound
use intertexum.Prelude.{
  ℕ, Bool, true, false, not, ◌&&◌, ◌||◌, ◌==◌, ltb, List, [], Option, none, some, lookup, Table,
  Result, ok, err, invalid, denied, guard, ◌>>=◌, ◌>>◌, if◌then◌else◌, ◌∷◌,
}
use intertexum.Crypto.{Env, RecordBody, Signed, of_record, verify, named, everyone}
use intertexum.Records.{validate_record, max_depth, is_public, is_everyone, includes}
use intertexum.State.{
  Permissions, Peer, Capability, Stored, RecordState, private, pending, accepted, Retraction,
  Transit, Node,
}
use intertexum.Policy.{capable, require_record}
use intertexum.Node.Peers.{peer, key_of}
use intertexum.Node.Ancestry.{Object, active_from}

-- `cache.eligible`
unfoldable pub live : ℕ → Option Transit → Bool
live now none = false
live now (some row) = ltb now row.expires

unfoldable pub eligible : Node → ℕ → Bool → Bool
unfolding live
eligible node rid reshare =
    capable node Capability.cache
    && (not reshare || capable node Capability.reshare)
    && live node.now (lookup rid node.transit)

-- 'publish' or, for a public record, 'public'
abbrev pub may_publish : Permissions → RecordBody → Bool
may_publish p body = p.publish || (p.public && is_public body.audience)

unfoldable pub check_origin : Node → RecordBody → Result (Unit {0})
check_origin node body =
    if body.origin == node.id
    then ok tt
    else do p ← peer node body.origin false; guard (may_publish p.permissions body) denied

-- `_withdrawn`
unfoldable pub withdrawn_in : ℕ → ℕ → Table Retraction → Bool
withdrawn_in rid origin [] = false
withdrawn_in rid origin ((_, r) ∷ rest) =
    (r.target == rid && r.origin == origin) || withdrawn_in rid origin rest

abbrev pub withdrawn : Node → ℕ → ℕ → Bool
withdrawn node rid origin = withdrawn_in rid origin node.retractions

-- `_visible`
unfoldable pub visible : Node → RecordBody → ℕ → Result Bool
visible node body requester =
    if requester == body.origin
    then ok true
    else if is_public body.audience
    then ok true
    else if requester == node.id
    then ok (is_everyone body.audience || includes body.audience (named requester))
    else do
      p ← peer node requester false
      ok (
          p.permissions.read
          && (is_everyone body.audience || includes body.audience (named requester)))

abbrev pub is_private : RecordState → Bool
is_private private = true
is_private _ = false

abbrev pub is_pending : RecordState → Bool
is_pending pending = true
is_pending _ = false

abbrev pub is_accepted : RecordState → Bool
is_accepted accepted = true
is_accepted _ = false

abbrev pub to_option {ℓ} : {A : Type ℓ} → Result A → Option A
to_option (ok a) = some a
to_option (err e) = none

module _ (env : Env) (node : Node) where
  -- `_verified_record`
  unfoldable pub verified_record : Object → Bool → Result RecordBody
  verified_record obj private_copy = do
    check_origin node obj.body
    key ← key_of env node obj.body.origin false
    body ← verify env of_record obj key
    validate_record env body node.model node.dimensions private_copy
    ok body

  -- `_stored_record`
  unfoldable pub stored_record : ℕ → Stored → Bool → Result Object
  stored_record rid row private_copy = do
    guard (row.wire.id == rid) invalid
    verified_record row.wire private_copy
    ok row.wire

  module _ (requester : ℕ) (transit : Bool) where
    abbrev pub is_own : Stored → Bool
    is_own row = is_private row.state && requester == node.id

    -- a transit copy that may be served in place of an approved record
    unfoldable pub is_cached : ℕ → Stored → Bool
    is_cached rid row =
        is_pending row.state
        && (not (requester == node.id) || transit)
        && eligible node rid (not (requester == node.id))

    -- the tests of `_active` on one record, in their order, and whether it is a transit copy
    unfoldable pub inspect_row : ℕ → Stored → Result (Object × Bool)
    inspect_row rid row = do
      let own = is_own row
      let cached = is_cached rid row
      guard (is_accepted row.state || cached || own) denied
      obj ← stored_record rid row own
      require_record node obj
      guard (not own || obj.body.origin == node.id) denied
      guard (not cached || is_public obj.body.audience) denied
      guard (requester == node.id || obj.body.origin == node.id || capable node Capability.reshare)
          denied
      guard (not (withdrawn node rid obj.body.origin)) denied
      seen ← visible node obj.body requester
      guard seen denied
      ok (obj, cached)

    unfoldable pub admitted : ℕ → Option (Object × Bool)
    admitted rid = elim (lookup rid node.records) [
      | none ↦ none
      | some row ↦ to_option (inspect_row rid row)
    ]

    -- `_active(rid, requester)` with a new path and memo
    unfoldable pub active : ℕ → Option Object
    active rid = (active_from admitted max_depth [] rid []).0
