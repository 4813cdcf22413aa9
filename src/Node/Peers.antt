-- ===== src/Node/Peers.antt =====
-- Peers and permissions: `trust`, `peer`, `require`, `block` and `_key` of agentmesh/node.py,
-- `effective` and `authorize` of agentmesh/openmesh.py.
use intertexum.Prelude.{
  ℕ, ◌+◌, Bool, true, false, not, ◌&&◌, ◌||◌, ◌==◌, leb, ltb, length, Option, none, some, lookup,
  delete, replace, update, insert_new, Result, ok, err, invalid, denied, guard, ◌>>=◌, ◌>>◌,
  if◌then◌else◌, has,
}
use intertexum.Crypto.{Env, Card, certificate, public_id, valid_id}
use intertexum.State.{Permissions, Peer, Grant, Capability, Node}
use intertexum.Policy.{capability}

abbrev pub no_permissions : Permissions
no_permissions = record { read = false; publish = false; message = false; public = false }

-- `set(a) | set(b)`
unfoldable pub union : Permissions → Permissions → Permissions
union a b = record {
  read = a.read || b.read;
  publish = a.publish || b.publish;
  message = a.message || b.message;
  public = a.public || b.public;
}

abbrev pub is_empty : Permissions → Bool
is_empty p = not (p.read || p.publish || p.message || p.public)

unfoldable pub grant_of : ℕ → Option Grant → Permissions
grant_of now none = no_permissions
grant_of now (some g) = if ltb now g.expires then g.permissions else no_permissions

unfoldable pub effective : Node → ℕ → Permissions → Permissions
unfolding union grant_of
effective node peer base = union base (grant_of node.now (lookup peer node.grants))

abbrev pub expired : ℕ → Option ℕ → Bool
expired now none = false
expired now (some t) = leb t now

unfoldable pub known_peer : Node → ℕ → Bool → Option Peer → Result Peer
unfolding effective
known_peer node peer_id allow_blocked none = err denied
known_peer node peer_id allow_blocked (some row) =
    if row.blocked && not allow_blocked
    then err denied
    else ok (record row { permissions = effective node peer_id row.permissions })

-- `Node.peer`, which raises for an expired membership, an unknown peer and a blocked one
unfoldable pub peer : Node → ℕ → Bool → Result Peer
unfolding known_peer
peer node peer_id allow_blocked =
    if not allow_blocked && expired node.now (lookup peer_id node.admissions)
    then err denied
    else known_peer node peer_id allow_blocked (lookup peer_id node.peers)

pub data Permission : Type 0 where
  reading publishing messaging : Permission

unfoldable pub holds : Permission → Permissions → Bool
holds reading p = p.read || p.public
holds publishing p = p.publish
holds messaging p = p.message

-- `Node.require`: 'public' serves for 'read'
unfoldable pub require : Node → ℕ → Permission → Result (Unit {0})
unfolding holds
require node peer_id permission =
    if peer_id == node.id
    then ok tt
    else do p ← peer node peer_id false; guard (holds permission p.permissions) denied

module _ (env : Env) where
  -- `Node._key`
  unfoldable pub key_of : Node → ℕ → Bool → Result ℕ
  key_of node peer_id historical =
      if peer_id == node.id
      then ok node.public_key
      else do p ← peer node peer_id historical; certificate env p.card.certificate

  -- `Node.trust`: the row of `peers` is made or overwritten, and an automatic admission goes.
  unfoldable pub trust : Node → Card → Permissions → Result Node
  trust node card permissions = do
    key ← certificate env card.certificate
    guard (public_id env key == card.id) invalid
    guard (ltb 0 (length card.host) && leb (length card.host) 253) invalid
    guard (leb 1 card.port && leb card.port 65535) invalid
    guard (not (card.id == node.id)) invalid
    let row : Peer = record { card = card; permissions = permissions; blocked = false }
    ok (record node {
      admissions = delete card.id node.admissions;
      peers =
          if has card.id node.peers
          then update card.id (λ _. row) node.peers
          else insert_new card.id row node.peers;
    })

-- `Node.block`
unfoldable pub block : Node → ℕ → Result Node
block node peer_id = do
  peer node peer_id true
  ok (record node { peers = update peer_id (λ p. record p { blocked = true }) node.peers })

-- `openmesh.authorize`; a private grant does not hold 'public'
unfoldable pub authorize : Node → ℕ → Permissions → ℕ → Result Node
authorize node peer_id permissions ttl = do
  capability node Capability.manage_access
  guard (valid_id peer_id) invalid
  guard (not permissions.public) invalid
  guard (leb 60 ttl && leb ttl 604800) invalid
  peer node peer_id false
  let row : Grant = record { permissions = permissions; expires = node.now + ttl }
  ok (record node {
    grants =
        if is_empty permissions
        then delete peer_id node.grants
        else replace peer_id row node.grants;
  })
