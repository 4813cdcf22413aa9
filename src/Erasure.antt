-- ===== src/Erasure.antt =====
-- agentmesh/erasure.py: the signed request of a peer to be removed from a seed.
use intertexum.Prelude.{
  ℕ, ◌+◌, Bool, ◌&&◌, ◌==◌, leb, ltb, length, List, Result, invalid, guard, ◌>>=◌, ◌>>◌, String,
  str_eq,
}
use intertexum.Crypto.{Env, Signed, RemovalBody, of_removal, sign, verify, certificate, public_id}
use intertexum.State.{Node}

-- the bounds that requests and signals set: a lifetime, and how far in the future one may start
unfoldable pub is_timely : ℕ → ℕ → ℕ → ℕ → ℕ → Bool
is_timely now lifetime ahead issued expires =
    (ltb issued expires && leb expires (issued + lifetime))
    && leb issued (now + 30)
    && (ltb now expires && leb expires (now + ahead))

module _ (env : Env) where
  -- `request`; the nonce is drawn by `secrets`
  unfoldable pub request : Node → ℕ → String → List ℕ → Signed RemovalBody
  request node seed network nonce = sign env of_removal node.key (record {
    peer = node.id;
    certificate = node.certificate;
    seed = seed;
    network = network;
    issued = node.now;
    expires = node.now + 300;
    nonce = nonce;
  })

  -- `validate`, of a seed at a time
  unfoldable pub validate : ℕ → String → ℕ → Signed RemovalBody → Result RemovalBody
  unfolding is_timely
  validate seed network now obj = do
    guard (leb (env.wire_size (of_removal obj.body)) 8192) invalid
    guard (obj.body.seed == seed && str_eq obj.body.network network) invalid
    guard (is_timely now 300 330 obj.body.issued obj.body.expires) invalid
    guard (length obj.body.nonce == 32) invalid
    key ← certificate env obj.body.certificate
    guard (public_id env key == obj.body.peer) invalid
    verify env of_removal obj key
