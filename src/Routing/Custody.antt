-- ===== src/Routing/Custody.antt =====
-- agentmesh/routing.py: sealed envelopes, the paid chain of hops, the custody queue and receipts.
--
-- `Seal` holds what the libraries do: the hash of a hop, the sizes of the stored texts, and the
-- sealing and the opening of a message (X25519, HKDF, ChaCha20Poly1305 and the JSON inside).
pub mod Chain
use intertexum.Prelude.{
  ℕ, ◌+◌, ◌-◌, ◌^◌, Bool, true, false, not, ◌&&◌, ◌||◌, ◌==◌, leb, ltb, elem, all, sum_by, length,
  List, [], ◌∷◌, ◌++◌, Option, none, some, Table, lookup, has, replace, insert_new, update,
  keep_rows, min, Result, ok, err, invalid, denied, guard, ◌>>=◌, ◌>>◌, if◌then◌else◌,
}
use intertexum.Crypto.{
  Env, Signed, SealedBody, HopBody, DeliveryBody, LsaBody, MessageBody, of_sealed, of_hop,
  of_delivery, of_message, sign, verify, valid_id,
}
use intertexum.Records.{byte_length}
use intertexum.State.{Capability, Node}
use intertexum.Policy.{capability}
use intertexum.Node.Peers.{key_of, peer}
use intertexum.Node.Message.{Message, make_message, receive_message, value_of}
use intertexum.Work.{between, budget, peer_key, global_key, carrying}
use intertexum.Routing.{
  Router, Routed, RouteState, queued, delivered, require, config, price, table,
}
use intertexum.Routing.Paths.{routes}

pub record Seal : Type 0 where
  pub hop_hash : HopBody → ℕ
  pub sealed_chars : Signed SealedBody → ℕ
  pub chain_chars : List (Signed HopBody) → ℕ
  -- from the key of the recipient's advertisement; none for a key that is not one
  pub close : ℕ → SealedBody → Message → Option (List ℕ)
  pub open_with : ℕ → SealedBody → Option Message

-- the tests of `_envelope` on a body, at a time
unfoldable pub valid_envelope : ℕ → SealedBody → Bool
valid_envelope now b =
    b.version == 1
    && (valid_id b.origin && valid_id b.recipient && valid_id b.message && valid_id b.ephemeral)
    && not (b.origin == b.recipient)
    && (ltb now b.expires && leb b.expires (now + 3600))
    && between 1 4 b.max_hops
    && length b.nonce == 12
    && between 16 16384 (length b.ciphertext)

-- the tests of `ingest_receipt` on a body, at a time
unfoldable pub valid_delivery : ℕ → DeliveryBody → Bool
valid_delivery now b =
    b.version == 1
    && (valid_id b.envelope && valid_id b.message && valid_id b.origin && valid_id b.recipient)
    && (ltb now b.expires && leb b.expires (now + 3600))

-- the receipt names what the row holds
unfoldable pub binds : Routed → DeliveryBody → Bool
binds row b =
    row.message == b.message
    && row.origin == b.origin
    && row.destination == b.recipient
    && row.expires == b.expires

unfoldable pub settle_receipt : Node → Router → Signed DeliveryBody → Option Routed → Result Router
unfolding binds
settle_receipt node r receipt none = ok r
settle_receipt node r receipt (some row) = do
  guard (binds row receipt.body) invalid
  let live = keep_rows (λ _ o. ltb node.now o.body.expires) r.receipts
  ok (record r {
    receipts = replace receipt.body.envelope receipt live;
    queue = update receipt.body.envelope (λ q. record q { state = delivered }) r.queue;
  })

abbrev pub stored_chars : Seal → Routed → ℕ
stored_chars seal row =
    elim row.wire [ none ↦ 0 | some obj ↦ seal.sealed_chars obj ] + seal.chain_chars row.chain

abbrev pub of_origin : ℕ → Table Routed → ℕ
of_origin origin rows = length (keep_rows (λ _ q. q.origin == origin) rows)

-- `_enqueue` of an envelope whose ID is new
unfoldable pub enqueue_new :
    Seal → Node → Router → Signed SealedBody → List (Signed HopBody) → Result Router
unfolding config
enqueue_new seal node r obj chain = do
  let c = config node r
  let live = keep_rows (λ _ q. ltb node.now q.expires) r.queue
  let size = sum_by (λ q. stored_chars seal q.1) live
  guard
      (ltb (length live) c.max_pending
        && leb (size + seal.sealed_chars obj + seal.chain_chars chain) c.max_bytes)
      denied
  guard (ltb (of_origin obj.body.origin live) 64) denied
  let row : Routed = record {
    message = obj.body.message;
    origin = obj.body.origin;
    destination = obj.body.recipient;
    wire = some obj;
    chain = chain;
    state = queued;
    attempts = 0;
    next = node.now;
    expires = obj.body.expires;
    next_hop = 0;
  }
  ok (record r { queue = insert_new obj.id row live })

unfoldable pub enqueue :
    Seal → Node → Router → Signed SealedBody → List (Signed HopBody) → Result Router
unfolding enqueue_new
enqueue seal node r obj chain =
    let fresh = enqueue_new seal node r obj chain in if has obj.id r.queue then ok r else fresh

module _ (env : Env) where
  -- `_envelope`
  unfoldable pub check_envelope : Node → Signed SealedBody → Result SealedBody
  unfolding valid_envelope
  check_envelope node obj = do
    guard (valid_id obj.body.origin && leb (env.wire_size (of_sealed obj.body)) 40000) invalid
    key ← key_of env node obj.body.origin false
    b ← verify env of_sealed obj key
    guard (valid_envelope node.now b) invalid
    ok b

  -- `ingest_receipt`
  unfoldable pub ingest_receipt : Node → Router → Signed DeliveryBody → Result Router
  unfolding valid_delivery settle_receipt
  ingest_receipt node r receipt = do
    guard (valid_id receipt.body.recipient && leb (env.wire_size (of_delivery receipt.body)) 2048)
        invalid
    key ← key_of env node receipt.body.recipient false
    b ← verify env of_delivery receipt key
    guard (valid_delivery node.now b) invalid
    settle_receipt node r receipt (lookup b.envelope r.queue)

  module _ (seal : Seal) where
    -- `_proof`
    unfoldable pub proves : HopBody → Bool
    proves h = ltb h.nonce (2 ^ 63) && ltb (seal.hop_hash h) (2 ^ (256 - h.bits))

    -- the tests of `_chain` on one hop
    unfoldable pub valid_hop : Signed SealedBody → ℕ → ℕ → List ℕ → HopBody → Bool
    unfolding proves
    valid_hop obj previous payer visited h =
        h.envelope == obj.id
        && h.payer == payer
        && h.previous == previous
        && h.expires == obj.body.expires
        && valid_id h.receiver
        && not (elem h.receiver visited)
        && between 8 28 h.bits
        && proves h

    -- the loop of `_chain`: the last payer and the peers on the way, the last first
    unfoldable pub follow :
        Node → Signed SealedBody → ℕ → ℕ → List ℕ → List (Signed HopBody) → Result (ℕ × List ℕ)
    unfolding valid_hop
    follow node obj previous payer visited [] = ok (payer, visited)
    follow node obj previous payer visited (hop ∷ rest) =
        let onward = follow node obj hop.id hop.body.receiver (hop.body.receiver ∷ visited) rest in
        do
          key ← key_of env node payer false
          h ← verify env of_hop hop key
          guard (valid_hop obj previous payer visited h) invalid
          onward

    unfoldable pub last_hop : List (Signed HopBody) → Option (Signed HopBody)
    last_hop [] = none
    last_hop (hop ∷ []) = some hop
    last_hop (hop ∷ next ∷ rest) = last_hop (next ∷ rest)

    -- `_chain`; it returns the last hop
    unfoldable pub check_last : Node → Router → ℕ → ℕ → Option (Signed HopBody) → Result HopBody
    check_last node r requester payer none = err invalid
    check_last node r requester payer (some hop) = do
      guard (hop.body.payer == requester && payer == node.id) denied
      guard (leb (price node r) hop.body.bits) denied
      ok hop.body

    unfoldable pub check_chain :
        Node → Router → Signed SealedBody → List (Signed HopBody) → ℕ → Result HopBody
    unfolding follow last_hop check_last
    check_chain node r obj chain requester = do
      guard (between 1 obj.body.max_hops (length chain)) invalid
      (payer, visited) ← follow node obj obj.id obj.body.origin (obj.body.origin ∷ []) chain
      check_last node r requester payer (last_hop chain)

    -- the recipient opens the message, takes it in and signs a receipt
    unfoldable pub take_message :
        Node → Router → Signed SealedBody → HopBody → Option Message → Result (Node × Router)
    unfolding ingest_receipt
    take_message node r obj last none = err invalid
    take_message node r obj last (some message) = do
      let b = obj.body
      guard (message.id == b.message && value_of message.body.expires == b.expires) invalid
      (node', _) ← receive_message env node message b.origin none (some last.bits)
      let receipt : DeliveryBody = record {
        version = 1;
        envelope = obj.id;
        message = b.message;
        origin = b.origin;
        recipient = node.id;
        expires = b.expires;
      }
      r' ← ingest_receipt node' r (sign env of_delivery node.key receipt)
      ok (node', r')

    -- a new envelope is charged to the peer that brings it and to all, and queued
    unfoldable pub take_custody :
        Node → Router → ℕ → Signed SealedBody → List (Signed HopBody) → Result (Node × Router)
    unfolding enqueue
    take_custody node r requester obj chain =
        let size = env.wire_size (of_sealed obj.body) in
        let fresh : Result (Node × Router) = do
          n1 ← budget node (peer_key carrying requester) 1 size 128 4194304
          n2 ← budget n1 (global_key carrying) 1 size 512 16777216
          r' ← enqueue seal n2 r obj chain
          ok (n2, r')
        in if has obj.id r.queue then ok (node, r) else fresh

    -- what an intermediate peer asks before it takes custody
    unfoldable pub may_carry : Node → Router → SealedBody → ℕ → ℕ → Result (Unit {0})
    may_carry node r b hops_taken max_hops = if b.recipient == node.id then ok tt else do
      require node r true
      capability node Capability.send
      guard (ltb hops_taken (min b.max_hops max_hops)) denied

    -- `accept`, a transaction
    unfoldable pub accept :
        Node → Router → ℕ → Signed SealedBody → List (Signed HopBody) → Result (Node × Router)
    unfolding check_envelope check_chain take_custody take_message may_carry
    accept node r requester obj chain = do
      capability node Capability.receive
      c ← require node r false
      peer node requester false
      b ← check_envelope node obj
      last ← check_chain node r obj chain requester
      guard (leb (length chain) c.max_hops) denied
      may_carry node r b (length chain) c.max_hops
      (node', r') ← take_custody node r requester obj chain
      let taken = take_message node' r' obj last (seal.open_with node.key b)
      if b.recipient == node.id then taken else ok (node', r')

    -- the envelope of `queue_message` around a message, sealed to the key of the recipient
    unfoldable pub seal_message :
        Node → ℕ → ℕ → ℕ → Message → ℕ → List ℕ → Result (Signed SealedBody)
    seal_message node recipient max_hops key message ephemeral nonce = do
      let header : SealedBody = record {
        version = 1;
        origin = node.id;
        recipient = recipient;
        message = message.id;
        expires = value_of message.body.expires;
        max_hops = max_hops;
        ephemeral = ephemeral;
        nonce = nonce;
        ciphertext = [];
      }
      elim (seal.close key header message) [
        | none ↦ err invalid
        | some ciphertext ↦
            ok (sign env of_sealed node.key (record header { ciphertext = ciphertext }))
      ]

    -- `queue_message`; the nonces and the ephemeral key are drawn by the libraries
    unfoldable pub queue_message :
        Node → Router → ℕ → List ℕ → ℕ → List ℕ → ℕ → List ℕ → Result (Router × Signed SealedBody)
    unfolding seal_message enqueue
    queue_message node r recipient content ttl message_nonce ephemeral nonce = do
      capability node Capability.send
      c ← require node r false
      peer node recipient false
      guard (between 60 3600 ttl && leb (byte_length content) 8192) invalid
      elim (lookup recipient (table node r)) [
        | none ↦ err denied
        | some ad ↦ do
          found ← routes node r recipient [] none
          guard (ltb 0 (length found)) denied
          message ←
              make_message env node recipient content message_nonce (some (node.now + ttl)) none
          guard (leb (env.wire_size (of_message message.body)) 16000) invalid
          obj ← seal_message node recipient c.max_hops ad.key message ephemeral nonce
          r' ← enqueue seal node r obj []
          ok (r', obj)
      ]
