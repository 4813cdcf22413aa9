-- ===== src/Node/Message.antt =====
-- Direct messages: `make_message` and `receive_message` of agentmesh/node.py.
pub mod Replay
use intertexum.Prelude.{
  ℕ, ◌+◌, Bool, true, false, not, ◌&&◌, ◌||◌, ◌==◌, leb, ltb, List, [], ◌∷◌, ◌++◌, length, Table,
  Option, none, some, lookup, has, insert_new, keep_rows, Result, ok, err, invalid, denied, guard,
  ◌>>=◌, ◌>>◌, if◌then◌else◌,
}
use intertexum.Crypto.{
  Env, MessageBody, Signed, of_message, verify, sign, valid_id, Operation, message,
}
use intertexum.Records.{check_text}
use intertexum.State.{Capability, Node}
use intertexum.Policy.{capability, senders, require_source, is_none}
use intertexum.Node.Peers.{require, messaging, key_of, peer}
use intertexum.Node.Share.{max_records}
use intertexum.Work.{Subject, Proof, admit}

abbrev pub max_received : ℕ
max_received = 20000

abbrev pub Message : Type 0
Message = Signed MessageBody

-- the fields of the body are those of its version
unfoldable pub has_fields : MessageBody → Bool
has_fields body =
    (body.version == 1 && is_none body.expires && is_none body.reply_to && is_none body.permit)
    || (body.version == 2
        && not (is_none body.expires)
        && is_none body.reply_to
        && is_none body.permit)
    || (body.version == 3
        && not (is_none body.expires)
        && not (is_none body.reply_to)
        && not (is_none body.permit))

abbrev pub value_of : Option ℕ → ℕ
value_of none = 0
value_of (some v) = v

-- `body['version'] in (2,3)` and its expiry
unfoldable pub is_current : Node → MessageBody → Bool
is_current node body =
    body.version == 1
    || (ltb node.now (value_of body.expires) && leb (value_of body.expires) (node.now + 604800))

module _ (env : Env) where
  unfoldable pub subject_of : Message → Subject
  subject_of obj = record {
    id = obj.id;
    version = obj.body.version;
    thread = none;
    text = obj.body.text;
    expires = obj.body.expires;
    reply_to = value_of obj.body.reply_to;
    permit = value_of obj.body.permit;
    size = env.wire_size (of_message obj.body);
  }

  -- the tests of `receive_message` before it looks into its tables
  unfoldable pub check_message : Node → Message → ℕ → Result (Unit {0})
  unfolding has_fields is_current
  check_message node obj requester = do
    capability node Capability.receive
    require_source node senders requester
    require node requester messaging
    key ← key_of env node requester false
    body ← verify env of_message obj key
    guard (has_fields body) invalid
    guard (body.origin == requester && body.recipient == node.id) invalid
    guard (length body.nonce == 32) invalid
    check_text env body.text
    guard
        (not (body.version == 3)
          || (valid_id (value_of body.reply_to) && valid_id (value_of body.permit)))
        invalid
    guard (is_current node body) denied

  abbrev pub still_received : Node → Table ℕ
  still_received node = keep_rows (λ _ t. t == 0 || ltb node.now t) node.received_ids

  -- a message whose ID is new: noted as received, admitted, stored
  unfoldable pub store_message : Node → Message → ℕ → Option Proof → Option ℕ → Result Node
  store_message node obj requester admission routed = do
    guard (ltb (length node.received_ids) max_received) denied
    let expiry = value_of obj.body.expires
    let noted = record node { received_ids = node.received_ids ++ (obj.id, expiry) ∷ [] }
    if has obj.id node.messages then ok noted else (do
      guard (ltb (length node.messages) max_records) denied
      paid ← admit env noted (subject_of obj) requester message admission routed
      ok (record paid { messages = insert_new obj.id obj paid.messages }))

  -- `receive_message`, a transaction; it returns the ID of the message
  unfoldable pub receive_message : Node → Message → ℕ → Option Proof → Option ℕ → Result (Node × ℕ)
  receive_message node obj requester admission routed = do
    check_message node obj requester
    let fresh = record node { received_ids = still_received node }
    let stored = store_message fresh obj requester admission routed
    node' ← (if has obj.id fresh.received_ids then ok fresh else stored)
    ok (node', obj.id)

  -- `make_message`; the nonce is `uuid4().hex`
  unfoldable pub make_message :
      Node → ℕ → List ℕ → List ℕ → Option ℕ → Option (ℕ × ℕ) → Result Message
  make_message node recipient content nonce expires reply = do
    capability node Capability.send
    peer node recipient false
    check_text env content
    let version : ℕ = (elim reply [ some _ ↦ 3 | none ↦ (if is_none expires then 1 else 2) ])
    let body : MessageBody = record {
      version = version;
      origin = node.id;
      recipient = recipient;
      text = content;
      nonce = nonce;
      expires = expires;
      reply_to = elim reply [ none ↦ none | some (r, _) ↦ some r ];
      permit = elim reply [ none ↦ none | some (_, p) ↦ some p ];
    }
    ok (sign env of_message node.key body)
