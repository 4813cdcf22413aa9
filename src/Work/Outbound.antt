-- ===== src/Work/Outbound.antt =====
-- agentmesh/message_work.py, the sender's side: the row of an outgoing message with the reply permit
-- that goes with it, and what is offered for a free reply.
use intertexum.Prelude.{
  ℕ, ◌+◌, Bool, false, ◌&&◌, ◌||◌, ◌==◌, leb, ltb, length, Option, none, some, lookup, has,
  insert_new, update, min, Result, ok, invalid, denied, guard, ◌>>◌, if◌then◌else◌, is_ok,
}
use intertexum.Crypto.{Env, Signed, OfferBody, of_offer, sign, Operation}
use intertexum.State.{Capability, WorkOut, Node}
use intertexum.Policy.{capability, is_none}
use intertexum.Node.Peers.{require, messaging}
use intertexum.Work.{sweep, same_operation}

-- whether a reply of the peer would be taken: `receive` and the permission to message
unfoldable pub takes_replies : Node → ℕ → Bool
takes_replies node peer = is_ok (capability node Capability.receive >> require node peer messaging)

-- the part of an outgoing object that is read: its ID and its `expires`
abbrev pub latest_expiry : Node → Option ℕ → ℕ
latest_expiry node none = node.now + 604800
latest_expiry node (some t) = min t (node.now + 604800)

abbrev pub is_stale_offer : Node → WorkOut → Signed OfferBody → Bool
is_stale_offer node row old = leb old.body.expires node.now && is_none row.consumed

unfoldable pub offer_body : Node → ℕ → ℕ → ℕ → ℕ → OfferBody
offer_body node peer id latest nonce = record {
  version = 1;
  issuer = node.id;
  responder = peer;
  request = id;
  expires = min latest (node.now + node.work_config.reply_seconds);
  max_bytes = node.work_config.reply_bytes;
  nonce = nonce;
  network = node.network;
}

module _ (env : Env) where
  -- the offer for a request, or none; `nonce` is `secrets.token_hex(32)`
  unfoldable pub make_offer : Node → ℕ → OfferBody → Option (Signed OfferBody)
  unfolding takes_replies
  make_offer node peer body =
      if takes_replies node peer then some (sign env of_offer node.key body) else none

  -- an offer that expired unspent is made again, and the ticket and the nonce go
  unfoldable pub renew : Node → ℕ → WorkOut → Signed OfferBody → ℕ → WorkOut
  unfolding make_offer
  renew node peer row old nonce =
      let body : OfferBody = record old.body {
        expires = min row.expires (node.now + node.work_config.reply_seconds);
        max_bytes = node.work_config.reply_bytes;
        nonce = nonce;
      } in
      record row { offer = make_offer node peer body; ticket = none; nonce = none; active = false }

  -- the row that is there already, by its offer
  unfoldable pub outbound_again :
      Node → ℕ → ℕ → WorkOut → ℕ → Option (Signed OfferBody) → Node × WorkOut
  unfolding renew
  outbound_again node peer id row nonce none = (node, row)
  outbound_again node peer id row nonce (some old) =
      let again = renew node peer row old nonce in
      if is_stale_offer node row old
      then (record node { work_out = update id (λ _. again) node.work_out }, again)
      else (node, row)

  -- a new row
  unfoldable pub first_row : Node → ℕ → ℕ → ℕ → Operation → ℕ → WorkOut
  unfolding make_offer offer_body
  first_row node peer id latest op nonce = record {
    peer = peer;
    op = op;
    offer = make_offer node peer (offer_body node peer id latest nonce);
    ticket = none;
    nonce = none;
    spent = 0;
    expires = latest;
    active = false;
    consumed = none;
  }

  unfoldable pub outbound_row :
      Node → ℕ → ℕ → Option ℕ → Operation → ℕ → Option WorkOut → Result (Node × WorkOut)
  unfolding outbound_again first_row
  outbound_row node peer id expires op nonce (some row) = do
    guard (row.peer == peer && same_operation row.op op) invalid
    ok (outbound_again node peer id row nonce row.offer)
  outbound_row node peer id expires op nonce none = do
    guard (ltb (length node.work_out) 10000) denied
    let row = first_row node peer id (latest_expiry node expires) op nonce
    ok (record node { work_out = insert_new id row node.work_out }, row)

  -- `outbound`
  unfoldable pub outbound : Node → ℕ → ℕ → Option ℕ → Operation → ℕ → Result (Node × WorkOut)
  unfolding outbound_row
  outbound node peer id expires op nonce =
      let swept = sweep node in
      outbound_row swept peer id expires op nonce (lookup id swept.work_out)

-- `reply_info`: the expiry and the size of a permit that was not used
unfoldable pub reply_info : Node → ℕ → Option (ℕ × ℕ)
reply_info node request = elim (lookup request node.admitted_offers) [
  | none ↦ none
  | some row ↦
      if leb row.expires node.now || has request node.replies_sent
      then none
      else some (row.offer.body.expires, row.offer.body.max_bytes)
]
