-- ===== src/Work/Offers.antt =====
-- agentmesh/message_work.py: the reply permits that go out with a message.
use intertexum.Prelude.{
  ℕ, ◌+◌, ◌<◌, ◌≤◌, ◌≡◌, ◌∙◌, refl, sym, ap, true, ◌&&◌, ◌==◌, ltb, Table, Option, none, some,
  lookup, arith, insert_new, ok, invalid, denied, guard-eq-ok, ==_refl, length,
}
use mathlib.Core.Path.{subst}
use text.Mathlib.TextPositions.{eq_refl}
use intertexum.Crypto.{Env, Payload, of_offer, Signed, OfferBody, sign, verify, Operation, valid_id}
use intertexum.State.{WorkOut, Node}
use intertexum.Node.Peers.{key_of}
use intertexum.Work.{sweep, check_offer, between, same_operation}
use intertexum.Work.Outbound.{
  make_offer, offer_body, outbound, outbound_row, first_row, outbound_again, latest_expiry,
}

module _ (env : Env) where
  make_offer_lem :
      (node : Node) (peer : ℕ) (body : OfferBody) (offer : Signed OfferBody)
      → make_offer env node peer body ≡ some offer
      → sign env of_offer node.key body ≡ offer
  unfolding make_offer
  make_offer_lem node peer body offer e = ground arith

  -- the first row of a message, and the state that it leaves
  outbound_first :
      (swept : Node) (peer id : ℕ) (expires : Option ℕ) (op : Operation) (nonce : ℕ) (node' : Node)
      (row : WorkOut)
      → outbound_row env swept peer id expires op nonce none ≡ ok (node', row)
      → (first_row env swept peer id (latest_expiry swept expires) op nonce ≡ row)
        × (record swept { work_out = insert_new id row swept.work_out } ≡ node')
  unfolding outbound_row
  outbound_first swept peer id expires op nonce node' row e =
      let (room, made) = guard-eq-ok (ltb (length swept.work_out) 10000) denied _ e in
      let new = first_row env swept peer id (latest_expiry swept expires) op nonce in
      let both : (record swept { work_out = insert_new id new swept.work_out }, new)
          ≡ (node', row) =
        cc made in
      let rows : new ≡ row = ap (λ (p : Node × WorkOut). p.1) both in
      (
        rows,
        ap (λ (r : WorkOut). record swept { work_out = insert_new id r swept.work_out }) (sym rows)
            ∙ ap (λ (p : Node × WorkOut). p.0) both,
      )

  check_offer-sign :
      (node : Node) (peer id latest nonce t : ℕ) (table : Table WorkOut)
      → ((p : Payload) → env.verify_sig node.public_key (env.sign_sig node.key p) p ≡ true)
      → latest ≤ node.now + 604800
      → node.now ≤ t
      → t < (offer_body node peer id latest nonce).expires
      → between 1 32768 node.work_config.reply_bytes ≡ true
      → valid_id nonce ≡ true
      → check_offer env
          (record node { work_out = table; now = t })
          (sign env of_offer node.key (offer_body node peer id latest nonce))
          node.id
          peer
          id
        ≡ ok (offer_body node peer id latest nonce)
  unfolding check_offer offer_body sign verify key_of
  check_offer-sign node peer id latest nonce t table signs short later live fits fresh =
      let body = offer_body node peer id latest nonce in
      rw
        (
          ==_refl node.id,
          ==_refl (env.digest (of_offer body)),
          signs (of_offer body),
          ==_refl peer,
          ==_refl id,
          eq_refl node.network,
        )
        (ground arith)

  latest_expiry-le :
      (node : Node) (expires : Option ℕ) → latest_expiry node expires ≤ node.now + 604800
  latest_expiry-le node none = omega arith
  latest_expiry-le node (some t) = omega arith

  outbound_again-consumed :
      (node : Node) (peer id used nonce : ℕ) (row : WorkOut) (o : Option (Signed OfferBody))
      → row.consumed ≡ some used
      → outbound_again env node peer id row nonce o ≡ (node, row)
  unfolding outbound_again
  outbound_again-consumed node peer id used nonce row none spent = refl
  outbound_again-consumed node peer id used nonce row (some old) spent = rw spent (ground arith)

  -- The permit that goes out with a new message is accepted as the node's own when the reply comes
  -- before it expires, under the policy's bounds and a signature scheme whose signatures verify.
  pub check_offer-outbound :
      (node : Node) (peer id : ℕ) (expires : Option ℕ) (op : Operation) (nonce t : ℕ) (node' : Node)
      (row : WorkOut) (offer : Signed OfferBody)
      → ((p : Payload) → env.verify_sig node.public_key (env.sign_sig node.key p) p ≡ true)
      → lookup id (sweep node).work_out ≡ none
      → outbound env node peer id expires op nonce ≡ ok (node', row)
      → row.offer ≡ some offer
      → node.now ≤ t
      → t < offer.body.expires
      → between 1 32768 node.work_config.reply_bytes ≡ true
      → valid_id nonce ≡ true
      → check_offer env (record node' { now = t }) offer node.id peer id ≡ ok offer.body
  unfolding sweep outbound first_row sign
  check_offer-outbound node peer id expires op nonce t node' row offer signs new e made later live
        fits fresh =
      let swept = sweep node in
      let latest = latest_expiry swept expires in
      let (rows, same) = outbound_first swept peer id expires op nonce node' row (rw new at e) in
      let offered : make_offer env swept peer (offer_body swept peer id latest nonce) ≡ some offer =
        ap (λ (r : WorkOut). r.offer) rows ∙ made in
      let sealed =
        make_offer_lem swept peer (offer_body swept peer id latest nonce) offer offered in
      let good =
        check_offer-sign swept peer id latest nonce t (insert_new id row swept.work_out) signs
          (latest_expiry-le swept expires) later
          (subst (λ (o : Signed OfferBody). t < o.body.expires) (sym sealed) live) fits fresh in
      subst
        (λ (n : Node). check_offer env (record n { now = t }) offer node.id peer id ≡ ok offer.body)
        same
        (subst
          (λ (o : Signed OfferBody).
            check_offer env (record swept { work_out = insert_new id row swept.work_out; now = t })
              o node.id peer id
            ≡ ok o.body)
          sealed good)

  -- A permit that was spent stays so: the message is sent again with the row as it is.
  pub outbound-consumed :
      (node : Node) (peer id used : ℕ) (expires : Option ℕ) (op : Operation) (nonce : ℕ)
      (node' : Node) (row again : WorkOut)
      → lookup id (sweep node).work_out ≡ some row
      → row.consumed ≡ some used
      → outbound env node peer id expires op nonce ≡ ok (node', again)
      → (again ≡ row) × (node' ≡ sweep node) × (row.peer ≡ peer)
  unfolding outbound outbound_row
  outbound-consumed node peer id used expires op nonce node' row again at spent e =
      let swept = sweep node in
      let (mine, done) =
        guard-eq-ok (row.peer == peer && same_operation row.op op) invalid
          (ok (outbound_again env swept peer id row nonce row.offer)) (rw at at e) in
      let kept = outbound_again-consumed swept peer id used nonce row row.offer spent in
      let both : (swept, row) ≡ (node', again) = cc (rw kept at done) in
      (
        sym (ap (λ (p : Node × WorkOut). p.1) both),
        sym (ap (λ (p : Node × WorkOut). p.0) both),
        ground arith,
      )
