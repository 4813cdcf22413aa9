-- ===== src/Work/Entry.antt =====
-- agentmesh/message_work.py: who is admitted by `admit`, and what a permit is worth.
use intertexum.Prelude.{
  ℕ, ◌+◌, ◌-◌, ◌^◌, ◌≤◌, ◌<◌, ◌≡◌, refl, true, false, not, ◌&&◌, ◌==◌, Option, none, some, lookup,
  update, arith, ok, Bool-cases, inl, inr, >>=-eq-ok, guard-eq-ok, denied, leb, ==_refl,
}
use intertexum.Crypto.{Env, Operation, message, Signed, OfferBody, of_offer, verify}
use intertexum.Node.Peers.{key_of}
use intertexum.Policy.{is_none}
use intertexum.Records.{byte_length}
use intertexum.State.{Node, WorkOut}
use intertexum.Work.{
  Subject, Proof, charge, keep_offer, admit, entry, clear, spend_permit, sweep, is_banned,
  valid_ticket, same_operation, use_permit, check_offer,
}

module _ (env : Env) (node : Node) (obj : Subject) (peer : ℕ) (op : Operation)
    (admission : Option Proof) (routed : Option ℕ) where
  -- the stages of a successful `admit`
  pub record IsAdmitted (node' : Node) : Type 0 where
    pub cleared : Node
    pub offer : Option (Signed OfferBody)
    pub charged : Node
    pub unbanned : is_banned (sweep node) peer ≡ false
    pub entered : entry env (sweep node) obj peer op admission routed ≡ ok (cleared, offer)
    pub charges : charge env cleared obj peer ≡ ok charged
    pub keeps : keep_offer env charged obj.id peer offer ≡ ok node'

  pub admit-IsAdmitted :
      (node' : Node) → admit env node obj peer op admission routed ≡ ok node' → IsAdmitted node'
  unfolding admit
  admit-IsAdmitted node' e =
      let (open_, e1) = guard-eq-ok (not (is_banned (sweep node) peer)) denied _ e in
      let ((cleared, offer), entered, e2) =
        >>=-eq-ok (entry env (sweep node) obj peer op admission routed) _ e1 in
      let (charged, charges, keeps) = >>=-eq-ok (charge env cleared obj peer) _ e2 in
      record {
        cleared = cleared;
        offer = offer;
        charged = charged;
        unbanned = ground arith;
        entered = entered;
        charges = charges;
        keeps = keeps;
      }

-- A ticket that this node issued to the peer for the message, within its two minutes, with a nonce
-- whose hash meets the difficulty of the current policy.
pub record IsWorked (env : Env) (node : Node) (obj : Subject) (peer : ℕ) (proof : Proof)
    : Type 0 where
  pub authentic : proof.ticket.mac ≡ env.authenticator node.message_secret proof.ticket.body
  pub issued_here : proof.ticket.body.server ≡ node.id
  pub issued_to : proof.ticket.body.peer ≡ peer
  pub bound : proof.ticket.body.message ≡ obj.id
  pub current : node.now < proof.ticket.body.expires
  pub recent : proof.ticket.body.expires ≤ node.now + 120
  pub hard : env.work_hash proof.ticket proof.nonce < 2 ^ (256 - node.work_config.bits)

valid_ticket-IsWorked :
    (env : Env) (node : Node) (obj : Subject) (peer : ℕ) (op : Operation) (proof : Proof)
    → valid_ticket env node obj peer op proof ≡ true
    → IsWorked env node obj peer proof
unfolding valid_ticket
valid_ticket-IsWorked env node obj peer op proof e =
    let same : proof.ticket.body.bits ≡ node.work_config.bits = ground arith in
    let h : env.work_hash proof.ticket proof.nonce < 2 ^ (256 - proof.ticket.body.bits) =
      ground arith in
    record {
      authentic = ground arith;
      issued_here = ground arith;
      issued_to = ground arith;
      bound = ground arith;
      current = ground arith;
      recent = ground arith;
      hard = rw (← same) h;
    }

-- The permit that this node gave to the peer with an earlier message, for a reply to that message:
-- signed by the node, not expired, not used, the one that the reply names, and not too small for it.
pub record IsPermitted (env : Env) (node : Node) (obj : Subject) (peer : ℕ) : Type 0 where
  pub row : WorkOut
  pub at : lookup obj.reply_to node.work_out ≡ some row
  pub live : row.active ≡ true
  pub same_peer : row.peer ≡ peer
  pub unused : row.consumed ≡ none
  pub permit : Signed OfferBody
  pub sent : row.offer ≡ some permit
  pub named : permit.id ≡ obj.permit
  pub signed : env.verify_sig node.public_key permit.sig (of_offer permit.body) ≡ true
  pub issuer : permit.body.issuer ≡ node.id
  pub responder : permit.body.responder ≡ peer
  pub request : permit.body.request ≡ obj.reply_to
  pub current : node.now < permit.body.expires
  pub fits : byte_length obj.text ≤ permit.body.max_bytes

-- What lets a message in: a routed proof that is hard enough, the free reply to a paid request, no
-- price at all, or a ticket of this node with its work.
pub data IsPaid (env : Env) (node : Node) (obj : Subject) (peer : ℕ) (op : Operation)
    : Option Proof → Option ℕ → Type 0 where
  by_route :
      (work : ℕ)
      → node.work_config.bits ≤ work
      → op ≡ message
      → obj.version ≡ 2
      → IsPaid env node obj peer op none (some work)
  by_permit :
      op ≡ message
      → obj.version ≡ 3
      → IsPermitted env node obj peer
      → IsPaid env node obj peer op none none
  unpriced : node.work_config.bits ≡ 0 → IsPaid env node obj peer op none none
  by_work :
      (proof : Proof)
      → IsWorked env node obj peer proof
      → IsPaid env node obj peer op (some proof) none

module _ (env : Env) (node : Node) (obj : Subject) (peer : ℕ) where
  -- the row whose permit a free reply spends
  pub record IsSpent (node' : Node) : Type 0 where
    pub by : IsPermitted env node obj peer
    pub spends : node' ≡ record node {
      work_out = update obj.reply_to (λ r. record r { consumed = some obj.id }) node.work_out;
    }

  use_permit-IsSpent :
      (row : WorkOut) (o : Option (Signed OfferBody)) (node' : Node)
      → lookup obj.reply_to node.work_out ≡ some row
      → row.offer ≡ o
      → row.active ≡ true
      → row.peer ≡ peer
      → use_permit env node obj peer row o ≡ ok node'
      → IsSpent node'
  unfolding use_permit check_offer verify key_of
  use_permit-IsSpent row none node' at sent live own e = cc
  use_permit-IsSpent row (some permit) node' at sent live own e =
      let (b, checked, e1) =
        >>=-eq-ok (check_offer env node permit node.id peer obj.reply_to) _ e in
      let (named, e2) = guard-eq-ok (permit.id == obj.permit && is_none row.consumed) denied _ e1 in
      let (fits, e3) = guard-eq-ok (leb (byte_length obj.text) b.max_bytes) denied _ e2 in
      let found = rw (==_refl node.id) at checked in
      let same : b ≡ permit.body = ground (arith, found) in
      record {
        by = record {
          row = row;
          at = at;
          live = live;
          same_peer = own;
          unused = ground arith;
          permit = permit;
          sent = sent;
          named = ground arith;
          signed = ground (arith, found);
          issuer = ground (arith, found);
          responder = ground (arith, found);
          request = ground (arith, found);
          current = ground (arith, found);
          fits = rw (← same) (ground arith);
        };
        spends = cc e3;
      }

  pub spend_permit-IsSpent :
      (o : Option WorkOut) (node' : Node)
      → lookup obj.reply_to node.work_out ≡ o
      → spend_permit env node obj peer o ≡ ok node'
      → IsSpent node'
  unfolding spend_permit
  spend_permit-IsSpent none node' at e = cc
  spend_permit-IsSpent (some row) node' at e =
      let (ours, e1) = guard-eq-ok (row.active && row.peer == peer) denied _ e in
      use_permit-IsSpent row row.offer node' at refl (ground arith) (ground arith) e1

module _ (env : Env) (node : Node) (obj : Subject) (peer : ℕ) (op : Operation) where
  clear-IsPaid :
      (admission : Option Proof) (node' : Node) (offer : Option (Signed OfferBody))
      → clear env node obj peer op admission ≡ ok (node', offer)
      → IsPaid env node obj peer op admission none
  unfolding clear
  clear-IsPaid none node' offer e =
      elim (Bool-cases (same_operation op message && obj.version == 3)) [
        | inr normal ↦ unpriced (ground arith)
        | inl free ↦
            let (m, spent, _) =
              >>=-eq-ok (spend_permit env node obj peer (lookup obj.reply_to node.work_out))
                (λ m. ok (m, none)) (rw free at e) in
            let s =
              spend_permit-IsSpent env node obj peer (lookup obj.reply_to node.work_out) m refl
                spent in
            by_permit (ground arith) (ground arith) s.by
      ]
  clear-IsPaid (some proof) node' offer e =
      by_work proof (valid_ticket-IsWorked env node obj peer op proof (ground arith))

  entry-IsPaid :
      (admission : Option Proof) (routed : Option ℕ) (node' : Node)
      (offer : Option (Signed OfferBody))
      → entry env node obj peer op admission routed ≡ ok (node', offer)
      → IsPaid env node obj peer op admission routed
  unfolding entry
  entry-IsPaid admission none node' offer e = clear-IsPaid admission node' offer e
  entry-IsPaid none (some work) node' offer e =
      by_route work (ground arith) (ground arith) (ground arith)
  entry-IsPaid (some proof) (some work) node' offer e = absurd (ground arith)

-- Nothing is admitted from a banned peer, and nothing without its price: routed work of the
-- receiver's difficulty, the permit that the message names, a policy that asks for no work, or a
-- fresh ticket of this node for that peer and message with a nonce that solves it. The permit was
-- signed by this node for that peer and the message that is replied to, is live, unused and not
-- expired, and covers the size of the reply.
pub admit-IsPaid :
    (env : Env) (node : Node) (obj : Subject) (peer : ℕ) (op : Operation) (admission : Option Proof)
    (routed : Option ℕ) (node' : Node)
    → admit env node obj peer op admission routed ≡ ok node'
    → (is_banned (sweep node) peer ≡ false) × IsPaid env (sweep node) obj peer op admission routed
admit-IsPaid env node obj peer op admission routed node' e =
    let s = admit-IsAdmitted env node obj peer op admission routed node' e in
    (
      s.unbanned,
      entry-IsPaid env (sweep node) obj peer op admission routed s.cleared s.offer s.entered,
    )
