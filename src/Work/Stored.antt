-- ===== src/Work/Stored.antt =====
-- agentmesh/message_work.py: what is stored and charged when a message was admitted.
use intertexum.Prelude.{
  ℕ, ◌+◌, ◌≤◌, ◌<◌, ◌≡◌, ◌≢◌, ◌∙◌, sym, ap, ==_refl, [], ◌∷◌, ◌++◌, Table, Option, lookup, has,
  insert_new, arith, ok, Bool-cases, inl, inr, length, sum_by-append, length-append, >>=-eq-ok,
  guard-eq-ok, integrity, not,
}
use mathlib.Core.Path.{subst}
use intertexum.Crypto.{Env, Operation, Signed, OfferBody}
use intertexum.State.{Admission, Node, Storage, WorkConfig, WorkOut}
use intertexum.Work.{
  Subject, Proof, receiving, global_key, peer_key, budget, of_peer, stored_bytes, check_capacity,
  charge, keep_offer, admit, sweep, entry, clear, spend_permit, use_permit,
}
use intertexum.Work.Limits.{used, budget_ok, budget-charges}
use intertexum.Work.Entry.{admit-IsAdmitted}

of_peer-append :
    (peer id size : ℕ) (t : Table Storage)
    → of_peer peer (t ++ (id, record { peer = peer; bytes = size }) ∷ [])
      ≡ of_peer peer t ++ (id, record { peer = peer; bytes = size }) ∷ []
unfolding of_peer
of_peer-append peer id size [] = ground (arith, ==_refl peer)
of_peer-append peer id size ((j, r) ∷ t) = ground (arith, of_peer-append peer id size t)

-- the limits on what is stored
pub record IsStored (cfg : WorkConfig) (peer : ℕ) (t : Table Storage) : Type 0 where
  pub total : stored_bytes t ≤ cfg.total_bytes
  pub of_sender : stored_bytes (of_peer peer t) ≤ cfg.peer_bytes
  pub count : length (of_peer peer t) ≤ cfg.peer_pending

check_capacity_lem :
    (node : Node) (peer size : ℕ)
    → check_capacity node peer size ≡ ok tt
    → (length (of_peer peer node.storage) < node.work_config.peer_pending)
      × (stored_bytes (of_peer peer node.storage) + size ≤ node.work_config.peer_bytes)
      × (stored_bytes node.storage + size ≤ node.work_config.total_bytes)
unfolding check_capacity
check_capacity_lem node peer size e = (ground arith, ground arith, ground arith)

IsStored-insert_new :
    (node : Node) (peer id size : ℕ)
    → check_capacity node peer size ≡ ok tt
    → IsStored node.work_config peer
        (insert_new id (record { peer = peer; bytes = size }) node.storage)
unfolding insert_new
IsStored-insert_new node peer id size e =
    let (a, b, c) = check_capacity_lem node peer size e in
    let row : Storage = record { peer = peer; bytes = size } in
    let bytes = λ (r : ℕ × Storage). r.1.bytes in
    elim (Bool-cases (has id node.storage)) [
      | inl old ↦
          rw (old, insert_new)
            (record { total = omega arith; of_sender = omega arith; count = omega arith })
      | inr new ↦
          rw (new, insert_new)
            (record {
              total = omega (arith, sum_by-append bytes node.storage ((id, row) ∷ []));
              of_sender =
                  rw (of_peer-append peer id size node.storage) (
                    omega
                      (arith, sum_by-append bytes (of_peer peer node.storage) ((id, row) ∷ [])));
              count =
                  rw (of_peer-append peer id size node.storage)
                    (omega (arith, length-append (of_peer peer node.storage) ((id, row) ∷ [])));
            })
    ]

peer_key-ne-global_key : (peer : ℕ) → peer_key receiving peer ≢ global_key receiving
unfolding peer_key global_key
peer_key-ne-global_key peer = omega arith

-- what a charge leaves: the limits on storage, and both hourly budgets charged within their limits
pub record IsCharged (cfg : WorkConfig) (before after : Node) (peer size : ℕ) : Type 0 where
  pub within : IsStored cfg peer after.storage
  pub peer_count :
      (used after (peer_key receiving peer)).0 ≡ (used before (peer_key receiving peer)).0 + 1
  pub peer_limit : (used after (peer_key receiving peer)).0 ≤ cfg.peer_hour
  pub peer_bytes :
      (used after (peer_key receiving peer)).1 ≡ (used before (peer_key receiving peer)).1 + size
  pub peer_byte_limit : (used after (peer_key receiving peer)).1 ≤ cfg.peer_hour_bytes
  pub total_count :
      (used after (global_key receiving)).0 ≡ (used before (global_key receiving)).0 + 1
  pub total_limit : (used after (global_key receiving)).0 ≤ cfg.total_hour
  pub total_bytes :
      (used after (global_key receiving)).1 ≡ (used before (global_key receiving)).1 + size
  pub total_byte_limit : (used after (global_key receiving)).1 ≤ cfg.total_hour_bytes

module _ (env : Env) (node : Node) (obj : Subject) (peer : ℕ) where
  charge-IsCharged :
      (node' : Node)
      → charge env node obj peer ≡ ok node'
      → IsCharged node.work_config node node' peer obj.size
  unfolding charge
  charge-IsCharged node' e =
      let cfg = node.work_config in
      let pk = peer_key receiving peer in
      let gk = global_key receiving in
      let (u, room, e1) = >>=-eq-ok (check_capacity node peer obj.size) _ e in
      let (n1, b1, e2) =
        >>=-eq-ok (budget node pk 1 obj.size cfg.peer_hour cfg.peer_hour_bytes) _ e1 in
      let (n2, b2, e3) =
        >>=-eq-ok (budget n1 gk 1 obj.size cfg.total_hour cfg.total_hour_bytes) _ e2 in
      let (same1, _, _) = budget_ok node pk 1 obj.size cfg.peer_hour cfg.peer_hour_bytes n1 b1 in
      let (same2, _, _) = budget_ok n1 gk 1 obj.size cfg.total_hour cfg.total_hour_bytes n2 b2 in
      let (c1, c2, c3, c4, k1) =
        budget-charges node pk 1 obj.size cfg.peer_hour cfg.peer_hour_bytes n1 b1 in
      let (d1, d2, d3, d4, k2) =
        budget-charges n1 gk 1 obj.size cfg.total_hour cfg.total_hour_bytes n2 b2 in
      let (_, e4) = guard-eq-ok (not (has obj.id n2.storage)) integrity _ e3 in
      let last : node' ≡ record n2 {
        storage = insert_new obj.id (record { peer = peer; bytes = obj.size }) n2.storage;
      } =
        cc e4 in
      let stores : n2.storage ≡ node.storage =
        ap (λ (n : Node). n.storage) same2 ∙ ap (λ (n : Node). n.storage) same1 in
      let apart = peer_key-ne-global_key peer in
      let f1 = k2 pk apart in
      let g1 = k1 gk (λ q. apart (sym q)) in
      let h = IsStored-insert_new node peer obj.id obj.size room in
      rw last (record {
        within = rw stores h;
        peer_count = ap (λ (q : ℕ × ℕ). q.0) f1 ∙ c1;
        peer_limit = rw f1 c3;
        peer_bytes = ap (λ (q : ℕ × ℕ). q.1) f1 ∙ c2;
        peer_byte_limit = rw f1 c4;
        total_count = d1 ∙ ap (λ (q : ℕ × ℕ). q.0 + 1) g1;
        total_limit = d3;
        total_bytes = d2 ∙ ap (λ (q : ℕ × ℕ). q.1 + obj.size) g1;
        total_byte_limit = d4;
      })

  spend_permit-keeps :
      (o : Option WorkOut) (node' : Node)
      → spend_permit env node obj peer o ≡ ok node'
      → node' ≡ record node { work_out = node'.work_out }
  unfolding spend_permit use_permit
  spend_permit-keeps o node' e = ground arith

  entry-keeps :
      (op : Operation) (admission : Option Proof) (routed : Option ℕ) (node' : Node)
      (offer : Option (Signed OfferBody))
      → entry env node obj peer op admission routed ≡ ok (node', offer)
      → node' ≡ record node { work_out = node'.work_out }
  unfolding entry clear
  entry-keeps op admission routed node' offer e =
      ground (arith, spend_permit-keeps (lookup obj.reply_to node.work_out) node')

  keep_offer-keeps :
      (offer : Option (Signed OfferBody)) (node' : Node)
      → keep_offer env node obj.id peer offer ≡ ok node'
      → node' ≡ record node { admitted_offers = node'.admitted_offers }
  unfolding keep_offer
  keep_offer-keeps offer node' e = ground arith

-- The table of permits does not matter to what is charged.
IsCharged-work_out :
    (cfg : WorkConfig) (before after : Node) (t : Table WorkOut) (peer size : ℕ)
    → IsCharged cfg (record before { work_out = t }) after peer size
    → IsCharged cfg before after peer size
IsCharged-work_out cfg before after t peer size c = record {
  within = c.within;
  peer_count = c.peer_count;
  peer_limit = c.peer_limit;
  peer_bytes = c.peer_bytes;
  peer_byte_limit = c.peer_byte_limit;
  total_count = c.total_count;
  total_limit = c.total_limit;
  total_bytes = c.total_bytes;
  total_byte_limit = c.total_byte_limit;
}

-- Nor does the table of offers.
IsCharged-offers :
    (cfg : WorkConfig) (before after : Node) (t : Table Admission) (peer size : ℕ)
    → IsCharged cfg before after peer size
    → IsCharged cfg before (record after { admitted_offers = t }) peer size
IsCharged-offers cfg before after t peer size c = record {
  within = c.within;
  peer_count = c.peer_count;
  peer_limit = c.peer_limit;
  peer_bytes = c.peer_bytes;
  peer_byte_limit = c.peer_byte_limit;
  total_count = c.total_count;
  total_limit = c.total_limit;
  total_bytes = c.total_bytes;
  total_byte_limit = c.total_byte_limit;
}

-- An admission counts the message once against the hourly budgets of its sender and of all
-- senders, with its size, and leaves all of them and the storage limits kept.
pub admit-IsCharged :
    (env : Env) (node : Node) (obj : Subject) (peer : ℕ) (op : Operation) (admission : Option Proof)
    (routed : Option ℕ) (node' : Node)
    → admit env node obj peer op admission routed ≡ ok node'
    → IsCharged node.work_config (sweep node) node' peer obj.size
unfolding sweep
admit-IsCharged env node obj peer op admission routed node' e =
    let s = admit-IsAdmitted env node obj peer op admission routed node' e in
    let same =
      entry-keeps env (sweep node) obj peer op admission routed s.cleared s.offer s.entered in
    let last = keep_offer-keeps env s.charged obj peer s.offer node' s.keeps in
    let h = charge-IsCharged env s.cleared obj peer s.charged s.charges in
    let swept : IsCharged node.work_config (sweep node) s.charged peer obj.size =
      IsCharged-work_out node.work_config (sweep node) s.charged s.cleared.work_out peer obj.size
        (subst (λ (n : Node). IsCharged n.work_config n s.charged peer obj.size) same h) in
    rw last (
      IsCharged-offers node.work_config (sweep node) s.charged node'.admitted_offers peer obj.size
        swept)

charge-keeps :
    (env : Env) (node : Node) (obj : Subject) (peer : ℕ) (node' : Node)
    → charge env node obj peer ≡ ok node'
    → node' ≡ record node { budgets = node'.budgets; storage = node'.storage }
unfolding charge budget
charge-keeps env node obj peer node' e = ground arith

-- An admission writes to the tables of agentmesh/message_work.py only.
pub admit-keeps :
    (env : Env) (node : Node) (obj : Subject) (peer : ℕ) (op : Operation) (admission : Option Proof)
    (routed : Option ℕ) (node' : Node)
    → admit env node obj peer op admission routed ≡ ok node'
    → node' ≡ record node {
      budgets = node'.budgets;
      storage = node'.storage;
      admitted_offers = node'.admitted_offers;
      replies_sent = node'.replies_sent;
      work_out = node'.work_out;
    }
unfolding sweep
admit-keeps env node obj peer op admission routed node' e =
    let s = admit-IsAdmitted env node obj peer op admission routed node' e in
    let first =
      entry-keeps env (sweep node) obj peer op admission routed s.cleared s.offer s.entered in
    let second = charge-keeps env s.cleared obj peer s.charged s.charges in
    let last = keep_offer-keeps env s.charged obj peer s.offer node' s.keeps in
    cc (first, second, last)
