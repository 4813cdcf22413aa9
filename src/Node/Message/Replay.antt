-- ===== src/Node/Message/Replay.antt =====
-- Replays of direct messages in agentmesh/node.py.
use intertexum.Prelude.{
  ℕ, ◌≡◌, ◌∙◌, ◌⊎◌, sym, ap, Bool, true, false, ◌||◌, ◌==◌, ltb, [], ◌∷◌, ◌++◌, length, Table,
  Option, has, insert_new, keep_rows, arith, ok, denied, >>=-eq-ok, guard-eq-ok, Bool-cases, inl,
  inr, ==_refl,
}
use intertexum.Crypto.{Env, verify, message}
use intertexum.State.{Node}
use intertexum.Node.Message.{
  Message, check_message, store_message, receive_message, still_received, value_of, subject_of,
  max_received,
}
use intertexum.Node.Share.{max_records}
use intertexum.Work.Stored.{admit-keeps}
use intertexum.Work.{Proof, admit}

has-append :
    (k v : ℕ) (t : Table ℕ) (p : ℕ → ℕ → Bool)
    → p k v ≡ true
    → has k (keep_rows p (t ++ (k, v) ∷ [])) ≡ true
unfolding has
has-append k v [] p h = ground (arith, ==_refl k)
has-append k v ((j, w) ∷ t) p h = ground (arith, has-append k v t p h)

module _ (env : Env) (node : Node) (obj : Message) (requester : ℕ) (admission : Option Proof)
    (routed : Option ℕ) where
  -- a message whose time has not come keeps its row
  check_message-kept :
      check_message env node obj requester ≡ ok tt
      → ((value_of obj.body.expires == 0) || ltb node.now (value_of obj.body.expires)) ≡ true
  unfolding check_message verify
  check_message-kept e = ground arith

  store_message-received :
      (node' : Node)
      → store_message env node obj requester admission routed ≡ ok node'
      → node'.received_ids ≡ node.received_ids ++ (obj.id, value_of obj.body.expires) ∷ []
  unfolding store_message
  store_message-received node' e =
      let noted : Node = record node {
        received_ids = node.received_ids ++ (obj.id, value_of obj.body.expires) ∷ [];
      } in
      let (_, e1) = guard-eq-ok (ltb (length node.received_ids) max_received) denied _ e in
      elim (Bool-cases (has obj.id node.messages)) [
        | inl old ↦
            let returned : ok noted ≡ ok node' = rw old at e1 in
            let same : noted ≡ node' = cc returned in ap (λ (n : Node). n.received_ids) (sym same)
        | inr new ↦
            let (_, e2) =
              guard-eq-ok (ltb (length node.messages) max_records) denied _ (rw new at e1) in
            let (paid, admits, e3) =
              >>=-eq-ok (admit env noted (subject_of env obj) requester message admission routed) _
                e2 in
            let last : record paid { messages = insert_new obj.id obj paid.messages } ≡ node' =
              cc e3 in
            ap (λ (n : Node). n.received_ids) (sym last)
            ∙ ap (λ (n : Node). n.received_ids)
                (admit-keeps env noted (subject_of env obj) requester message admission routed paid
                  admits)
      ]

  receive_message_checked :
      (node' : Node) (id : ℕ)
      → receive_message env node obj requester admission routed ≡ ok (node', id)
      → (check_message env node obj requester ≡ ok tt)
        × (id ≡ obj.id)
        × (((has obj.id (still_received env node) ≡ true)
              × (node' ≡ record node { received_ids = still_received env node }))
            ⊎ ((has obj.id (still_received env node) ≡ false)
                × (store_message env
                      (record node { received_ids = still_received env node })
                      obj
                      requester
                      admission
                      routed
                    ≡ ok node')))
  unfolding receive_message
  receive_message_checked node' id e = (ground arith, ground arith, ground arith)

-- A message that was received for the first time is stored, charged and admitted once: when it
-- comes again, at whatever time, by whatever peer and with whatever proof, an answer that is no
-- error leaves everything as it was but for the received IDs whose time has passed.
pub receive_message_again :
    (env : Env) (node : Node) (obj : Message) (requester requester' t t_ns id id' : ℕ)
    (admission admission' : Option Proof) (routed routed' : Option ℕ) (node' node'' : Node)
    → has obj.id (still_received env node) ≡ false
    → receive_message env node obj requester admission routed ≡ ok (node', id)
    → receive_message env
        (record node' { now = t; now_ns = t_ns })
        obj
        requester'
        admission'
        routed'
      ≡ ok (node'', id')
    → node'' ≡ record node' {
      now = t;
      now_ns = t_ns;
      received_ids = still_received env (record node' { now = t; now_ns = t_ns });
    }
receive_message_again env node obj requester requester' t t_ns id id' admission admission' routed
      routed' node' node'' new e e' =
    let (_, _, first) =
      receive_message_checked env node obj requester admission routed node' id e in
    let later : Node = record node' { now = t; now_ns = t_ns } in
    let (fine, _, second) =
      receive_message_checked env later obj requester' admission' routed' node'' id' e' in
    let kept = check_message-kept env later obj requester' admission' routed' fine in
    elim first [
      | inl (old, _) ↦ absurd (cc (sym old ∙ new))
      | inr (_, stores) ↦
          let rows =
            store_message-received env (record node { received_ids = still_received env node }) obj
              requester admission routed node' stores in
          let there : has obj.id (still_received env later) ≡ true = rw rows (
            has-append obj.id (value_of obj.body.expires) (still_received env node)
              (λ _ x. x == 0 || ltb t x) kept) in
          elim second [ inl (_, same) ↦ same | inr (absent, _) ↦ absurd (cc (sym there ∙ absent)) ]
    ]
