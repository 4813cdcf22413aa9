-- ===== src/Challenging/Honest.antt =====
-- agentmesh/message_work.py: the challenge of a receiver, solved, is what its `admit` accepts.
use intertexum.Prelude.{
  ℕ, ◌+◌, ◌≤◌, ◌<◌, ◌≡◌, refl, sym, true, ◌==◌, ==_refl, Option, none, some, ok, invalid, arith,
  >>=-eq-ok, guard-eq-ok, str_eq,
}
use mathlib.Core.Path.{subst}
use text.Mathlib.TextPositions.{eq_refl}
use intertexum.Crypto.{Env, Signed, OfferBody, Operation, message, thread_post, Ticket, valid_id}
use intertexum.State.{Node}
use intertexum.Work.{
  Subject, valid_ticket, valid_work, sweep, check_capacity, budget, peer_key, global_key, receiving,
  challenging, same_operation, same_id,
}
use intertexum.Threads.{Threads}
use intertexum.Challenging.{scope, check_asked, ticket_for, challenge}

module _ (env : Env) where
  challenge_lem :
      (node node' : Node) (t : Threads) (asker : ℕ) (op : Operation) (id : ℕ) (thread : Option ℕ)
      (offer : Option (Signed OfferBody)) (salt : ℕ) (ticket : Ticket)
      → challenge env node t asker op id thread offer salt ≡ ok (node', ticket)
      → ticket_for env node asker op id thread offer salt ≡ ticket
  unfolding challenge
  challenge_lem node node' t asker op id thread offer salt ticket e =
      let cfg = node.work_config in
      let swept = sweep node in
      let (_, e1) = guard-eq-ok (valid_id id) invalid _ e in
      let (_, _, e2) = >>=-eq-ok (scope node t asker op thread) _ e1 in
      let (_, _, e3) = >>=-eq-ok (check_capacity swept asker 0) _ e2 in
      let (_, _, e4) =
        >>=-eq-ok (budget swept (peer_key receiving asker) 1 0 cfg.peer_hour cfg.peer_hour_bytes) _
          e3 in
      let (_, _, e5) =
        >>=-eq-ok (budget swept (global_key receiving) 1 0 cfg.total_hour cfg.total_hour_bytes) _
          e4 in
      let (n1, _, e6) = >>=-eq-ok (budget swept (peer_key challenging asker) 1 0 60 0) _ e5 in
      let (n2, _, e7) = >>=-eq-ok (budget n1 (global_key challenging) 1 0 240 0) _ e6 in
      let (_, _, e8) = >>=-eq-ok (check_asked env n2 asker id offer) _ e7 in cc e8

  same_operation_refl : (op : Operation) → same_operation op op ≡ true
  same_operation_refl message = refl
  same_operation_refl thread_post = refl

  same_id_refl : (o : Option ℕ) → same_id o o ≡ true
  same_id_refl none = refl
  same_id_refl (some x) = ==_refl x

-- the thread that a ticket names for an operation
abbrev pub thread_in : Operation → Subject → Option ℕ
thread_in op obj = elim op [ thread_post ↦ obj.thread | message ↦ none ]

-- A challenge that was issued for a message of a peer is, with a nonce that solves it, accepted for
-- that message of that peer and with the same offer, at any time within two minutes, while the node
-- keeps its secret, its network and its difficulty.
pub valid_ticket-challenge :
    (env : Env) (node node' later : Node) (t : Threads) (asker : ℕ) (op : Operation) (id : ℕ)
    (thread : Option ℕ) (offer : Option (Signed OfferBody)) (salt nonce : ℕ) (ticket : Ticket)
    (obj : Subject)
    → challenge env node t asker op id thread offer salt ≡ ok (node', ticket)
    → valid_work env ticket nonce ≡ true
    → node.id ≡ later.id
    → node.message_secret ≡ later.message_secret
    → node.network ≡ later.network
    → node.work_config.bits ≡ later.work_config.bits
    → node.now ≤ later.now
    → later.now < node.now + 120
    → obj.id ≡ id
    → thread_in op obj ≡ thread
    → valid_ticket env later obj asker op (record { ticket = ticket; nonce = nonce; offer = offer })
      ≡ true
unfolding valid_ticket ticket_for
valid_ticket-challenge env node node' later t asker op id thread offer salt nonce ticket obj e
      solved own secret net bits from before same on =
    let made = challenge_lem env node node' t asker op id thread offer salt ticket e in
    let op_ = same_operation_refl env op in
    let on_ : same_id thread (thread_in op obj) ≡ true =
      subst (λ o. same_id thread o ≡ true) (sym on) (same_id_refl env thread) in
    let net_ : str_eq node.network later.network ≡ true =
      subst (λ n. str_eq node.network n ≡ true) net (eq_refl node.network) in
    let body = (ticket_for env node asker op id thread offer salt).body in
    let mac_ : (env.authenticator node.message_secret body
          == env.authenticator later.message_secret body)
        ≡ true =
      subst (λ k. (env.authenticator node.message_secret body == env.authenticator k body) ≡ true)
        secret (==_refl (env.authenticator node.message_secret body)) in
    subst
      (λ (x : Ticket).
        valid_work env x nonce ≡ true
        → valid_ticket env later obj asker op (record { ticket = x; nonce = nonce; offer = offer })
          ≡ true)
      made
      (λ work. ground (
        arith,
        work,
        on_,
        net_,
        op_,
        mac_,
        own,
        bits,
        from,
        before,
        same,
        ==_refl asker,
        ==_refl (env.offer_digest offer),
      ))
      solved
