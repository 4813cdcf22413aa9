-- ===== src/Outbox/Outcome.antt =====
-- agentmesh/conversations.py: what an attempt at a delivery leaves behind.
use intertexum.Prelude.{
  ℕ, ◌+◌, ◌>>◌, ◌≡◌, ◌≢◌, ◌⊎◌, ◌∙◌, refl, sym, ap, false, not, ◌==◌, elem, keep, List, [], ◌∷◌,
  Option, some, lookup, lookup-update, arith, Result, ok, err, invalid, denied, work_budget,
  integrity, inl, inr, ==_iff, Bool-cases,
}
use intertexum.State.{Outgoing, Node, delivered, Capability}
use intertexum.Policy.{capability}
use intertexum.Outbox.{
  Answer, receipt, failed, outcome, backoff, deliver_claimed, note_attempt, finish_attempt,
}

elem-keep : (p : ℕ) (xs : List ℕ) → elem p (keep (λ q. not (q == p)) xs) ≡ false
unfolding elem
elem-keep p [] = refl
elem-keep p (x ∷ xs) = ground (arith, elem-keep p xs)

outcome-delivered : (id : ℕ) (answer : Answer) → outcome id answer ≡ delivered → answer ≡ receipt id
unfolding outcome
outcome-delivered id (receipt got) e = ground arith
outcome-delivered id (failed invalid) e = cc
outcome-delivered id (failed denied) e = cc
outcome-delivered id (failed work_budget) e = cc
outcome-delivered id (failed integrity) e = cc

finish_attempt-release :
    (node tried : Node) (peer_id : ℕ) (checked : Result (Unit {0}))
    → node.delivering ≡ tried.delivering
    → elem peer_id (finish_attempt node tried peer_id checked).0.delivering ≡ false
unfolding finish_attempt
finish_attempt-release node tried peer_id (err e) same = elem-keep peer_id node.delivering
finish_attempt-release node tried peer_id (ok done) same = elem-keep peer_id tried.delivering

-- An attempt releases the peer, whatever it came to and whether or not the policy still allows it.
pub deliver_claimed-release :
    (node : Node) (id : ℕ) (row : Outgoing) (answer : Answer)
    → elem row.peer (deliver_claimed node (id, row) answer).0.delivering ≡ false
unfolding deliver_claimed note_attempt
deliver_claimed-release node id row answer =
    finish_attempt-release node (note_attempt node (id, row) answer) row.peer
      (capability node Capability.send >> capability node Capability.network) refl

finish_attempt-outbox :
    (node tried : Node) (peer_id : ℕ) (checked : Result (Unit {0}))
    → ((finish_attempt node tried peer_id checked).0.outbox ≡ node.outbox)
      ⊎ ((finish_attempt node tried peer_id checked).0.outbox ≡ tried.outbox)
unfolding finish_attempt
finish_attempt-outbox node tried peer_id (err e) = inl refl
finish_attempt-outbox node tried peer_id (ok done) = inr refl

note_attempt-delivered :
    (node : Node) (id other : ℕ) (row old new : Outgoing) (answer : Answer)
    → lookup other node.outbox ≡ some old
    → old.state ≢ delivered
    → lookup other (note_attempt node (id, row) answer).outbox ≡ some new
    → new.state ≡ delivered
    → (id ≡ other) × (answer ≡ receipt id)
unfolding note_attempt
note_attempt-delivered node id other row old new answer at fresh found done =
    let next_row = λ (r : Outgoing). record r {
      state = outcome id answer;
      attempts = r.attempts + 1;
      next = node.now + backoff row.attempts;
    } in
    let rows = sym (lookup-update id other next_row node.outbox) ∙ found in
    elim (Bool-cases (id == other)) [
      | inr away ↦
          let kept : ◌≡◌ {A = Option Outgoing} (some old) (some new) = sym at ∙ rw away at rows in
          let same : old ≡ new = cc kept in
          absurd (fresh (ap (λ (r : Outgoing). r.state) same ∙ done))
      | inl here ↦
          let wrote : ◌≡◌ {A = Option Outgoing} (some (next_row old)) (some new) =
            rw (here, at) at rows in
          let same : next_row old ≡ new = cc wrote in
          (
            (==_iff id other).0 here,
            outcome-delivered id answer (ap (λ (r : Outgoing). r.state) same ∙ done),
          )
    ]

-- An attempt delivers no entry but the one that it is for, and that one only by a receipt of the
-- receiver for it: where any entry that was not delivered is so behind the attempt, it is that entry
-- and the receiver answered with its ID.
pub deliver_claimed-delivered :
    (node : Node) (id other : ℕ) (row old new : Outgoing) (answer : Answer)
    → lookup other node.outbox ≡ some old
    → old.state ≢ delivered
    → lookup other (deliver_claimed node (id, row) answer).0.outbox ≡ some new
    → new.state ≡ delivered
    → (id ≡ other) × (answer ≡ receipt id)
unfolding deliver_claimed
deliver_claimed-delivered node id other row old new answer at fresh found done =
    let checked = capability node Capability.send >> capability node Capability.network in
    let tried = note_attempt node (id, row) answer in
    elim (finish_attempt-outbox node tried row.peer checked) [
      | inl same ↦
          let kept : lookup other node.outbox ≡ some new = ap (lookup other) (sym same) ∙ found in
          let both : ◌≡◌ {A = Option Outgoing} (some old) (some new) = sym at ∙ kept in
          let rows : old ≡ new = cc both in
          absurd (fresh (ap (λ (r : Outgoing). r.state) rows ∙ done))
      | inr same ↦
          note_attempt-delivered node id other row old new answer at fresh
            (ap (lookup other) (sym same) ∙ found) done
    ]
