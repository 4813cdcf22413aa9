-- ===== src/Outbox/Order.antt =====
-- agentmesh/conversations.py: which entry a claim takes.
use intertexum.Prelude.{
  ℕ, ◌≡◌, ◌≤◌, Bool, true, false, ◌&&◌, ◌==◌, elem, any, List, ◌∷◌, ◌++◌, Table,
}
use intertexum.State.{Outgoing}
use intertexum.Outbox.{is_waiting, is_queued, OutboxRow}

-- a row of the table that waits for a peer
abbrev pub waits_for : ℕ → OutboxRow → Bool
waits_for peer_id r = r.1.peer == peer_id && is_waiting r.1.state

-- A row that may run: queued and due, for a peer that is idle, and behind no waiting row for the
-- same peer.
pub record IsNext (now : ℕ) (excluded waiting : List ℕ) (rows : Table Outgoing) (x : OutboxRow)
    : Type 0 where
  pub before : Table Outgoing
  pub after : Table Outgoing
  pub stands : rows ≡ before ++ x ∷ after
  pub first : any (waits_for x.1.peer) before ≡ false
  pub ready : is_queued x.1.state ≡ true
  pub due_now : x.1.next ≤ now
  pub idle : elem x.1.peer excluded ≡ false
  pub unseen : elem x.1.peer waiting ≡ false
