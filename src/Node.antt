-- ===== src/Node.antt =====
-- agentmesh/node.py: the operations of a node on its durable state.
pub mod Peers
pub mod Ancestry
pub mod Active
pub mod Share
pub mod Retract
pub mod Message
