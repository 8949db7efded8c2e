-- ===== src/Consensus.antt =====
-- src/consensus/mod.rs: what a protocol node offers to the cluster.
pub mod Peers
pub mod Outputs
use bft_consensus_bench.Base.{
  ℕ, Bool, false, Option, none, some, List, [], ◌∷◌, ◌==◌, keep_if, not, range, map,
}
use bft_consensus_bench.Types.{NodeId, SequenceNumber, Payload}
use bft_consensus_bench.Network.{NetworkMessage, ProtocolMessage}

pub data ProposeResult : Type 0 where
  accepted : ProposeResult
  not_leader : Option NodeId → ProposeResult

pub record CommittedEntry : Type 0 where
  pub sequence : SequenceNumber
  pub payload : Payload

-- The trait, for nodes of type `Node`. A method that takes `&self` returns the node after the
-- call beside its result; `none` is a panic inside the call.
pub record ConsensusNode (Node : Type 0) : Type 0 where
  pub id : Node → NodeId
  pub cluster_size : Node → ℕ
  pub fault_tolerance : Node → ℕ
  pub peers : Node → List NodeId
  pub propose : Node → Payload → Option (Node × (ProposeResult × List NetworkMessage))
  pub handle_message : Node → NetworkMessage → Option (Node × List NetworkMessage)
  pub tick : Node → Option (Node × List NetworkMessage)
  pub poll_committed : Node → Node × List CommittedEntry
  pub leader : Node → Option NodeId

-- The trait's default method.
unfoldable pub is_leader : {Node : Type 0} → ConsensusNode Node → Node → Bool
is_leader c n = elim (c.leader n) [ none ↦ false | some l ↦ l == c.id n ]

-- `(0..cluster_size).map(NodeId).filter(|&pid| pid != id)`, in the constructor of each protocol.
unfoldable pub peer_ids : NodeId → ℕ → List NodeId
peer_ids id cluster_size = keep_if (λ pid. not (pid == id)) (range 0 cluster_size)

unfoldable pub msg_to : NodeId → NodeId → ProtocolMessage → NetworkMessage
msg_to from to payload = record { from = from; to = to; payload = payload }

-- One message to each peer, in the order of the peers.
unfoldable pub broadcast : NodeId → List NodeId → ProtocolMessage → List NetworkMessage
unfolding msg_to
broadcast from peers payload = map (λ peer. msg_to from peer payload) peers
