-- ===== src/Pbft/Node.antt =====
-- src/consensus/pbft/state.rs: `handle_message` and the other methods of the trait.
use bft_consensus_bench.Base.{List, [], Option, some}
use bft_consensus_bench.Types.{NodeId, Sha256}
use bft_consensus_bench.Network.{NetworkMessage, ProtocolMessage, PbftMessage}
use bft_consensus_bench.Consensus.{CommittedEntry, ConsensusNode}
use bft_consensus_bench.Pbft.State.{PbftNode, PbftState, primary_for_view, fault_tolerance}
use bft_consensus_bench.Pbft.Voting.{propose, on_pre_prepare, on_prepare, on_commit}
use bft_consensus_bench.Pbft.ViewChange.{on_view_change, on_new_view, tick}

unfoldable pub handle_pbft : PbftNode → PbftState → PbftMessage → PbftState × List NetworkMessage
unfolding on_pre_prepare on_prepare on_commit on_view_change on_new_view
handle_pbft n s (PbftMessage.pre_prepare view sequence d payload) =
    on_pre_prepare n s view sequence d payload
handle_pbft n s (PbftMessage.prepare view sequence d replica) =
    on_prepare n s view sequence d replica
handle_pbft n s (PbftMessage.commit view sequence d replica) = on_commit n s view sequence d replica
handle_pbft n s (PbftMessage.view_change new_view replica last) =
    on_view_change n s new_view replica
handle_pbft n s (PbftMessage.new_view view next_sequence) = on_new_view s view next_sequence

unfoldable pub handle_message :
    PbftNode → PbftState → NetworkMessage → PbftState × List NetworkMessage
unfolding handle_pbft
handle_message n s msg = elim msg.payload [
  | ProtocolMessage.pbft m ↦ handle_pbft n s m
  | _ ↦ (s, [])
]

unfoldable pub poll_committed : PbftState → PbftState × List CommittedEntry
poll_committed s = (record s { committed = [] }, s.committed)

unfoldable pub leader : PbftNode → PbftState → Option NodeId
leader n s = some (primary_for_view n s.current_view)

-- `impl ConsensusNode for PbftNode`; no call panics in a cluster of at least one node.
unfoldable pub pbft_consensus : Sha256 → ConsensusNode (PbftNode × PbftState)
unfolding propose handle_message tick poll_committed leader fault_tolerance
pbft_consensus sha256 = record {
  id = λ p. p.0.id;
  cluster_size = λ p. p.0.cluster_size;
  fault_tolerance = λ p. fault_tolerance p.0;
  peers = λ p. p.0.peer_ids;
  propose = λ p payload. let (s, r) = propose sha256 p.0 p.1 payload in some ((p.0, s), r);
  handle_message = λ p m. let (s, out) = handle_message p.0 p.1 m in some ((p.0, s), out);
  tick = λ p. let (s, out) = tick p.0 p.1 in some ((p.0, s), out);
  poll_committed = λ p. let (s, entries) = poll_committed p.1 in ((p.0, s), entries);
  leader = λ p. leader p.0 p.1;
}
