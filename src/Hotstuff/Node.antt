-- ===== src/Hotstuff/Node.antt =====
-- src/consensus/hotstuff/state.rs: `handle_message` and the other methods of the trait.
use bft_consensus_bench.Base.{List, [], Option, some}
use bft_consensus_bench.Types.{NodeId, Sha256}
use bft_consensus_bench.Network.{NetworkMessage, ProtocolMessage, HotStuffMessage}
use bft_consensus_bench.Consensus.{CommittedEntry, ConsensusNode}
use bft_consensus_bench.Hotstuff.State.{
  HotStuffNode, HotStuffState, leader_for_view, fault_tolerance,
}
use bft_consensus_bench.Hotstuff.Proposals.{propose, on_propose}
use bft_consensus_bench.Hotstuff.Voting.{on_vote, on_quorum_certificate}
use bft_consensus_bench.Hotstuff.ViewChange.{on_new_view, tick}

unfoldable pub handle_hotstuff :
    HotStuffNode → HotStuffState → HotStuffMessage → HotStuffState × List NetworkMessage
unfolding on_propose on_vote on_quorum_certificate on_new_view
handle_hotstuff n s (HotStuffMessage.propose view sequence d payload justify_view justify_phase) =
    on_propose n s view sequence d payload
handle_hotstuff n s (HotStuffMessage.vote view sequence d phase voter) =
    on_vote n s view sequence d phase voter
handle_hotstuff n s (HotStuffMessage.quorum_certificate view sequence d phase vote_count) =
    on_quorum_certificate n s view sequence d phase vote_count
handle_hotstuff n s (HotStuffMessage.new_view new_view qc_view qc_phase replica) =
    on_new_view n s new_view replica

unfoldable pub handle_message :
    HotStuffNode → HotStuffState → NetworkMessage → HotStuffState × List NetworkMessage
unfolding handle_hotstuff
handle_message n s msg = elim msg.payload [
  | ProtocolMessage.hotstuff m ↦ handle_hotstuff n s m
  | _ ↦ (s, [])
]

unfoldable pub poll_committed : HotStuffState → HotStuffState × List CommittedEntry
poll_committed s = (record s { committed = [] }, s.committed)

unfoldable pub leader : HotStuffNode → HotStuffState → Option NodeId
leader n s = some (leader_for_view n s.current_view)

-- `impl ConsensusNode for HotStuffNode`; no call panics in a cluster of at least one node.
unfoldable pub hotstuff_consensus : Sha256 → ConsensusNode (HotStuffNode × HotStuffState)
unfolding propose handle_message tick poll_committed leader fault_tolerance
hotstuff_consensus sha256 = record {
  id = λ p. p.0.id;
  cluster_size = λ p. p.0.cluster_size;
  fault_tolerance = λ p. fault_tolerance p.0;
  peers = λ p. p.0.peer_ids;
  propose = λ p payload. let (s, r) = propose sha256 p.0 p.1 payload in some ((p.0, s), r);
  handle_message = λ p m. let (s, out) = handle_message p.0 p.1 m in some ((p.0, s), out);
  tick = λ p. let (s, out) = tick p.0 p.1 in some ((p.0, s), out);
  poll_committed = λ p. let (s, entries) = poll_committed p.1 in ((p.0, s), entries);
  leader = λ p. leader p.0 p.1;
}
