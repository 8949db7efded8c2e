-- ===== src/Raft/Node.antt =====
-- src/consensus/raft/state.rs: `handle_message` and the other methods of the trait.
use bft_consensus_bench.Base.{List, [], Option, none, some, ◌==◌, if◌then◌else◌}
use bft_consensus_bench.Types.{NodeId}
use bft_consensus_bench.Network.{NetworkMessage, ProtocolMessage, RaftMessage}
use bft_consensus_bench.Consensus.{CommittedEntry, ConsensusNode}
use bft_consensus_bench.Raft.State.{RaftNode, RaftState, GenRange, no_leader, fault_tolerance}
use bft_consensus_bench.Raft.Election.{on_request_vote, on_request_vote_response, tick}
use bft_consensus_bench.Raft.Replication.{propose, on_append_entries, on_append_entries_response}

module _ {Rng : Type 0} where
  unfoldable pub handle_raft :
      GenRange Rng
      → RaftNode
      → RaftState Rng
      → NodeId
      → RaftMessage
      → Option (RaftState Rng × List NetworkMessage)
  unfolding on_request_vote on_request_vote_response on_append_entries on_append_entries_response
  handle_raft gen_range n s from (RaftMessage.request_vote term candidate index last_term) =
      some (on_request_vote gen_range n s from term candidate index last_term)
  handle_raft gen_range n s from (RaftMessage.request_vote_response term vote_granted) =
      some (on_request_vote_response n s term vote_granted)
  handle_raft gen_range n s from
        (RaftMessage.append_entries term leader prev_index prev_term entries leader_commit) =
      on_append_entries gen_range n s from term leader prev_index prev_term entries leader_commit
  handle_raft gen_range n s from (RaftMessage.append_entries_response term success match_index) =
      on_append_entries_response n s from term success match_index

  unfoldable pub handle_message :
      GenRange Rng
      → RaftNode
      → RaftState Rng
      → NetworkMessage
      → Option (RaftState Rng × List NetworkMessage)
  unfolding handle_raft
  handle_message gen_range n s msg = elim msg.payload [
    | ProtocolMessage.raft m ↦ handle_raft gen_range n s msg.from m
    | _ ↦ some (s, [])
  ]

  unfoldable pub poll_committed : RaftState Rng → RaftState Rng × List CommittedEntry
  poll_committed s = (record s { committed = [] }, s.committed)

  unfoldable pub leader : RaftState Rng → Option NodeId
  leader s = if s.leader_id_atomic == no_leader then none else some s.leader_id_atomic

  -- `impl ConsensusNode for RaftNode`
  unfoldable pub raft_consensus : GenRange Rng → ConsensusNode (RaftNode × RaftState Rng)
  unfolding propose handle_message tick poll_committed leader fault_tolerance
  raft_consensus gen_range = record {
    id = λ p. p.0.id;
    cluster_size = λ p. p.0.cluster_size;
    fault_tolerance = λ p. fault_tolerance p.0;
    peers = λ p. p.0.peer_ids;
    propose = λ p payload. let (s, r) = propose p.0 p.1 payload in some ((p.0, s), r);
    handle_message = λ p m. elim (handle_message gen_range p.0 p.1 m) [
      | none ↦ none
      | some (s, out) ↦ some ((p.0, s), out)
    ];
    tick = λ p. let (s, out) = tick gen_range p.0 p.1 in some ((p.0, s), out);
    poll_committed = λ p. let (s, entries) = poll_committed p.1 in ((p.0, s), entries);
    leader = λ p. leader p.1;
  }
