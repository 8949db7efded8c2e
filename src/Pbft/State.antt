-- ===== src/Pbft/State.antt =====
-- src/consensus/pbft/mod.rs and state.rs: the state of a PBFT replica. The fields of `PbftNode` that
-- never change are one record; what the mutex guards, and the atomic `current_view`, are the other.
use bft_consensus_bench.Base.{ℕ, ◌+◌, ◌*◌, ◌/◌, ◌%◌, Bool, true, false, List, [], sub_u64}
use bft_consensus_bench.Base.Map
use bft_consensus_bench.Base.Map.{Map}
use bft_consensus_bench.Types.{NodeId, ViewNumber, SequenceNumber, Payload}
use bft_consensus_bench.Network.{NetworkMessage, ProtocolMessage, PbftMessage}
use bft_consensus_bench.Consensus.{CommittedEntry, peer_ids, broadcast}

abbrev pub view_change_timeout_ticks : ℕ
view_change_timeout_ticks = 40

pub data Phase : Type 0 where
  idle pre_prepared prepared committed : Phase

abbrev pub is_pre_prepared : Phase → Bool
is_pre_prepared Phase.pre_prepared = true
is_pre_prepared _ = false

abbrev pub is_prepared : Phase → Bool
is_prepared Phase.prepared = true
is_prepared _ = false

abbrev pub is_committed : Phase → Bool
is_committed Phase.committed = true
is_committed _ = false

pub record SlotState : Type 0 where
  pub view : ViewNumber
  pub sequence : SequenceNumber
  pub phase : Phase
  pub prepare_voters : List NodeId
  pub commit_voters : List NodeId

unfoldable pub new_slot : ViewNumber → SequenceNumber → SlotState
new_slot view sequence = record {
  view = view;
  sequence = sequence;
  phase = Phase.idle;
  prepare_voters = [];
  commit_voters = [];
}

pub record PbftNode : Type 0 where
  pub id : NodeId
  pub cluster_size : ℕ
  pub peer_ids : List NodeId

pub record PbftState : Type 0 where
  pub current_view : ViewNumber
  pub view : ViewNumber
  pub next_sequence : SequenceNumber
  pub slots : Map SlotState
  pub pending_payloads : Map Payload
  pub committed : List CommittedEntry
  pub view_change_timeout : ℕ
  pub view_change_in_progress : Bool
  pub view_change_votes : Map (List NodeId)
  pub highest_committed_seq : SequenceNumber
  pub primary_active : Bool

-- `PbftNode::new`, its two halves.
unfoldable pub new : NodeId → ℕ → PbftNode
new id cluster_size = record {
  id = id;
  cluster_size = cluster_size;
  peer_ids = peer_ids id cluster_size;
}

unfoldable pub init : PbftState
init = record {
  current_view = 0;
  view = 0;
  next_sequence = 1;
  slots = [];
  pending_payloads = [];
  committed = [];
  view_change_timeout = view_change_timeout_ticks;
  view_change_in_progress = false;
  view_change_votes = [];
  highest_committed_seq = 0;
  primary_active = false;
}

-- A cluster of size 0 would divide by zero here.
unfoldable pub primary_for_view : PbftNode → ViewNumber → NodeId
primary_for_view n view = view % n.cluster_size

unfoldable pub fault_tolerance : PbftNode → ℕ
fault_tolerance n = sub_u64 n.cluster_size 1 / 3

unfoldable pub quorum : PbftNode → ℕ
quorum n = let f = sub_u64 n.cluster_size 1 / 3 in 2 * f + 1

unfoldable pub prepare_threshold : PbftNode → ℕ
prepare_threshold n = let f = sub_u64 n.cluster_size 1 / 3 in 2 * f

unfoldable pub broadcast_pbft : PbftNode → PbftMessage → List NetworkMessage
broadcast_pbft n m = broadcast n.id n.peer_ids (ProtocolMessage.pbft m)

unfoldable pub enter_new_view : PbftState → ViewNumber → PbftState
enter_new_view s new_view = record s {
  view = new_view;
  view_change_in_progress = false;
  view_change_timeout = view_change_timeout_ticks;
  primary_active = false;
  slots = Map.retain (λ slot. is_committed slot.phase) s.slots;
  pending_payloads = [];
}
