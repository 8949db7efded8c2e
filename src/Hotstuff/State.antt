-- ===== src/Hotstuff/State.antt =====
-- src/consensus/hotstuff/mod.rs and state.rs: the state of a HotStuff replica. The fields of
-- `HotStuffNode` that never change are one record; what the mutex guards, and the atomic
-- `current_view`, are the other.
use bft_consensus_bench.Base.{ℕ, ◌+◌, ◌*◌, ◌/◌, ◌%◌, Bool, true, false, List, [], sub_u64}
use bft_consensus_bench.Base.Map
use bft_consensus_bench.Base.Map.{Map}
use bft_consensus_bench.Types.{NodeId, ViewNumber, SequenceNumber, Payload}
use bft_consensus_bench.Network.{NetworkMessage, ProtocolMessage, HotStuffMessage, HotStuffPhaseTag}
use bft_consensus_bench.Consensus.{CommittedEntry, peer_ids, broadcast}

abbrev pub view_change_timeout_ticks : ℕ
view_change_timeout_ticks = 40

pub data Phase : Type 0 where
  idle prepare pre_commit commit decided : Phase

abbrev pub is_prepare : Phase → Bool
is_prepare Phase.prepare = true
is_prepare _ = false

abbrev pub is_pre_commit : Phase → Bool
is_pre_commit Phase.pre_commit = true
is_pre_commit _ = false

abbrev pub is_commit : Phase → Bool
is_commit Phase.commit = true
is_commit _ = false

abbrev pub is_decided : Phase → Bool
is_decided Phase.decided = true
is_decided _ = false

pub record SlotState : Type 0 where
  pub view : ViewNumber
  pub sequence : SequenceNumber
  pub phase : Phase
  pub prepare_voters : List NodeId
  pub precommit_voters : List NodeId
  pub commit_voters : List NodeId

unfoldable pub new_slot : ViewNumber → SequenceNumber → SlotState
new_slot view sequence = record {
  view = view;
  sequence = sequence;
  phase = Phase.idle;
  prepare_voters = [];
  precommit_voters = [];
  commit_voters = [];
}

pub record HotStuffNode : Type 0 where
  pub id : NodeId
  pub cluster_size : ℕ
  pub peer_ids : List NodeId

pub record HotStuffState : Type 0 where
  pub current_view : ViewNumber
  pub view : ViewNumber
  pub next_sequence : SequenceNumber
  pub slots : Map SlotState
  pub pending_payloads : Map Payload
  pub committed : List CommittedEntry
  pub highest_qc_view : ViewNumber
  pub highest_qc_phase : HotStuffPhaseTag
  pub view_change_timeout : ℕ
  pub new_view_messages : Map (List NodeId)
  pub leader_active : Bool

-- `HotStuffNode::new`, its two halves.
unfoldable pub new : NodeId → ℕ → HotStuffNode
new id cluster_size = record {
  id = id;
  cluster_size = cluster_size;
  peer_ids = peer_ids id cluster_size;
}

unfoldable pub init : HotStuffState
init = record {
  current_view = 0;
  view = 0;
  next_sequence = 1;
  slots = [];
  pending_payloads = [];
  committed = [];
  highest_qc_view = 0;
  highest_qc_phase = HotStuffPhaseTag.prepare;
  view_change_timeout = view_change_timeout_ticks;
  new_view_messages = [];
  leader_active = false;
}

-- A cluster of size 0 would divide by zero here.
unfoldable pub leader_for_view : HotStuffNode → ViewNumber → NodeId
leader_for_view n view = view % n.cluster_size

unfoldable pub fault_tolerance : HotStuffNode → ℕ
fault_tolerance n = sub_u64 n.cluster_size 1 / 3

unfoldable pub quorum : HotStuffNode → ℕ
quorum n = let f = sub_u64 n.cluster_size 1 / 3 in 2 * f + 1

unfoldable pub broadcast_hotstuff : HotStuffNode → HotStuffMessage → List NetworkMessage
broadcast_hotstuff n m = broadcast n.id n.peer_ids (ProtocolMessage.hotstuff m)

unfoldable pub enter_new_view : HotStuffState → ViewNumber → HotStuffState
enter_new_view s new_view = record s {
  view = new_view;
  view_change_timeout = view_change_timeout_ticks;
  leader_active = false;
  slots = Map.retain (λ slot. is_decided slot.phase) s.slots;
  pending_payloads = [];
}

unfoldable pub phase_ord : HotStuffPhaseTag → ℕ
phase_ord HotStuffPhaseTag.prepare = 0
phase_ord HotStuffPhaseTag.pre_commit = 1
phase_ord HotStuffPhaseTag.commit = 2
