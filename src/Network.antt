-- ===== src/Network.antt =====
-- src/network/mod.rs: the messages of the three protocols.
use bft_consensus_bench.Base.{ℕ, Bool, List}
use bft_consensus_bench.Types.{NodeId, ViewNumber, SequenceNumber, Payload, Digest}

pub data PbftMessage : Type 0 where
  pre_prepare :
      (view : ViewNumber) (sequence : SequenceNumber) (digest : Digest) (payload : Payload)
      → PbftMessage
  prepare :
      (view : ViewNumber) (sequence : SequenceNumber) (digest : Digest) (replica : NodeId)
      → PbftMessage
  commit :
      (view : ViewNumber) (sequence : SequenceNumber) (digest : Digest) (replica : NodeId)
      → PbftMessage
  view_change :
      (new_view : ViewNumber) (replica : NodeId) (last_committed_seq : SequenceNumber) → PbftMessage
  new_view : (view : ViewNumber) (next_sequence : SequenceNumber) → PbftMessage

pub record LogEntry : Type 0 where
  pub term : ℕ
  pub index : ℕ
  pub payload : Payload

pub data RaftMessage : Type 0 where
  request_vote : (term : ℕ) (candidate_id : NodeId) (last_log_index last_log_term : ℕ) → RaftMessage
  request_vote_response : (term : ℕ) (vote_granted : Bool) → RaftMessage
  append_entries :
      (term : ℕ) (leader_id : NodeId) (prev_log_index prev_log_term : ℕ) (entries : List LogEntry)
      (leader_commit : ℕ)
      → RaftMessage
  append_entries_response : (term : ℕ) (success : Bool) (match_index : ℕ) → RaftMessage

pub data HotStuffPhaseTag : Type 0 where
  prepare pre_commit commit : HotStuffPhaseTag

pub data HotStuffMessage : Type 0 where
  propose :
      (view : ViewNumber) (sequence : SequenceNumber) (digest : Digest) (payload : Payload)
      (justify_view : ViewNumber) (justify_phase : HotStuffPhaseTag)
      → HotStuffMessage
  vote :
      (view : ViewNumber) (sequence : SequenceNumber) (digest : Digest) (phase : HotStuffPhaseTag)
      (voter : NodeId)
      → HotStuffMessage
  quorum_certificate :
      (view : ViewNumber) (sequence : SequenceNumber) (digest : Digest) (phase : HotStuffPhaseTag)
      (vote_count : ℕ)
      → HotStuffMessage
  new_view :
      (new_view : ViewNumber) (highest_qc_view : ViewNumber) (highest_qc_phase : HotStuffPhaseTag)
      (replica : NodeId)
      → HotStuffMessage

pub data ProtocolMessage : Type 0 where
  pbft : PbftMessage → ProtocolMessage
  raft : RaftMessage → ProtocolMessage
  hotstuff : HotStuffMessage → ProtocolMessage

pub record NetworkMessage : Type 0 where
  pub from : NodeId
  pub to : NodeId
  pub payload : ProtocolMessage
