-- ===== src/Raft/State.antt =====
-- src/consensus/raft/mod.rs and state.rs: the state of a Raft node. The fields of `RaftNode` that
-- never change are one record; what the mutex guards, and `leader_id_atomic`, are the other. The
-- generator of the crate rand is a parameter: `gen_range rng lo hi` draws from `lo..=hi`.
use bft_consensus_bench.Base.{
  ℕ, ◌+◌, ◌-◌, ◌/◌, ◌^◌, Bool, false, Option, none, some, List, [], ◌∷◌, ltb, if◌then◌else◌,
  add_u64, sub_u64, length, get_elem?, drop, map,
}
use bft_consensus_bench.Base.Map
use bft_consensus_bench.Base.Map.{Map}
use bft_consensus_bench.Types.{NodeId}
use bft_consensus_bench.Network.{NetworkMessage, ProtocolMessage, RaftMessage, LogEntry}
use bft_consensus_bench.Consensus.{CommittedEntry, peer_ids, msg_to}

pub data Role : Type 0 where
  follower candidate leader : Role

abbrev pub is_leader_role : Role → Bool
is_leader_role Role.leader = Bool.true
is_leader_role _ = false

abbrev pub is_candidate_role : Role → Bool
is_candidate_role Role.candidate = Bool.true
is_candidate_role _ = false

pub record RaftNode : Type 0 where
  pub id : NodeId
  pub cluster_size : ℕ
  pub peer_ids : List NodeId

pub record RaftState (Rng : Type 0) : Type 0 where
  pub leader_id_atomic : ℕ
  pub current_term : ℕ
  pub voted_for : Option NodeId
  pub log : List LogEntry
  pub commit_index : ℕ
  pub role : Role
  pub leader_id : Option NodeId
  pub next_index : Map ℕ
  pub match_index : Map ℕ
  pub votes_received : ℕ
  pub election_ticks_remaining : ℕ
  pub heartbeat_ticks_remaining : ℕ
  pub rng : Rng
  pub committed : List CommittedEntry

abbrev pub GenRange : Type 0 → Type 0
GenRange Rng = Rng → ℕ → ℕ → ℕ × Rng

abbrev pub heartbeat_interval : ℕ
heartbeat_interval = 5

abbrev pub election_timeout_min : ℕ
election_timeout_min = 15

abbrev pub election_timeout_max : ℕ
election_timeout_max = 30

-- `u64::MAX`
abbrev pub no_leader : ℕ
no_leader = 2 ^ 64 - 1

unfoldable pub new : NodeId → ℕ → RaftNode
new id cluster_size = record {
  id = id;
  cluster_size = cluster_size;
  peer_ids = peer_ids id cluster_size;
}

unfoldable pub majority : RaftNode → ℕ
majority n = n.cluster_size / 2 + 1

unfoldable pub fault_tolerance : RaftNode → ℕ
fault_tolerance n = sub_u64 n.cluster_size 1 / 2

unfoldable pub send : RaftNode → NodeId → RaftMessage → NetworkMessage
send n to m = msg_to n.id to (ProtocolMessage.raft m)

-- `log.last().map(|e| e.term).unwrap_or(0)`
unfoldable pub last_log_term : List LogEntry → ℕ
last_log_term [] = 0
last_log_term (e ∷ []) = e.term
last_log_term (e ∷ f ∷ log) = last_log_term (f ∷ log)

-- `next_index` and `match_index` of every peer, as a new leader sets them.
unfoldable pub set_all : List NodeId → ℕ → Map ℕ → Map ℕ
set_all [] v m = m
set_all (p ∷ ps) v m = set_all ps v (Map.insert p v m)

module _ {Rng : Type 0} where
  unfoldable pub init : GenRange Rng → Rng → RaftState Rng
  init gen_range rng =
      let (election_timeout, rng') = gen_range rng election_timeout_min election_timeout_max in
      record {
        leader_id_atomic = no_leader;
        current_term = 0;
        voted_for = none;
        log = [];
        commit_index = 0;
        role = Role.follower;
        leader_id = none;
        next_index = [];
        match_index = [];
        votes_received = 0;
        election_ticks_remaining = election_timeout;
        heartbeat_ticks_remaining = 0;
        rng = rng';
        committed = [];
      }

  unfoldable pub reset_election_timeout : GenRange Rng → RaftState Rng → RaftState Rng
  reset_election_timeout gen_range s =
      let (election_timeout, rng') = gen_range s.rng election_timeout_min election_timeout_max in
      record s { election_ticks_remaining = election_timeout; rng = rng' }

  unfoldable pub init_indices : RaftNode → RaftState Rng → RaftState Rng
  unfolding set_all
  init_indices n s =
      let log_len = add_u64 (length s.log) 1 in
      record s {
        next_index = set_all n.peer_ids log_len s.next_index;
        match_index = set_all n.peer_ids 0 s.match_index;
      }

  unfoldable pub force_leader : RaftNode → RaftState Rng → RaftState Rng
  unfolding init_indices
  force_leader n s = init_indices n (record s {
    role = Role.leader;
    current_term = 1;
    leader_id = some n.id;
    leader_id_atomic = n.id;
  })

  -- `saturating_sub(1)` is `-` on ℕ; `next - 1` wraps.
  unfoldable pub build_append_entries : RaftNode → RaftState Rng → NodeId → NetworkMessage
  build_append_entries n s peer =
      let next : ℕ = elim (Map.get peer s.next_index) [ none ↦ 1 | some i ↦ i ] in
      let prev_log_index = next - 1 in
      let prev_entry = get_elem? s.log (prev_log_index - 1) in
      let prev_log_term : ℕ =
        if ltb 0 prev_log_index then (elim prev_entry [ none ↦ 0 | some e ↦ e.term ]) else 0 in
      send n peer (
        RaftMessage.append_entries s.current_term n.id prev_log_index prev_log_term
          (drop (sub_u64 next 1) s.log) s.commit_index)

  unfoldable pub append_entries_to_all : RaftNode → RaftState Rng → List NetworkMessage
  unfolding build_append_entries
  append_entries_to_all n s = map (build_append_entries n s) n.peer_ids
