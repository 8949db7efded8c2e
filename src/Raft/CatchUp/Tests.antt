-- ===== src/Raft/CatchUp/Tests.antt =====
-- A leader of term 2 and a follower whose last entry is of term 1.
use bft_consensus_bench.Base.{ℕ, zero, suc, ◌≡◌, refl, some, List, [], ◌∷◌, arith, take}
use bft_consensus_bench.Base.Map
use bft_consensus_bench.Network.{LogEntry}
use bft_consensus_bench.Raft.State.{Role, RaftNode, RaftState, build_append_entries}
use bft_consensus_bench.Raft.Replication.{append_all}
use bft_consensus_bench.Raft.Matching.{Matches, append_all-Matches}
use bft_consensus_bench.Raft.CatchUp.{exchange, CatchesUp, exchange-CatchesUp}
use bft_consensus_bench.Raft.Tests.{counting, node, entry, fresh}

abbrev full_log : List LogEntry
full_log = entry 1 1 ∷ entry 1 2 ∷ entry 2 3 ∷ []

abbrev stale_log : List LogEntry
stale_log = entry 1 1 ∷ entry 1 2 ∷ entry 1 3 ∷ []

abbrev follower_node : RaftNode
follower_node = record { id = 1; cluster_size = 3; peer_ids = 0 ∷ 2 ∷ [] }

abbrev leader_state : RaftState ℕ
leader_state = record fresh {
  current_term = 2;
  role = Role.leader;
  log = full_log;
  next_index = (1, 4) ∷ (2, 4) ∷ [];
  match_index = (1, 0) ∷ (2, 0) ∷ [];
}

abbrev follower_state : RaftState ℕ
follower_state = record fresh { current_term = 1; log = stale_log }

full-Matches : Matches full_log stale_log
full-Matches zero x y ex ey same = refl
full-Matches (suc zero) x y ex ey same = refl
full-Matches (suc (suc zero)) x y ex ey same = absurd (ground arith)
full-Matches (suc (suc (suc j))) x y ex ey same = cc

append_all-Matches_example :
    (take 3 (append_all stale_log (entry 2 3 ∷ [])) ≡ full_log)
    × Matches full_log (append_all stale_log (entry 2 3 ∷ []))
append_all-Matches_example =
    append_all-Matches 2 full_log stale_log (omega arith) (omega arith) (refl, (refl, (refl, tt)))
      refl full-Matches

exchange-CatchesUp_example :
    (s' : RaftState ℕ) × (t' : RaftState ℕ) × (exchange counting node follower_node 4 leader_state
        follower_state
        (build_append_entries node leader_state 1 ∷ [])
      ≡ some (s', t'))
    × CatchesUp leader_state s' t'
unfolding Map.get
exchange-CatchesUp_example =
    exchange-CatchesUp counting node follower_node 4 4 leader_state follower_state (omega arith)
      refl (omega arith) (refl, (refl, (refl, tt))) (omega arith) (omega arith) (omega arith) refl
      (omega arith) (omega arith) full-Matches
