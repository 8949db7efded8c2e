-- ===== src/Cluster/Setup.antt =====
-- src/cluster/mod.rs: the clusters of each protocol, and the setting of faults. What the source
-- takes from the system's entropy is an argument; the crate rand's seeding is a parameter.
use bft_consensus_bench.Base.{ℕ, zero, suc, Option, none, some, List, [], ◌∷◌, map, range}
use bft_consensus_bench.Types.{NodeId}
use bft_consensus_bench.Cluster.Fault.{Rolls, with_rng}
use bft_consensus_bench.Cluster.CommitLog
use bft_consensus_bench.Cluster.State.{ClusterStats, Cluster, set_faults}
use bft_consensus_bench.Pbft
use bft_consensus_bench.Pbft.State.{PbftNode, PbftState}
use bft_consensus_bench.Hotstuff
use bft_consensus_bench.Hotstuff.State.{HotStuffNode, HotStuffState}
use bft_consensus_bench.Raft
use bft_consensus_bench.Raft.State.{RaftNode, RaftState, GenRange, force_leader}

-- `StdRng::seed_from_u64` and `rand::Rng::gen::<u64>`.
pub record Seeds (Rng : Type 0) : Type 0 where
  pub seed_from_u64 : ℕ → Rng
  pub gen_u64 : Rng → ℕ × Rng

-- `ClusterStats::default()`
unfoldable pub no_stats : ClusterStats
no_stats = record {
  messages_sent = 0;
  messages_delivered = 0;
  messages_dropped = 0;
  messages_tampered = 0;
  total_steps = 0;
}

unfoldable pub new_pbft_node : ℕ → NodeId → PbftNode × PbftState
new_pbft_node n id = (Pbft.State.new id n, Pbft.State.init)

unfoldable pub new_hotstuff_node : ℕ → NodeId → HotStuffNode × HotStuffState
new_hotstuff_node n id = (Hotstuff.State.new id n, Hotstuff.State.init)

module _ {Rng Rate : Type 0} (rolls : Rolls Rng Rate) where
  -- The literal that ends each constructor.
  unfoldable pub with_nodes : {Node : Type 0} → List Node → Rng → Cluster Node Rng Rate
  unfolding no_stats
  with_nodes nodes rng = record {
    nodes = nodes;
    pending = [];
    faults = with_rng rolls rng;
    stats = no_stats;
    commit_log = CommitLog.new;
  }

  unfoldable pub new_pbft : ℕ → Rng → Cluster (PbftNode × PbftState) Rng Rate
  unfolding with_nodes new_pbft_node
  new_pbft n entropy = with_nodes (map (new_pbft_node n) (range 0 n)) entropy

  unfoldable pub new_hotstuff : ℕ → Rng → Cluster (HotStuffNode × HotStuffState) Rng Rate
  unfolding with_nodes new_hotstuff_node
  new_hotstuff n entropy = with_nodes (map (new_hotstuff_node n) (range 0 n)) entropy

  module _ (seeds : Seeds Rng) where
    unfoldable pub new_pbft_seeded : ℕ → ℕ → Cluster (PbftNode × PbftState) Rng Rate
    unfolding with_nodes new_pbft_node
    new_pbft_seeded n seed =
        let (fault_seed, master) = seeds.gen_u64 (seeds.seed_from_u64 seed) in
        with_nodes (map (new_pbft_node n) (range 0 n)) (seeds.seed_from_u64 fault_seed)

    unfoldable pub new_hotstuff_seeded : ℕ → ℕ → Cluster (HotStuffNode × HotStuffState) Rng Rate
    unfolding with_nodes new_hotstuff_node
    new_hotstuff_seeded n seed =
        let (fault_seed, master) = seeds.gen_u64 (seeds.seed_from_u64 seed) in
        with_nodes (map (new_hotstuff_node n) (range 0 n)) (seeds.seed_from_u64 fault_seed)

  module _ (gen_range : GenRange Rng) where
    unfoldable pub new_raft_node : ℕ → NodeId → Rng → RaftNode × RaftState Rng
    new_raft_node n id rng = (Raft.State.new id n, Raft.State.init gen_range rng)

    -- `raft_nodes[0].force_leader()`, which panics in an empty cluster.
    unfoldable pub force_first :
        List (RaftNode × RaftState Rng) → Option (List (RaftNode × RaftState Rng))
    force_first [] = none
    force_first ((n, s) ∷ nodes) = some ((n, force_leader n s) ∷ nodes)

    -- Each node's generator is its own draw of the system's entropy.
    unfoldable pub new_raft : ℕ → (NodeId → Rng) → Rng → Cluster (RaftNode × RaftState Rng) Rng Rate
    unfolding with_nodes new_raft_node
    new_raft n node_entropy entropy =
        with_nodes (map (λ id. new_raft_node n id (node_entropy id)) (range 0 n)) entropy

    unfoldable pub new_raft_with_leader :
        ℕ → (NodeId → Rng) → Rng → Option (Cluster (RaftNode × RaftState Rng) Rng Rate)
    unfolding with_nodes new_raft_node force_first
    new_raft_with_leader n node_entropy entropy =
        elim (force_first (map (λ id. new_raft_node n id (node_entropy id)) (range 0 n))) [
          | none ↦ none
          | some nodes ↦ some (with_nodes nodes entropy)
        ]

    module _ (seeds : Seeds Rng) where
      -- The nodes from `id` on, each with a child of the master generator, and the master after it.
      unfoldable pub seeded_nodes : ℕ → NodeId → ℕ → Rng → List (RaftNode × RaftState Rng) × Rng
      unfolding new_raft_node
      seeded_nodes n id zero master = ([], master)
      seeded_nodes n id (suc left) master =
          let (seed, master1) = seeds.gen_u64 master in
          let (nodes, master2) = seeded_nodes n (suc id) left master1 in
          (new_raft_node n id (seeds.seed_from_u64 seed) ∷ nodes, master2)

      unfoldable pub new_raft_seeded : ℕ → ℕ → Cluster (RaftNode × RaftState Rng) Rng Rate
      unfolding with_nodes seeded_nodes
      new_raft_seeded n seed =
          let (nodes, master) = seeded_nodes n 0 n (seeds.seed_from_u64 seed) in
          let (fault_seed, master') = seeds.gen_u64 master in
          with_nodes nodes (seeds.seed_from_u64 fault_seed)

      unfoldable pub new_raft_with_leader_seeded :
          ℕ → ℕ → Option (Cluster (RaftNode × RaftState Rng) Rng Rate)
      unfolding with_nodes seeded_nodes force_first
      new_raft_with_leader_seeded n seed =
          let (nodes, master) = seeded_nodes n 0 n (seeds.seed_from_u64 seed) in
          let (fault_seed, master') = seeds.gen_u64 master in
          elim (force_first nodes) [
            | none ↦ none
            | some forced ↦ some (with_nodes forced (seeds.seed_from_u64 fault_seed))
          ]

  -- `set_faults` with the default.
  unfoldable pub clear_faults :
      {Node : Type 0} → Cluster Node Rng Rate → Rng → Cluster Node Rng Rate
  unfolding set_faults
  clear_faults c entropy = set_faults c (with_rng rolls entropy)
