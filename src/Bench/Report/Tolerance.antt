-- ===== src/Bench/Report/Tolerance.antt =====
-- src/bin/bench_report.rs beside src/main.rs: the column of the fault tolerance.
use bft_consensus_bench.Base.{ℕ, ◌+◌, ◌*◌, ◌≤◌, ◌<◌, ◌≡◌, refl, arith, u64_mod}
use bft_consensus_bench.Types.{NodeId}
use bft_consensus_bench.Pbft
use bft_consensus_bench.Hotstuff
use bft_consensus_bench.Raft
use bft_consensus_bench.Bench.Demo.{demo_row}
use bft_consensus_bench.Bench.Report.{Protocol, tolerance}

-- `f` is the largest number of which `k` times is below the number of nodes.
abbrev pub IsLargest : ℕ → ℕ → ℕ → Type 0
IsLargest k n f = (k * f < n) × (n ≤ k * f + k)

-- For a cluster of at least one node, the report's column is what the nodes of each protocol say
-- that they tolerate: the largest f with 3f < n for PBFT and HotStuff, the largest f with 2f < n
-- for Raft. When f of the n nodes are silent, the others are still a quorum of PBFT, a quorum of
-- HotStuff and a majority of Raft, respectively.
pub tolerance_lem :
    (n : ℕ) (id : NodeId)
    → 1 ≤ n
    → n < u64_mod
    → ((tolerance Protocol.pbft n ≡ (demo_row n).pbft)
        × IsLargest 3 n (tolerance Protocol.pbft n)
        × (Pbft.State.quorum (Pbft.State.new id n) + tolerance Protocol.pbft n ≤ n))
      × ((tolerance Protocol.hotstuff n ≡ (demo_row n).hotstuff)
          × IsLargest 3 n (tolerance Protocol.hotstuff n)
          × (Hotstuff.State.quorum (Hotstuff.State.new id n) + tolerance Protocol.hotstuff n ≤ n))
      × ((tolerance Protocol.raft n ≡ (demo_row n).raft)
          × IsLargest 2 n (tolerance Protocol.raft n)
          × (Raft.State.majority (Raft.State.new id n) + tolerance Protocol.raft n ≤ n))
unfolding tolerance demo_row Pbft.State.fault_tolerance Hotstuff.State.fault_tolerance
    Raft.State.fault_tolerance Pbft.State.new Hotstuff.State.new Raft.State.new Pbft.State.quorum
    Hotstuff.State.quorum Raft.State.majority
tolerance_lem n id some_node small = (
  (refl, (omega arith, omega arith), omega arith),
  (refl, (omega arith, omega arith), omega arith),
  (refl, (omega arith, omega arith), omega arith),
)
