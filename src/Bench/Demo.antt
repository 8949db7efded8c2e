-- ===== src/Bench/Demo.antt =====
-- src/main.rs: the fault tolerances that the program prints.
use bft_consensus_bench.Base.{ℕ, List, [], ◌∷◌, map}
use bft_consensus_bench.Pbft
use bft_consensus_bench.Hotstuff
use bft_consensus_bench.Raft

-- The size of the cluster, and what node 0 of each protocol tolerates in it.
pub record DemoRow : Type 0 where
  pub nodes : ℕ
  pub pbft : ℕ
  pub hotstuff : ℕ
  pub raft : ℕ

unfoldable pub demo_row : ℕ → DemoRow
unfolding Pbft.State.fault_tolerance Hotstuff.State.fault_tolerance Raft.State.fault_tolerance
    Pbft.State.new Hotstuff.State.new Raft.State.new
demo_row n = record {
  nodes = n;
  pbft = Pbft.State.fault_tolerance (Pbft.State.new 0 n);
  hotstuff = Hotstuff.State.fault_tolerance (Hotstuff.State.new 0 n);
  raft = Raft.State.fault_tolerance (Raft.State.new 0 n);
}

unfoldable pub demo_rows : List DemoRow
unfolding demo_row
demo_rows = map demo_row (3 ∷ 5 ∷ 7 ∷ [])
