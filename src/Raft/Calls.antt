-- ===== src/Raft/Calls.antt =====
-- The calls that the cluster makes on a Raft node, and runs of them. `none` is a panic.
use bft_consensus_bench.Base.{Option, none, some, List, [], ◌∷◌, ◌>>=◌}
use bft_consensus_bench.Types.{Payload}
use bft_consensus_bench.Network.{NetworkMessage}
use bft_consensus_bench.Raft.State.{RaftNode, RaftState, GenRange}
use bft_consensus_bench.Raft.Election.{tick}
use bft_consensus_bench.Raft.Replication.{propose}
use bft_consensus_bench.Raft.Node.{handle_message, poll_committed}

pub data Call : Type 0 where
  proposes : Payload → Call
  receives : NetworkMessage → Call
  ticks polls : Call

module _ {Rng : Type 0} (gen_range : GenRange Rng) (n : RaftNode) where
  unfoldable pub after : RaftState Rng → Call → Option (RaftState Rng)
  unfolding propose handle_message tick poll_committed
  after s (proposes payload) = some (propose n s payload).0
  after s (receives msg) = elim (handle_message gen_range n s msg) [
    | none ↦ none
    | some (t, out) ↦ some t
  ]
  after s ticks = some (tick gen_range n s).0
  after s polls = some (poll_committed s).0

  unfoldable pub run : RaftState Rng → List Call → Option (RaftState Rng)
  unfolding after
  run s [] = some s
  run s (c ∷ calls) = after s c >>= λ t. run t calls
