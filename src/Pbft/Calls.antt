-- ===== src/Pbft/Calls.antt =====
-- The calls that the cluster makes on a PBFT replica, and runs of them.
use bft_consensus_bench.Base.{List, [], ◌∷◌}
use bft_consensus_bench.Types.{Payload, Sha256}
use bft_consensus_bench.Network.{NetworkMessage, PbftMessage}
use bft_consensus_bench.Pbft.State.{PbftNode, PbftState}
use bft_consensus_bench.Pbft.Voting.{propose}
use bft_consensus_bench.Pbft.ViewChange.{tick}
use bft_consensus_bench.Pbft.Node.{handle_pbft, handle_message, poll_committed}

pub data Call : Type 0 where
  proposes : Payload → Call
  receives : NetworkMessage → Call
  ticks polls : Call

unfoldable pub after : Sha256 → PbftNode → PbftState → Call → PbftState
unfolding propose handle_message tick poll_committed
after sha256 n s (proposes payload) = (propose sha256 n s payload).0
after sha256 n s (receives msg) = (handle_message n s msg).0
after sha256 n s ticks = (tick n s).0
after sha256 n s polls = (poll_committed s).0

unfoldable pub run : Sha256 → PbftNode → PbftState → List Call → PbftState
unfolding after
run sha256 n s [] = s
run sha256 n s (c ∷ calls) = run sha256 n (after sha256 n s c) calls

-- The messages of a list, one after the other.
unfoldable pub handle_all : PbftNode → PbftState → List PbftMessage → PbftState
unfolding handle_pbft
handle_all n s [] = s
handle_all n s (m ∷ ms) = handle_all n (handle_pbft n s m).0 ms
