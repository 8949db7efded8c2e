-- ===== src/Hotstuff/Calls.antt =====
-- The calls that the cluster makes on a HotStuff replica, and runs of them.
use bft_consensus_bench.Base.{List, [], ◌∷◌, ◌++◌}
use bft_consensus_bench.Types.{Payload, Sha256}
use bft_consensus_bench.Network.{NetworkMessage, HotStuffMessage}
use bft_consensus_bench.Hotstuff.State.{HotStuffNode, HotStuffState}
use bft_consensus_bench.Hotstuff.Proposals.{propose}
use bft_consensus_bench.Hotstuff.ViewChange.{tick}
use bft_consensus_bench.Hotstuff.Node.{handle_hotstuff, handle_message, poll_committed}

pub data Call : Type 0 where
  proposes : Payload → Call
  receives : NetworkMessage → Call
  ticks polls : Call

unfoldable pub after : Sha256 → HotStuffNode → HotStuffState → Call → HotStuffState
unfolding propose handle_message tick poll_committed
after sha256 n s (proposes payload) = (propose sha256 n s payload).0
after sha256 n s (receives msg) = (handle_message n s msg).0
after sha256 n s ticks = (tick n s).0
after sha256 n s polls = (poll_committed s).0

unfoldable pub run : Sha256 → HotStuffNode → HotStuffState → List Call → HotStuffState
unfolding after
run sha256 n s [] = s
run sha256 n s (c ∷ calls) = run sha256 n (after sha256 n s c) calls

-- The messages of a list, one after the other, and all that is sent in answer.
unfoldable pub handle_all :
    HotStuffNode → HotStuffState → List HotStuffMessage → HotStuffState × List NetworkMessage
unfolding handle_hotstuff
handle_all n s [] = (s, [])
handle_all n s (m ∷ ms) =
    let (t, out) = handle_hotstuff n s m in let (u, more) = handle_all n t ms in (u, out ++ more)
