-- ===== src/Pbft/Invariant/Methods.antt =====
-- Every method keeps a PBFT replica well formed, so every replica is.
use bft_consensus_bench.Base.{◌≡◌, refl, List, [], ◌∷◌, arith}
use bft_consensus_bench.Types.{Sha256}
use bft_consensus_bench.Network.{NetworkMessage, ProtocolMessage, PbftMessage}
use bft_consensus_bench.Pbft.State.{PbftNode, PbftState, init}
use bft_consensus_bench.Pbft.Node.{handle_pbft, handle_message}
use bft_consensus_bench.Pbft.Calls.{Call, proposes, receives, ticks, polls, after, run}
use bft_consensus_bench.Pbft.Invariant.Defs.{IsValid}
use bft_consensus_bench.Pbft.Invariant.Voting.{
  propose-IsValid, on_pre_prepare-IsValid, on_prepare-IsValid, on_commit-IsValid,
}
use bft_consensus_bench.Pbft.Invariant.ViewChange.{
  on_view_change-IsValid, on_new_view-IsValid, tick-IsValid,
}

handle_pbft-IsValid :
    (n : PbftNode) (s : PbftState) (m : PbftMessage) → IsValid n s → IsValid n (handle_pbft n s m).0
unfolding handle_pbft
handle_pbft-IsValid n s (PbftMessage.pre_prepare view seq d p) v =
    on_pre_prepare-IsValid n s view seq d p v
handle_pbft-IsValid n s (PbftMessage.prepare view seq d replica) v =
    on_prepare-IsValid n s view seq d replica v
handle_pbft-IsValid n s (PbftMessage.commit view seq d replica) v =
    on_commit-IsValid n s view seq d replica v
handle_pbft-IsValid n s (PbftMessage.view_change new_view replica last) v =
    on_view_change-IsValid n s new_view replica v
handle_pbft-IsValid n s (PbftMessage.new_view view next) v = on_new_view-IsValid n s view next v

handle_payload-IsValid :
    (n : PbftNode) (s : PbftState) (msg : NetworkMessage) (m : ProtocolMessage)
    → msg.payload ≡ m
    → IsValid n s
    → IsValid n (handle_message n s msg).0
unfolding handle_message
handle_payload-IsValid n s msg (ProtocolMessage.pbft m) e v =
    rw (e, handle_message) (handle_pbft-IsValid n s m v)
handle_payload-IsValid n s msg (ProtocolMessage.raft m) e v = rw (e, handle_message) v
handle_payload-IsValid n s msg (ProtocolMessage.hotstuff m) e v = rw (e, handle_message) v

-- Whatever a well-formed replica is called with, it stays well formed.
pub after-IsValid :
    (sha256 : Sha256) (n : PbftNode) (s : PbftState) (c : Call)
    → IsValid n s
    → IsValid n (after sha256 n s c)
unfolding after
after-IsValid sha256 n s (proposes p) v = propose-IsValid sha256 n s p v
after-IsValid sha256 n s (receives msg) v = handle_payload-IsValid n s msg msg.payload refl v
after-IsValid sha256 n s ticks v = tick-IsValid n s v
after-IsValid sha256 n s polls v = record {
  slots = v.slots;
  votes = v.votes;
  views = v.views;
  timer = v.timer;
}

run-IsValid :
    (sha256 : Sha256) (n : PbftNode) (s : PbftState) (calls : List Call)
    → IsValid n s
    → IsValid n (run sha256 n s calls)
unfolding run
run-IsValid sha256 n s [] v = v
run-IsValid sha256 n s (c ∷ calls) v =
    run-IsValid sha256 n (after sha256 n s c) calls (after-IsValid sha256 n s c v)

-- A replica is well formed after any calls whatever, forged messages included: each of its slots
-- stands under its own sequence number; no voter is counted twice; a prepared slot has the
-- prepare threshold and the replica's own commit vote; a committed slot has a quorum of commit
-- votes and lies at or below the highest committed sequence; a slot that is not committed is of
-- the current view and its payload waits; and the view that `leader` reads is the state's view.
pub run-init-IsValid :
    (sha256 : Sha256) (n : PbftNode) (calls : List Call) → IsValid n (run sha256 n init calls)
unfolding init
run-init-IsValid sha256 n calls =
    run-IsValid sha256 n init calls
      (record { slots = tt; votes = tt; views = refl; timer = omega arith })
