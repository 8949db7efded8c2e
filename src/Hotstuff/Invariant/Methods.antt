-- ===== src/Hotstuff/Invariant/Methods.antt =====
-- Every method keeps a HotStuff replica well formed, so every replica is.
use bft_consensus_bench.Base.{◌≡◌, refl, List, [], ◌∷◌, arith}
use bft_consensus_bench.Types.{Sha256}
use bft_consensus_bench.Network.{NetworkMessage, ProtocolMessage, HotStuffMessage}
use bft_consensus_bench.Hotstuff.State.{HotStuffNode, HotStuffState, init}
use bft_consensus_bench.Hotstuff.Node.{handle_hotstuff, handle_message}
use bft_consensus_bench.Hotstuff.Calls.{Call, proposes, receives, ticks, polls, after, run}
use bft_consensus_bench.Hotstuff.Invariant.Defs.{IsValid}
use bft_consensus_bench.Hotstuff.Invariant.Voting.{
  propose-IsValid, on_propose-IsValid, on_vote-IsValid,
}
use bft_consensus_bench.Hotstuff.Invariant.Certificates.{on_quorum_certificate-IsValid}
use bft_consensus_bench.Hotstuff.Invariant.ViewChange.{on_new_view-IsValid, tick-IsValid}

handle_hotstuff-IsValid :
    (n : HotStuffNode) (s : HotStuffState) (m : HotStuffMessage)
    → IsValid s
    → IsValid (handle_hotstuff n s m).0
unfolding handle_hotstuff
handle_hotstuff-IsValid n s (HotStuffMessage.propose view seq d p jv jp) v =
    on_propose-IsValid n s view seq d p v
handle_hotstuff-IsValid n s (HotStuffMessage.vote view seq d tag voter) v =
    on_vote-IsValid n s view seq d tag voter v
handle_hotstuff-IsValid n s (HotStuffMessage.quorum_certificate view seq d tag count) v =
    on_quorum_certificate-IsValid n s view seq d tag count v
handle_hotstuff-IsValid n s (HotStuffMessage.new_view new_view qv qp replica) v =
    on_new_view-IsValid n s new_view replica v

handle_payload-IsValid :
    (n : HotStuffNode) (s : HotStuffState) (msg : NetworkMessage) (m : ProtocolMessage)
    → msg.payload ≡ m
    → IsValid s
    → IsValid (handle_message n s msg).0
unfolding handle_message
handle_payload-IsValid n s msg (ProtocolMessage.hotstuff m) e v =
    rw (e, handle_message) (handle_hotstuff-IsValid n s m v)
handle_payload-IsValid n s msg (ProtocolMessage.raft m) e v = rw (e, handle_message) v
handle_payload-IsValid n s msg (ProtocolMessage.pbft m) e v = rw (e, handle_message) v

after-IsValid :
    (sha256 : Sha256) (n : HotStuffNode) (s : HotStuffState) (c : Call)
    → IsValid s
    → IsValid (after sha256 n s c)
unfolding after
after-IsValid sha256 n s (proposes p) v = propose-IsValid sha256 n s p v
after-IsValid sha256 n s (receives msg) v = handle_payload-IsValid n s msg msg.payload refl v
after-IsValid sha256 n s ticks v = tick-IsValid n s v
after-IsValid sha256 n s polls v = record {
  slots = v.slots;
  votes = v.votes;
  views = v.views;
  timer = v.timer;
}

run-IsValid :
    (sha256 : Sha256) (n : HotStuffNode) (s : HotStuffState) (calls : List Call)
    → IsValid s
    → IsValid (run sha256 n s calls)
unfolding run
run-IsValid sha256 n s [] v = v
run-IsValid sha256 n s (c ∷ calls) v =
    run-IsValid sha256 n (after sha256 n s c) calls (after-IsValid sha256 n s c v)

-- A HotStuff replica is well formed after any calls whatever, forged messages included: each of
-- its slots stands under its own sequence number; no voter is counted twice in any phase or for a
-- new view; a slot that is not decided is of the current view and its payload waits; a decided
-- slot has no payload left; the view that `leader` reads is the state's view;
-- and the timer is at most 40.
pub every_run-IsValid :
    (sha256 : Sha256) (n : HotStuffNode) (calls : List Call) → IsValid (run sha256 n init calls)
unfolding init
every_run-IsValid sha256 n calls =
    run-IsValid sha256 n init calls
      (record { slots = tt; votes = tt; views = refl; timer = omega arith })
