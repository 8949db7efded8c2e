-- ===== src/Hotstuff/Numbers.antt =====
-- The sequence numbers that a HotStuff replica gives (src/consensus/hotstuff/state.rs).
use bft_consensus_bench.Base.{◌≡◌, refl, ◌∙◌, List, [], ◌∷◌, arith, All}
use bft_consensus_bench.Types.{Payload, Sha256, digest}
use bft_consensus_bench.Network.{NetworkMessage, ProtocolMessage, HotStuffMessage, HotStuffPhaseTag}
use bft_consensus_bench.Consensus.{accepted}
use bft_consensus_bench.Hotstuff.State.{
  HotStuffNode, HotStuffState, leader_for_view, broadcast_hotstuff, enter_new_view, init,
}
use bft_consensus_bench.Hotstuff.Proposals.{
  assign_sequence, propose, advance_view, open_slot, on_propose,
}
use bft_consensus_bench.Hotstuff.Voting.{
  count_vote, deliver, apply_vote, on_vote, track_qc, advance_slot, decide, follow_qc,
  on_quorum_certificate,
}
use bft_consensus_bench.Hotstuff.ViewChange.{add_vote, on_new_view, suspect_leader, tick}
use bft_consensus_bench.Hotstuff.Node.{handle_hotstuff, handle_message, poll_committed}
use bft_consensus_bench.Hotstuff.Calls.{Call, proposes, receives, ticks, polls, after, run}

-- No message, tick or poll touches the number of the next proposal.
handle_hotstuff-next_sequence :
    (n : HotStuffNode) (s : HotStuffState) (m : HotStuffMessage)
    → (handle_hotstuff n s m).0.next_sequence ≡ s.next_sequence
unfolding handle_hotstuff on_propose advance_view open_slot enter_new_view on_vote count_vote
    apply_vote deliver on_quorum_certificate track_qc follow_qc advance_slot decide on_new_view
    add_vote
handle_hotstuff-next_sequence n s (HotStuffMessage.propose view seq d p jv jp) = ground arith
handle_hotstuff-next_sequence n s (HotStuffMessage.vote view seq d HotStuffPhaseTag.prepare voter) =
    ground arith
handle_hotstuff-next_sequence n s
      (HotStuffMessage.vote view seq d HotStuffPhaseTag.pre_commit voter) =
    ground arith
handle_hotstuff-next_sequence n s (HotStuffMessage.vote view seq d HotStuffPhaseTag.commit voter) =
    ground arith
handle_hotstuff-next_sequence n s
      (HotStuffMessage.quorum_certificate view seq d HotStuffPhaseTag.prepare count) =
    ground arith
handle_hotstuff-next_sequence n s
      (HotStuffMessage.quorum_certificate view seq d HotStuffPhaseTag.pre_commit count) =
    ground arith
handle_hotstuff-next_sequence n s
      (HotStuffMessage.quorum_certificate view seq d HotStuffPhaseTag.commit count) =
    ground arith
handle_hotstuff-next_sequence n s (HotStuffMessage.new_view new_view qv qp replica) = ground arith

-- The call is no proposal.
abbrev pub IsPassive : Call → Type 0
IsPassive (proposes payload) = ⊥
IsPassive _ = Unit

handle_payload-next_sequence :
    (n : HotStuffNode) (s : HotStuffState) (msg : NetworkMessage) (m : ProtocolMessage)
    → msg.payload ≡ m
    → (handle_message n s msg).0.next_sequence ≡ s.next_sequence
unfolding handle_message
handle_payload-next_sequence n s msg (ProtocolMessage.hotstuff m) e =
    rw (e, handle_message) (handle_hotstuff-next_sequence n s m)
handle_payload-next_sequence n s msg (ProtocolMessage.raft m) e = rw (e, handle_message) refl
handle_payload-next_sequence n s msg (ProtocolMessage.pbft m) e = rw (e, handle_message) refl

after-next_sequence :
    (sha256 : Sha256) (n : HotStuffNode) (s : HotStuffState) (c : Call)
    → IsPassive c
    → (after sha256 n s c).next_sequence ≡ s.next_sequence
unfolding after tick suspect_leader add_vote poll_committed
after-next_sequence sha256 n s (proposes p) passive = absurd passive
after-next_sequence sha256 n s (receives msg) passive =
    handle_payload-next_sequence n s msg msg.payload refl
after-next_sequence sha256 n s ticks passive = ground arith
after-next_sequence sha256 n s polls passive = refl

run-next_sequence :
    (sha256 : Sha256) (n : HotStuffNode) (s : HotStuffState) (calls : List Call)
    → All IsPassive calls
    → (run sha256 n s calls).next_sequence ≡ s.next_sequence
unfolding run
run-next_sequence sha256 n s [] passive = refl
run-next_sequence sha256 n s (c ∷ calls) passive =
    run-next_sequence sha256 n (after sha256 n s c) calls passive.1
    ∙ after-next_sequence sha256 n s c passive.0

-- Whatever proposals of other leaders a replica has seen, voted for and committed, its own first
-- proposal, made once it leads, has sequence number 1.
pub first_proposal-number :
    (sha256 : Sha256) (n : HotStuffNode) (calls : List Call) (payload : Payload)
    → All IsPassive calls
    → leader_for_view n (run sha256 n init calls).view ≡ n.id
    → let s = run sha256 n init calls in
      (propose sha256 n s payload).1 ≡ (
        accepted,
        broadcast_hotstuff n (
            HotStuffMessage.propose s.view 1
              (digest sha256 payload)
              payload
              s.highest_qc_view
              s.highest_qc_phase),
      )
unfolding propose assign_sequence init
first_proposal-number sha256 n calls payload passive leads =
    ground (arith, run-next_sequence sha256 n init calls passive)
