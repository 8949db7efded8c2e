-- ===== src/Hotstuff/Views.antt =====
-- How a HotStuff replica moves between views (src/consensus/hotstuff/state.rs).
use bft_consensus_bench.Base.{
  ℕ, ◌≤◌, ◌<◌, ◌≡◌, ◌⊎◌, inl, inr, not, ◌&&◌, [], ◌∷◌, arith, leb, ltb, ◌==◌, length, Bool-cases,
}
use bft_consensus_bench.Base.Map
use bft_consensus_bench.Base.Map.{Map}
use bft_consensus_bench.Types.{NodeId, ViewNumber, Digest}
use bft_consensus_bench.Network.{HotStuffMessage, HotStuffPhaseTag}
use bft_consensus_bench.Hotstuff.State.{
  Phase, is_decided, SlotState, new_slot, HotStuffNode, HotStuffState, quorum, leader_for_view,
  enter_new_view,
}
use bft_consensus_bench.Hotstuff.Proposals.{advance_view, open_slot, on_propose}
use bft_consensus_bench.Hotstuff.Voting.{
  count_vote, deliver, apply_vote, on_vote, track_qc, advance_slot, decide, follow_qc,
  on_quorum_certificate,
}
use bft_consensus_bench.Hotstuff.ViewChange.{votes_for, add_vote, on_new_view}
use bft_consensus_bench.Hotstuff.Node.{handle_hotstuff}

-- The replica has left its view `s.view` for `w`, with the slots that were decided.
pub record Enters (s t : HotStuffState) (w : ViewNumber) : Type 0 where
  pub later : s.view < w
  pub view : t.view ≡ w
  pub current : t.current_view ≡ w

abbrev pub decided_slots : HotStuffState → Map SlotState
decided_slots s = Map.retain (λ slot. is_decided slot.phase) s.slots

abbrev pub Reason :
    HotStuffNode → HotStuffState → HotStuffState → HotStuffMessage → ViewNumber → Type 0
Reason n s t (HotStuffMessage.propose view seq d p justify_view justify_phase) w =
    (view ≡ w)
    × ((t.slots
          ≡ Map.insert seq (record (new_slot w seq) { phase = Phase.prepare }) (decided_slots s))
        × (t.pending_payloads ≡ (seq, p) ∷ []))
Reason n s t (HotStuffMessage.new_view view qc_view qc_phase replica) w =
    (view ≡ w)
    × ((leader_for_view n w ≡ n.id)
        × ((quorum n ≤ length (votes_for t w))
            × ((t.slots ≡ decided_slots s) × (t.pending_payloads ≡ []))))
Reason n s t _ w = ⊥

pub on_vote-view :
    (n : HotStuffNode) (s : HotStuffState) (view seq : ℕ) (d : Digest) (tag : HotStuffPhaseTag)
    (voter : NodeId)
    → (on_vote n s view seq d tag voter).0.view ≡ s.view
unfolding on_vote count_vote apply_vote deliver
on_vote-view n s view seq d HotStuffPhaseTag.prepare voter = ground arith
on_vote-view n s view seq d HotStuffPhaseTag.pre_commit voter = ground arith
on_vote-view n s view seq d HotStuffPhaseTag.commit voter = ground arith

pub on_quorum_certificate-view :
    (n : HotStuffNode) (s : HotStuffState) (view seq : ℕ) (d : Digest) (tag : HotStuffPhaseTag)
    (count : ℕ)
    → (on_quorum_certificate n s view seq d tag count).0.view ≡ s.view
unfolding on_quorum_certificate follow_qc track_qc advance_slot decide deliver
on_quorum_certificate-view n s view seq d HotStuffPhaseTag.prepare count = ground arith
on_quorum_certificate-view n s view seq d HotStuffPhaseTag.pre_commit count = ground arith
on_quorum_certificate-view n s view seq d HotStuffPhaseTag.commit count = ground arith

-- A message never moves the replica back. It moves the replica only as a proposal of a later view,
-- whoever sent it, or as the vote that completes a quorum of recorded votes for a later view that
-- this replica leads. Then every slot that is not decided and every waiting payload are dropped,
-- and the decided slots stay; a proposal opens its own slot, with its payload waiting.
pub handle_hotstuff-Enters :
    (n : HotStuffNode) (s : HotStuffState) (m : HotStuffMessage)
    → ((handle_hotstuff n s m).0.view ≡ s.view)
      ⊎ ((w : ViewNumber) × (Enters s (handle_hotstuff n s m).0 w
            × Reason n s (handle_hotstuff n s m).0 m w))
unfolding handle_hotstuff on_propose advance_view open_slot enter_new_view on_new_view Map.insert
    add_vote
handle_hotstuff-Enters n s (HotStuffMessage.propose view seq d p jv jp) =
    elim (Bool-cases (ltb s.view view)) [
      | inl later ↦ inr (view, ground arith)
      | inr old ↦ inl (ground arith)
    ]
handle_hotstuff-Enters n s (HotStuffMessage.vote view seq d tag voter) =
    inl (on_vote-view n s view seq d tag voter)
handle_hotstuff-Enters n s (HotStuffMessage.quorum_certificate view seq d tag count) =
    inl (on_quorum_certificate-view n s view seq d tag count)
handle_hotstuff-Enters n s (HotStuffMessage.new_view view qv qp replica) =
    let voted = add_vote s view replica in
    elim (Bool-cases (
      not (leb view s.view)
      && (leb (quorum n) (length (votes_for voted view)) && leader_for_view n view == n.id))) [
        | inl won ↦ inr (view, ground arith)
        | inr lost ↦ inl (ground arith)
      ]
