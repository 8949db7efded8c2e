-- ===== src/Hotstuff/Certificates.antt =====
-- The certificates that a HotStuff leader forms (src/consensus/hotstuff/state.rs).
use bft_consensus_bench.Base.{
  ℕ, ◌≤◌, ◌≡◌, ◌⊎◌, inl, inr, Bool, true, ◌&&◌, List, [], some, arith, leb, ◌==◌, length,
  Option-cases, Bool-cases,
}
use bft_consensus_bench.Base.NodeSet
use bft_consensus_bench.Base.Map
use bft_consensus_bench.Types.{NodeId, ViewNumber, Digest}
use bft_consensus_bench.Network.{NetworkMessage, HotStuffMessage, HotStuffPhaseTag}
use bft_consensus_bench.Hotstuff.State.{
  is_prepare, is_pre_commit, is_commit, SlotState, HotStuffNode, HotStuffState, quorum,
  leader_for_view, broadcast_hotstuff,
}
use bft_consensus_bench.Hotstuff.Voting.{count_vote, deliver, apply_vote, on_vote}

-- The voters of a phase, and whether the slot is in it.
abbrev pub voters_of : SlotState → HotStuffPhaseTag → List NodeId
voters_of slot HotStuffPhaseTag.prepare = slot.prepare_voters
voters_of slot HotStuffPhaseTag.pre_commit = slot.precommit_voters
voters_of slot HotStuffPhaseTag.commit = slot.commit_voters

abbrev pub in_phase : SlotState → HotStuffPhaseTag → Bool
in_phase slot HotStuffPhaseTag.prepare = is_prepare slot.phase
in_phase slot HotStuffPhaseTag.pre_commit = is_pre_commit slot.phase
in_phase slot HotStuffPhaseTag.commit = is_commit slot.phase

-- The leader of the current view holds the slot in the phase of the vote.
pub record Certifies (n : HotStuffNode) (s : HotStuffState) (view seq : ℕ) (tag : HotStuffPhaseTag)
    (voter : NodeId) : Type 0 where
  pub leads : leader_for_view n view ≡ n.id
  pub current : view ≡ s.view
  pub slot : SlotState
  pub held : Map.get seq s.slots ≡ some slot
  pub phase : in_phase slot tag ≡ true
  pub full : quorum n ≤ length (NodeSet.insert voter (voters_of slot tag))

-- The message of the certificate that one more voter completes.
abbrev pub certificate :
    (n : HotStuffNode) (s : HotStuffState) (view seq : ℕ) (d : Digest) (tag : HotStuffPhaseTag)
    (voter : NodeId)
    → Certifies n s view seq tag voter
    → List NetworkMessage
certificate n s view seq d tag voter c = broadcast_hotstuff n (
    HotStuffMessage.quorum_certificate view seq d tag
      (length (NodeSet.insert voter (voters_of c.slot tag))))

abbrev completes :
    HotStuffNode → HotStuffState → ViewNumber → SlotState → HotStuffPhaseTag → NodeId → Bool
completes n s view slot tag voter =
    (leader_for_view n view == n.id && view == s.view)
    && (in_phase slot tag && leb (quorum n) (length (NodeSet.insert voter (voters_of slot tag))))

-- A vote makes a replica send nothing, or exactly the certificate of the vote's phase to every
-- peer. The latter only if the replica leads the current view, holds the slot in that phase, and
-- has a quorum of recorded voters of the phase, this one counted once; the certificate claims
-- exactly their number, and the replica takes it as its highest.
pub on_vote-Certifies :
    (n : HotStuffNode) (s : HotStuffState) (view seq : ℕ) (d : Digest) (tag : HotStuffPhaseTag)
    (voter : NodeId)
    → ((on_vote n s view seq d tag voter).1 ≡ [])
      ⊎ ((c : Certifies n s view seq tag voter) × ((on_vote n s view seq d tag voter).1
            ≡ certificate n s view seq d tag voter c)
          × ((on_vote n s view seq d tag voter).0.highest_qc_view ≡ view)
          × ((on_vote n s view seq d tag voter).0.highest_qc_phase ≡ tag))
unfolding on_vote count_vote apply_vote deliver
on_vote-Certifies n s view seq d HotStuffPhaseTag.prepare voter =
    elim (Option-cases (Map.get seq s.slots)) [
      | inl e ↦ inl (ground arith)
      | inr (slot, e) ↦ elim (Bool-cases (completes n s view slot HotStuffPhaseTag.prepare voter)) [
        | inl full ↦
            let c : Certifies n s view seq HotStuffPhaseTag.prepare voter = record {
              leads = ground arith;
              current = ground arith;
              slot = slot;
              held = e;
              phase = ground arith;
              full = ground arith;
            } in
            inr (c, ground arith, ground arith, ground arith)
        | inr short ↦ inl (ground arith)
      ]
    ]
on_vote-Certifies n s view seq d HotStuffPhaseTag.pre_commit voter =
    elim (Option-cases (Map.get seq s.slots)) [
      | inl e ↦ inl (ground arith)
      | inr (slot, e) ↦
          elim (Bool-cases (completes n s view slot HotStuffPhaseTag.pre_commit voter)) [
            | inl full ↦
                let c : Certifies n s view seq HotStuffPhaseTag.pre_commit voter = record {
                  leads = ground arith;
                  current = ground arith;
                  slot = slot;
                  held = e;
                  phase = ground arith;
                  full = ground arith;
                } in
                inr (c, ground arith, ground arith, ground arith)
            | inr short ↦ inl (ground arith)
          ]
    ]
on_vote-Certifies n s view seq d HotStuffPhaseTag.commit voter =
    elim (Option-cases (Map.get seq s.slots)) [
      | inl e ↦ inl (ground arith)
      | inr (slot, e) ↦ elim (Bool-cases (completes n s view slot HotStuffPhaseTag.commit voter)) [
        | inl full ↦
            let c : Certifies n s view seq HotStuffPhaseTag.commit voter = record {
              leads = ground arith;
              current = ground arith;
              slot = slot;
              held = e;
              phase = ground arith;
              full = ground arith;
            } in
            inr (c, ground arith, ground arith, ground arith)
        | inr short ↦ inl (ground arith)
      ]
    ]
