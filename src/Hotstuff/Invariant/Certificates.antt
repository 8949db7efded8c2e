-- ===== src/Hotstuff/Invariant/Certificates.antt =====
-- Quorum certificates keep a HotStuff replica well formed.
use bft_consensus_bench.Base.{ℕ, ◌≡◌, refl, inl, inr, Bool, true, arith, Option-cases, Bool-cases}
use bft_consensus_bench.Base.Map
use bft_consensus_bench.Types.{ViewNumber, SequenceNumber, Digest}
use bft_consensus_bench.Network.{HotStuffPhaseTag}
use bft_consensus_bench.Hotstuff.State.{
  Phase, is_prepare, is_pre_commit, SlotState, HotStuffNode, HotStuffState,
}
use bft_consensus_bench.Hotstuff.Voting.{
  track_qc, advance_slot, decide, follow_qc, on_quorum_certificate,
}
use bft_consensus_bench.Hotstuff.Invariant.Defs.{
  Supports, SlotIsValid, IsValid, held_slot, rewrite_slot,
}
use bft_consensus_bench.Hotstuff.Invariant.Voting.{decided-IsValid}

-- A slot on its way goes to the next phase of it.
moved-IsValid :
    (s : HotStuffState) (seq : SequenceNumber) (slot : SlotState) (to : Phase)
    → SlotIsValid s.view s.pending_payloads seq slot
    → Supports s.view (Map.get seq s.pending_payloads) (record slot { phase = to }) to
    → IsValid s
    → IsValid (record s { slots = Map.insert seq (record slot { phase = to }) s.slots })
moved-IsValid s seq slot to w ok v =
    rewrite_slot s seq (record slot { phase = to })
      (record {
        key = w.key;
        prepares = w.prepares;
        precommits = w.precommits;
        commits = w.commits;
        supported = ok;
      })
      v

advance_slot-IsValid :
    (s : HotStuffState) (seq : SequenceNumber) (is_from : Phase → Bool) (to : Phase)
    → ((slot : SlotState)
        → is_from slot.phase ≡ true
        → Supports s.view (Map.get seq s.pending_payloads) slot slot.phase
        → Supports s.view (Map.get seq s.pending_payloads) (record slot { phase = to }) to)
    → IsValid s
    → IsValid (advance_slot s seq is_from to)
unfolding advance_slot
advance_slot-IsValid s seq is_from to step v = elim (Option-cases (Map.get seq s.slots)) [
  | inl e ↦ rw (e, advance_slot) v
  | inr (slot, e) ↦
      let w = held_slot s seq slot v e in
      elim (Bool-cases (is_from slot.phase)) [
        | inl at ↦
            rw (e, at, advance_slot) (moved-IsValid s seq slot to w (step slot at w.supported) v)
        | inr elsewhere ↦ rw (e, elsewhere, advance_slot) v
      ]
]

decide-IsValid : (s : HotStuffState) (seq : SequenceNumber) → IsValid s → IsValid (decide s seq)
unfolding decide
decide-IsValid s seq v = elim (Option-cases (Map.get seq s.slots)) [
  | inl e ↦ rw (e, decide) v
  | inr (slot, e) ↦
      let w = held_slot s seq slot v e in
      rw (e, decide)
        (ground (
          arith,
          v,
          decided-IsValid s (record slot { phase = Phase.decided }) seq w.key refl w.prepares
              w.precommits w.commits v,
        ))
]

follow_qc-IsValid :
    (n : HotStuffNode) (s : HotStuffState) (view : ViewNumber) (seq : SequenceNumber) (d : Digest)
    (tag : HotStuffPhaseTag)
    → IsValid s
    → IsValid (follow_qc n s view seq d tag).0
unfolding follow_qc
follow_qc-IsValid n s view seq d HotStuffPhaseTag.prepare v =
    advance_slot-IsValid s seq is_prepare Phase.pre_commit (λ slot at ok. ground arith) v
follow_qc-IsValid n s view seq d HotStuffPhaseTag.pre_commit v =
    advance_slot-IsValid s seq is_pre_commit Phase.commit (λ slot at ok. ground arith) v
follow_qc-IsValid n s view seq d HotStuffPhaseTag.commit v = decide-IsValid s seq v

track_qc-IsValid :
    (s : HotStuffState) (view : ViewNumber) (tag : HotStuffPhaseTag)
    → IsValid s
    → IsValid (track_qc s view tag)
unfolding track_qc
track_qc-IsValid s view tag v =
    let w : IsValid (record s { highest_qc_view = view; highest_qc_phase = tag }) = record {
      slots = v.slots;
      votes = v.votes;
      views = v.views;
      timer = v.timer;
    } in
    ground (arith, v, w)

pub on_quorum_certificate-IsValid :
    (n : HotStuffNode) (s : HotStuffState) (view : ViewNumber) (seq : SequenceNumber) (d : Digest)
    (tag : HotStuffPhaseTag) (vote_count : ℕ)
    → IsValid s
    → IsValid (on_quorum_certificate n s view seq d tag vote_count).0
unfolding on_quorum_certificate
on_quorum_certificate-IsValid n s view seq d tag vote_count v =
    let w = track_qc-IsValid s view tag v in
    ground (arith, w, follow_qc-IsValid n (track_qc s view tag) view seq d tag w)
