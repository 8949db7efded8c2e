-- ===== src/Hotstuff/Invariant/Voting.antt =====
-- Proposals, votes and quorum certificates keep a HotStuff replica well formed.
use bft_consensus_bench.Base.{
  ◌≡◌, refl, inl, inr, true, false, [], none, arith, add_u64, Option-cases,
}
use bft_consensus_bench.Base.NodeSet
use bft_consensus_bench.Base.Map
use bft_consensus_bench.Base.Map.{Map}
use bft_consensus_bench.Types.{NodeId, ViewNumber, SequenceNumber, Payload, Digest, Sha256}
use bft_consensus_bench.Network.{HotStuffPhaseTag}
use bft_consensus_bench.Hotstuff.State.{
  Phase, SlotState, new_slot, HotStuffNode, HotStuffState, view_change_timeout_ticks,
}
use bft_consensus_bench.Hotstuff.Proposals.{
  assign_sequence, propose, advance_view, open_slot, on_propose,
}
use bft_consensus_bench.Hotstuff.Voting.{
  VoteOutcome, ignored, counted, formed, count_vote, deliver, apply_vote, on_vote,
}
use bft_consensus_bench.Hotstuff.Invariant.Defs.{
  SlotIsValid, IsValid, store_slot, held_slot, rewrite_slot,
}
use bft_consensus_bench.Hotstuff.Invariant.ViewChange.{entered-IsValid}

-- A slot in the prepare phase, and the payload that it waits with.
stored-IsValid :
    (s : HotStuffState) (seq : SequenceNumber) (p : Payload) (slot : SlotState)
    → slot.sequence ≡ seq
    → slot.view ≡ s.view
    → slot.phase ≡ Phase.prepare
    → NodeSet.IsDistinct slot.prepare_voters
    → slot.precommit_voters ≡ []
    → slot.commit_voters ≡ []
    → IsValid s
    → IsValid (record s {
      slots = Map.insert seq slot s.slots;
      pending_payloads = Map.insert seq p s.pending_payloads;
    })
stored-IsValid s seq p slot key view phase prepares precommits commits v = record {
  slots =
      store_slot s seq slot (Map.insert seq p s.pending_payloads)
        (record {
          key = key;
          prepares = prepares;
          precommits = rw precommits tt;
          commits = rw commits tt;
          supported = rw phase (view, (p, Map.get-insert_self seq p s.pending_payloads));
        })
        (λ j ne. Map.get-insert_ne seq j p s.pending_payloads ne) v.slots;
  votes = v.votes;
  views = v.views;
  timer = v.timer;
}

pub propose-IsValid :
    (sha256 : Sha256) (n : HotStuffNode) (s : HotStuffState) (p : Payload)
    → IsValid s
    → IsValid (propose sha256 n s p).0
unfolding propose assign_sequence new_slot
propose-IsValid sha256 n s p v =
    let t = record s { next_sequence = add_u64 s.next_sequence 1 } in
    let w : IsValid t = record {
      slots = v.slots;
      votes = v.votes;
      views = v.views;
      timer = v.timer;
    } in
    let slot : SlotState = record {
      view = s.view;
      sequence = s.next_sequence;
      phase = Phase.prepare;
      prepare_voters = NodeSet.insert n.id [];
      precommit_voters = [];
      commit_voters = [];
    } in
    let stored =
      stored-IsValid t s.next_sequence p slot refl refl refl (NodeSet.insert-IsDistinct n.id [] tt)
        refl refl w in
    ground (arith, stored)

advance_view-IsValid :
    (s : HotStuffState) (view : ViewNumber) → IsValid s → IsValid (advance_view s view)
unfolding advance_view
advance_view-IsValid s view v = ground (arith, entered-IsValid s view v)

open_slot-IsValid :
    (s : HotStuffState) (seq : SequenceNumber) (p : Payload)
    → IsValid s
    → IsValid (open_slot s s.view seq p)
unfolding open_slot new_slot
open_slot-IsValid s seq p v =
    stored-IsValid
      (record s { leader_active = true; view_change_timeout = view_change_timeout_ticks }) seq p _
      refl refl refl tt refl refl
      (record { slots = v.slots; votes = v.votes; views = v.views; timer = omega arith })

pub on_propose-IsValid :
    (n : HotStuffNode) (s : HotStuffState) (view : ViewNumber) (seq : SequenceNumber) (d : Digest)
    (p : Payload)
    → IsValid s
    → IsValid (on_propose n s view seq d p).0
unfolding on_propose
on_propose-IsValid n s view seq d p v =
    let t = advance_view s view in
    let w = advance_view-IsValid s view v in ground (arith, w, open_slot-IsValid t seq p w)

-- A slot decided, and its payload let out.
pub decided-IsValid :
    (s : HotStuffState) (slot : SlotState) (seq : SequenceNumber)
    → slot.sequence ≡ seq
    → slot.phase ≡ Phase.decided
    → NodeSet.IsDistinct slot.prepare_voters
    → NodeSet.IsDistinct slot.precommit_voters
    → NodeSet.IsDistinct slot.commit_voters
    → IsValid s
    → IsValid (deliver (record s { slots = Map.insert seq slot s.slots }) seq)
unfolding deliver
decided-IsValid s slot seq key phase d1 d2 d3 v =
    elim (Option-cases (Map.get seq s.pending_payloads)) [
      | inl e ↦
          rw (e, deliver)
            (rewrite_slot s seq slot
              (record {
                key = key;
                prepares = d1;
                precommits = d2;
                commits = d3;
                supported = rw phase e;
              })
              v)
      | inr (p, e) ↦
          let gone : Map.get seq (Map.remove seq s.pending_payloads) ≡ none =
            ground (arith, Map.get-remove seq seq s.pending_payloads) in
          rw (e, deliver)
            (record {
              slots =
                  store_slot s seq slot (Map.remove seq s.pending_payloads)
                    (record {
                      key = key;
                      prepares = d1;
                      precommits = d2;
                      commits = d3;
                      supported = rw phase gone;
                    })
                    (λ j ne. Map.get-remove_ne seq j s.pending_payloads ne) v.slots;
              votes = v.votes;
              views = v.views;
              timer = v.timer;
            })
    ]

-- What a vote makes of a valid slot.
record Keeps (s : HotStuffState) (seq : SequenceNumber) (slot : SlotState) : Type 0 where
  key : slot.sequence ≡ seq
  prepares : NodeSet.IsDistinct slot.prepare_voters
  precommits : NodeSet.IsDistinct slot.precommit_voters
  commits : NodeSet.IsDistinct slot.commit_voters

abbrev OutcomeIsValid : HotStuffState → SequenceNumber → VoteOutcome → Type 0
OutcomeIsValid s seq ignored = Unit
OutcomeIsValid s seq (counted slot) = SlotIsValid s.view s.pending_payloads seq slot
OutcomeIsValid s seq (formed slot tag votes false) = SlotIsValid s.view s.pending_payloads seq slot
OutcomeIsValid s seq (formed slot tag votes true) = (slot.phase ≡ Phase.decided) × Keeps s seq slot

count_vote-OutcomeIsValid :
    (n : HotStuffNode) (s : HotStuffState) (seq : SequenceNumber) (slot : SlotState)
    (tag : HotStuffPhaseTag) (voter : NodeId)
    → SlotIsValid s.view s.pending_payloads seq slot
    → OutcomeIsValid s seq (count_vote n slot tag voter)
unfolding count_vote
count_vote-OutcomeIsValid n s seq slot HotStuffPhaseTag.prepare voter w = ground (
  arith,
  NodeSet.insert-IsDistinct voter slot.prepare_voters w.prepares,
  NodeSet.insert-IsDistinct n.id slot.precommit_voters w.precommits,
)
count_vote-OutcomeIsValid n s seq slot HotStuffPhaseTag.pre_commit voter w = ground (
  arith,
  NodeSet.insert-IsDistinct voter slot.precommit_voters w.precommits,
  NodeSet.insert-IsDistinct n.id slot.commit_voters w.commits,
)
count_vote-OutcomeIsValid n s seq slot HotStuffPhaseTag.commit voter w =
    ground (arith, NodeSet.insert-IsDistinct voter slot.commit_voters w.commits)

apply_vote-IsValid :
    (n : HotStuffNode) (s : HotStuffState) (view : ViewNumber) (seq : SequenceNumber) (d : Digest)
    (outcome : VoteOutcome)
    → OutcomeIsValid s seq outcome
    → IsValid s
    → IsValid (apply_vote n s view seq d outcome).0
unfolding apply_vote
apply_vote-IsValid n s view seq d ignored ok v = v
apply_vote-IsValid n s view seq d (counted slot) ok v = rewrite_slot s seq slot ok v
apply_vote-IsValid n s view seq d (formed slot tag votes false) ok v =
    rewrite_slot (record s { highest_qc_view = view; highest_qc_phase = tag }) seq slot ok
      (record { slots = v.slots; votes = v.votes; views = v.views; timer = v.timer })
apply_vote-IsValid n s view seq d (formed slot tag votes true) (phase, ok) v =
    decided-IsValid (record s { highest_qc_view = view; highest_qc_phase = tag }) slot seq ok.key
      phase ok.prepares ok.precommits ok.commits
      (record { slots = v.slots; votes = v.votes; views = v.views; timer = v.timer })

pub on_vote-IsValid :
    (n : HotStuffNode) (s : HotStuffState) (view : ViewNumber) (seq : SequenceNumber) (d : Digest)
    (tag : HotStuffPhaseTag) (voter : NodeId)
    → IsValid s
    → IsValid (on_vote n s view seq d tag voter).0
unfolding on_vote
on_vote-IsValid n s view seq d tag voter v = elim (Option-cases (Map.get seq s.slots)) [
  | inl e ↦ rw (e, on_vote) (ground arith)
  | inr (slot, e) ↦
      let ok = count_vote-OutcomeIsValid n s seq slot tag voter (held_slot s seq slot v e) in
      rw (e, on_vote)
        (ground (arith, apply_vote-IsValid n s view seq d (count_vote n slot tag voter) ok v))
]
