-- ===== src/Pbft/NormalCase/Prepares.antt =====
-- Prepare votes up to the threshold (src/consensus/pbft/state.rs).
use bft_consensus_bench.Base.{
  ◌≤◌, ◌<◌, ◌≡◌, refl, sym, ◌∙◌, subst, ◌⊎◌, inl, inr, false, List, [], ◌∷◌, some, arith, leb,
  if◌then◌else◌, length, Bool-cases,
}
use bft_consensus_bench.Base.NodeSet
use bft_consensus_bench.Base.Map
use bft_consensus_bench.Types.{NodeId, SequenceNumber, Digest}
use bft_consensus_bench.Network.{PbftMessage}
use bft_consensus_bench.Pbft.State.{
  Phase, is_pre_prepared, SlotState, PbftNode, PbftState, prepare_threshold,
}
use bft_consensus_bench.Pbft.Voting.{vote_prepare, on_prepare}
use bft_consensus_bench.Pbft.Node.{handle_pbft}
use bft_consensus_bench.Pbft.Calls.{handle_all}
use bft_consensus_bench.Pbft.NormalCase.Votes.{
  Vote, voters, prepares, put_slot, handle_all-cons, handle_all-nil,
}

-- Late votes change nothing.
prepares_late :
    (n : PbftNode) (s : PbftState) (seq : SequenceNumber) (slot : SlotState) (vs : List Vote)
    → Map.get seq s.slots ≡ some slot
    → is_pre_prepared slot.phase ≡ false
    → handle_all n s (prepares s.view seq vs) ≡ s
unfolding on_prepare vote_prepare handle_pbft
prepares_late n s seq slot [] held late = handle_all-nil n s
prepares_late n s seq slot ((d, r) ∷ vs) held late =
    handle_all-cons n s s _ _ (ground arith) ∙ prepares_late n s seq slot vs held late

-- The slot is prepared, with this node's own commit vote, and nothing else has changed.
pub record Prepared (n : PbftNode) (seq : SequenceNumber) (s t : PbftState) (slot : SlotState)
    : Type 0 where
  pub view : t.view ≡ s.view
  pub pending : t.pending_payloads ≡ s.pending_payloads
  pub committed : t.committed ≡ s.committed
  pub after : SlotState
  pub held : Map.get seq t.slots ≡ some after
  pub phase : after.phase ≡ Phase.prepared
  pub own_vote : after.commit_voters ≡ NodeSet.insert n.id slot.commit_voters

abbrev pub counted : SlotState → NodeId → SlotState
counted slot r = record slot { prepare_voters = NodeSet.insert r slot.prepare_voters }

abbrev pub certified : PbftNode → SlotState → NodeId → SlotState
certified n slot r = record slot {
  phase = Phase.prepared;
  prepare_voters = NodeSet.insert r slot.prepare_voters;
  commit_voters = NodeSet.insert n.id slot.commit_voters;
}

-- One prepare vote on a slot that collects them.
prepare_step :
    (n : PbftNode) (seq : SequenceNumber) (s : PbftState) (slot : SlotState) (d : Digest)
    (r : NodeId)
    → Map.get seq s.slots ≡ some slot
    → slot.phase ≡ Phase.pre_prepared
    → (handle_pbft n s (PbftMessage.prepare s.view seq d r)).0
      ≡ put_slot s seq (
          if leb (prepare_threshold n) (length (NodeSet.insert r slot.prepare_voters))
          then certified n slot r
          else counted slot r)
unfolding handle_pbft on_prepare vote_prepare
prepare_step n seq s slot d r held fresh = ground arith

pub collect_prepares :
    (n : PbftNode) (seq : SequenceNumber) (s : PbftState) (slot : SlotState) (vs : List Vote)
    → Map.get seq s.slots ≡ some slot
    → slot.phase ≡ Phase.pre_prepared
    → prepare_threshold n ≤ length (NodeSet.insert_all (voters vs) slot.prepare_voters)
    → (length slot.prepare_voters < prepare_threshold n) ⊎ (0 < length vs)
    → Prepared n seq s (handle_all n s (prepares s.view seq vs)) slot
unfolding NodeSet.insert_all
collect_prepares n seq s slot [] held fresh enough more = absurd (ground arith)
collect_prepares n seq s slot ((d, r) ∷ vs) held fresh enough more =
    let rest = prepares s.view seq vs in
    let m = PbftMessage.prepare s.view seq d r in
    let step = prepare_step n seq s slot d r held fresh in
    elim (Bool-cases (leb (prepare_threshold n) (length (NodeSet.insert r slot.prepare_voters)))) [
      | inl reached ↦
          let next = put_slot s seq (certified n slot r) in
          let path : handle_all n s (m ∷ rest) ≡ next =
            handle_all-cons n s next m rest (rw reached at step)
            ∙ prepares_late n next seq (certified n slot r) vs (Map.get-insert_self seq _ s.slots)
                refl in
          subst (λ t. Prepared n seq s t slot) (sym path)
            (record {
              view = refl;
              pending = refl;
              committed = refl;
              after = certified n slot r;
              held = Map.get-insert_self seq _ s.slots;
              phase = refl;
              own_vote = refl;
            })
      | inr short ↦
          let next = put_slot s seq (counted slot r) in
          let later =
            collect_prepares n seq next (counted slot r) vs (Map.get-insert_self seq _ s.slots)
              fresh enough (inl (ground arith)) in
          subst (λ t. Prepared n seq s t slot)
            (sym (handle_all-cons n s next m rest (rw short at step)))
            (record {
              view = later.view;
              pending = later.pending;
              committed = later.committed;
              after = later.after;
              held = later.held;
              phase = later.phase;
              own_vote = later.own_vote;
            })
    ]
