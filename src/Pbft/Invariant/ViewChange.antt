-- ===== src/Pbft/Invariant/ViewChange.antt =====
-- View changes and the timer keep a PBFT replica well formed.
use bft_consensus_bench.Base.{◌≡◌, refl, inl, inr, true, [], arith, add_u64, Option-cases}
use bft_consensus_bench.Base.NodeSet
use bft_consensus_bench.Base.Map
use bft_consensus_bench.Base.Map.{Map}
use bft_consensus_bench.Types.{NodeId, ViewNumber, SequenceNumber, Payload}
use bft_consensus_bench.Pbft.State.{
  Phase, is_committed, SlotState, PbftNode, PbftState, enter_new_view,
}
use bft_consensus_bench.Pbft.ViewChange.{
  votes_for, add_vote, become_primary, join_view_change, on_view_change, on_new_view,
  suspect_primary, tick,
}
use bft_consensus_bench.Pbft.Invariant.Defs.{Supports, SlotsAreValid, IsValid}

Supports-committed :
    (n : PbftNode) (view view' : ViewNumber) (pending pending' : Map Payload)
    (highest seq : SequenceNumber) (slot : SlotState) (phase : Phase)
    → is_committed phase ≡ true
    → Supports n view pending highest seq slot phase
    → Supports n view' pending' highest seq slot phase
Supports-committed n view view' pending pending' highest seq slot Phase.idle c p = cc
Supports-committed n view view' pending pending' highest seq slot Phase.pre_prepared c p = cc
Supports-committed n view view' pending pending' highest seq slot Phase.prepared c p = cc
Supports-committed n view view' pending pending' highest seq slot Phase.committed c p = p

-- The committed slots are valid in every view.
kept_slots :
    (n : PbftNode) (s : PbftState) (new_view : ViewNumber)
    → SlotsAreValid n s
    → SlotsAreValid n (enter_new_view s new_view)
unfolding enter_new_view
kept_slots n s new_view v =
    Map.Each-retain _ _ (λ slot. is_committed slot.phase) s.slots
      (λ j slot c w. record {
        key = w.key;
        prepares = w.prepares;
        commits = w.commits;
        supported =
            Supports-committed n s.view new_view s.pending_payloads [] s.highest_committed_seq j
              slot slot.phase c w.supported;
      })
      v

-- A node that enters a view, whatever number its next proposal gets.
entered-IsValid :
    (n : PbftNode) (s : PbftState) (new_view : ViewNumber) (next : SequenceNumber)
    → IsValid n s
    → IsValid n
        (record (enter_new_view s new_view) { current_view = new_view; next_sequence = next })
unfolding enter_new_view
entered-IsValid n s new_view next v = record {
  slots = kept_slots n s new_view v.slots;
  votes = v.votes;
  views = refl;
  timer = omega arith;
}

votes_for-IsDistinct :
    (n : PbftNode) (s : PbftState) (new_view : ViewNumber)
    → IsValid n s
    → NodeSet.IsDistinct (votes_for s new_view)
votes_for-IsDistinct n s new_view v = elim (Option-cases (Map.get new_view s.view_change_votes)) [
  | inl e ↦ rw (e, NodeSet.IsDistinct) tt
  | inr (votes, e) ↦
      rw (e, NodeSet.IsDistinct) (Map.Each-get _ new_view s.view_change_votes v.votes e)
]

add_vote-IsValid :
    (n : PbftNode) (s : PbftState) (new_view : ViewNumber) (replica : NodeId)
    → IsValid n s
    → IsValid n (add_vote s new_view replica)
unfolding add_vote
add_vote-IsValid n s new_view replica v = record {
  slots = v.slots;
  votes =
      Map.Each-insert _ _ new_view _ s.view_change_votes
        (NodeSet.insert-IsDistinct replica _ (votes_for-IsDistinct n s new_view v))
        (λ j votes ne d. d) v.votes;
  views = v.views;
  timer = v.timer;
}

become_primary-IsValid :
    (n : PbftNode) (s : PbftState) (new_view : ViewNumber)
    → IsValid n s
    → IsValid n (become_primary n s new_view).0
unfolding become_primary
become_primary-IsValid n s new_view v = entered-IsValid n s new_view _ v

join_view_change-IsValid :
    (n : PbftNode) (s : PbftState) (new_view : ViewNumber)
    → IsValid n s
    → IsValid n (join_view_change n s new_view).0
unfolding join_view_change
join_view_change-IsValid n s new_view v =
    let w = add_vote-IsValid n s new_view n.id v in
    ground (arith, w, become_primary-IsValid n (add_vote s new_view n.id) new_view w)

pub on_view_change-IsValid :
    (n : PbftNode) (s : PbftState) (new_view : ViewNumber) (replica : NodeId)
    → IsValid n s
    → IsValid n (on_view_change n s new_view replica).0
unfolding on_view_change
on_view_change-IsValid n s new_view replica v =
    let t = add_vote s new_view replica in
    let w = add_vote-IsValid n s new_view replica v in
    ground
      (arith, w, join_view_change-IsValid n t new_view w, become_primary-IsValid n t new_view w)

pub on_new_view-IsValid :
    (n : PbftNode) (s : PbftState) (new_view : ViewNumber) (next : SequenceNumber)
    → IsValid n s
    → IsValid n (on_new_view s new_view next).0
unfolding on_new_view
on_new_view-IsValid n s new_view next v = ground (arith, entered-IsValid n s new_view next v)

suspect_primary-IsValid :
    (n : PbftNode) (s : PbftState) → IsValid n s → IsValid n (suspect_primary n s).0
unfolding suspect_primary
suspect_primary-IsValid n s v =
    add_vote-IsValid n (record s { view_change_in_progress = true }) (add_u64 s.view 1) n.id
      (record { slots = v.slots; votes = v.votes; views = v.views; timer = v.timer })

pub tick-IsValid : (n : PbftNode) (s : PbftState) → IsValid n s → IsValid n (tick n s).0
unfolding tick
tick-IsValid n s v = ground (arith, suspect_primary-IsValid n s v)
