-- ===== src/Hotstuff/Invariant/ViewChange.antt =====
-- New views and the timer keep a HotStuff replica well formed.
use bft_consensus_bench.Base.{◌≡◌, refl, inl, inr, true, Option, none, arith, add_u64, Option-cases}
use bft_consensus_bench.Base.NodeSet
use bft_consensus_bench.Base.Map
use bft_consensus_bench.Base.Map.{Map}
use bft_consensus_bench.Types.{NodeId, ViewNumber, Payload}
use bft_consensus_bench.Hotstuff.State.{
  Phase, is_decided, SlotState, HotStuffNode, HotStuffState, enter_new_view,
}
use bft_consensus_bench.Hotstuff.ViewChange.{votes_for, add_vote, on_new_view, suspect_leader, tick}
use bft_consensus_bench.Hotstuff.Invariant.Defs.{Supports, IsValid}

Supports-decided :
    (view view' : ViewNumber) (found : Option Payload) (slot : SlotState) (phase : Phase)
    → is_decided phase ≡ true
    → Supports view found slot phase
    → Supports view' none slot phase
Supports-decided view view' found slot Phase.idle c p = cc
Supports-decided view view' found slot Phase.prepare c p = cc
Supports-decided view view' found slot Phase.pre_commit c p = cc
Supports-decided view view' found slot Phase.commit c p = cc
Supports-decided view view' found slot Phase.decided c p = refl

pub entered-IsValid :
    (s : HotStuffState) (new_view : ViewNumber)
    → IsValid s
    → IsValid (record (enter_new_view s new_view) { current_view = new_view })
unfolding enter_new_view Map.get
entered-IsValid s new_view v = record {
  slots =
      Map.Each-retain _ _ (λ slot. is_decided slot.phase) s.slots
        (λ j slot c w. record {
          key = w.key;
          prepares = w.prepares;
          precommits = w.precommits;
          commits = w.commits;
          supported = Supports-decided s.view new_view _ slot slot.phase c w.supported;
        })
        v.slots;
  votes = v.votes;
  views = refl;
  timer = omega arith;
}

votes_for-IsDistinct :
    (s : HotStuffState) (new_view : ViewNumber)
    → IsValid s
    → NodeSet.IsDistinct (votes_for s new_view)
votes_for-IsDistinct s new_view v = elim (Option-cases (Map.get new_view s.new_view_messages)) [
  | inl e ↦ rw (e, NodeSet.IsDistinct) tt
  | inr (votes, e) ↦
      rw (e, NodeSet.IsDistinct) (Map.Each-get _ new_view s.new_view_messages v.votes e)
]

add_vote-IsValid :
    (s : HotStuffState) (new_view : ViewNumber) (replica : NodeId)
    → IsValid s
    → IsValid (add_vote s new_view replica)
unfolding add_vote
add_vote-IsValid s new_view replica v = record {
  slots = v.slots;
  votes =
      Map.Each-insert _ _ new_view _ s.new_view_messages
        (NodeSet.insert-IsDistinct replica _ (votes_for-IsDistinct s new_view v))
        (λ j votes ne d. d) v.votes;
  views = v.views;
  timer = v.timer;
}

pub on_new_view-IsValid :
    (n : HotStuffNode) (s : HotStuffState) (new_view : ViewNumber) (replica : NodeId)
    → IsValid s
    → IsValid (on_new_view n s new_view replica).0
unfolding on_new_view
on_new_view-IsValid n s new_view replica v =
    let w = add_vote-IsValid s new_view replica v in
    ground (arith, w, entered-IsValid (add_vote s new_view replica) new_view w)

suspect_leader-IsValid :
    (n : HotStuffNode) (s : HotStuffState) → IsValid s → IsValid (suspect_leader n s).0
unfolding suspect_leader
suspect_leader-IsValid n s v =
    let w = add_vote-IsValid s (add_u64 s.view 1) n.id v in
    record { slots = w.slots; votes = w.votes; views = w.views; timer = omega arith }

pub tick-IsValid : (n : HotStuffNode) (s : HotStuffState) → IsValid s → IsValid (tick n s).0
unfolding tick
tick-IsValid n s v = ground (arith, suspect_leader-IsValid n s v)
