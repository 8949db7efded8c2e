-- ===== src/Hotstuff/ViewChange.antt =====
-- src/consensus/hotstuff/state.rs: the timer, and the votes for a new view.
use bft_consensus_bench.Base.{
  ◌-◌, ◌&&◌, List, [], ◌∷◌, none, some, leb, ◌==◌, if◌then◌else◌, add_u64, length,
}
use bft_consensus_bench.Base.NodeSet
use bft_consensus_bench.Base.Map
use bft_consensus_bench.Types.{NodeId, ViewNumber}
use bft_consensus_bench.Network.{NetworkMessage, ProtocolMessage, HotStuffMessage}
use bft_consensus_bench.Consensus.{msg_to}
use bft_consensus_bench.Hotstuff.State.{
  HotStuffNode, HotStuffState, view_change_timeout_ticks, leader_for_view, quorum, enter_new_view,
}

-- `new_view_messages.entry(new_view).or_default()`
abbrev pub votes_for : HotStuffState → ViewNumber → List NodeId
votes_for s new_view = elim (Map.get new_view s.new_view_messages) [ none ↦ [] | some vs ↦ vs ]

unfoldable pub add_vote : HotStuffState → ViewNumber → NodeId → HotStuffState
add_vote s new_view replica = record s {
  new_view_messages =
      Map.insert new_view (NodeSet.insert replica (votes_for s new_view)) s.new_view_messages;
}

unfoldable pub on_new_view :
    HotStuffNode → HotStuffState → ViewNumber → NodeId → HotStuffState × List NetworkMessage
unfolding add_vote enter_new_view
on_new_view n s new_view replica =
    let voted = add_vote s new_view replica in
    if leb new_view s.view
    then (s, [])
    else if leb (quorum n) (length (votes_for voted new_view)) && leader_for_view n new_view == n.id
    then (record (enter_new_view voted new_view) { current_view = new_view }, [])
    else (voted, [])

unfoldable pub suspect_leader : HotStuffNode → HotStuffState → HotStuffState × List NetworkMessage
unfolding add_vote
suspect_leader n s =
    let new_view = add_u64 s.view 1 in
    (
      record (add_vote s new_view n.id) { view_change_timeout = view_change_timeout_ticks },
      msg_to n.id (leader_for_view n new_view) (
            ProtocolMessage.hotstuff
              (HotStuffMessage.new_view new_view s.highest_qc_view s.highest_qc_phase n.id))
          ∷ [],
    )

unfoldable pub tick : HotStuffNode → HotStuffState → HotStuffState × List NetworkMessage
unfolding suspect_leader
tick n s =
    if leader_for_view n s.view == n.id
    then (s, [])
    else if s.view_change_timeout == 0
    then suspect_leader n s
    else (record s { view_change_timeout = s.view_change_timeout - 1 }, [])
