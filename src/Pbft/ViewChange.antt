-- ===== src/Pbft/ViewChange.antt =====
-- src/consensus/pbft/state.rs: view changes and the timer that starts them.
use bft_consensus_bench.Base.{
  ◌-◌, Bool, true, not, ◌&&◌, List, [], ◌++◌, none, some, leb, ◌==◌, if◌then◌else◌, add_u64, length,
}
use bft_consensus_bench.Base.NodeSet
use bft_consensus_bench.Base.Map
use bft_consensus_bench.Base.Map.{Map}
use bft_consensus_bench.Types.{NodeId, ViewNumber, SequenceNumber}
use bft_consensus_bench.Network.{NetworkMessage, PbftMessage}
use bft_consensus_bench.Pbft.State.{
  PbftNode, PbftState, primary_for_view, quorum, broadcast_pbft, enter_new_view,
}

-- `view_change_votes.entry(new_view).or_insert_with(HashSet::new)`
abbrev pub votes_for : PbftState → ViewNumber → List NodeId
votes_for s new_view = elim (Map.get new_view s.view_change_votes) [ none ↦ [] | some vs ↦ vs ]

-- `votes.insert(replica)`
unfoldable pub add_vote : PbftState → ViewNumber → NodeId → PbftState
add_vote s new_view replica = record s {
  view_change_votes =
      Map.insert new_view (NodeSet.insert replica (votes_for s new_view)) s.view_change_votes;
}

-- A quorum of votes makes the new primary.
unfoldable pub wins_view : PbftNode → PbftState → ViewNumber → Bool
wins_view n s new_view =
    leb (quorum n) (length (votes_for s new_view)) && primary_for_view n new_view == n.id

unfoldable pub become_primary : PbftNode → PbftState → ViewNumber → PbftState × List NetworkMessage
unfolding enter_new_view
become_primary n s new_view =
    let next = add_u64 s.highest_committed_seq 1 in
    (
      record (enter_new_view s new_view) { current_view = new_view; next_sequence = next },
      broadcast_pbft n (PbftMessage.new_view new_view next),
    )

-- The node joins a view change that it has not voted for.
unfoldable pub join_view_change :
    PbftNode → PbftState → ViewNumber → PbftState × List NetworkMessage
unfolding add_vote wins_view become_primary
join_view_change n s new_view =
    let voted = add_vote s new_view n.id in
    let vote = broadcast_pbft n (PbftMessage.view_change new_view n.id s.highest_committed_seq) in
    let (t, announce) = become_primary n voted new_view in
    if wins_view n voted new_view then (t, vote ++ announce) else (voted, vote)

unfoldable pub on_view_change :
    PbftNode → PbftState → ViewNumber → NodeId → PbftState × List NetworkMessage
unfolding join_view_change
on_view_change n s new_view replica =
    let voted = add_vote s new_view replica in
    if leb new_view s.view
    then (s, [])
    else if not (NodeSet.contains n.id (votes_for voted new_view))
    then join_view_change n voted new_view
    else if wins_view n voted new_view
    then become_primary n voted new_view
    else (voted, [])

unfoldable pub on_new_view :
    PbftState → ViewNumber → SequenceNumber → PbftState × List NetworkMessage
unfolding enter_new_view
on_new_view s new_view next_sequence = if leb new_view s.view then (s, []) else (
  record (enter_new_view s new_view) { current_view = new_view; next_sequence = next_sequence },
  [],
)

unfoldable pub suspect_primary : PbftNode → PbftState → PbftState × List NetworkMessage
unfolding add_vote
suspect_primary n s =
    let new_view = add_u64 s.view 1 in
    (
      add_vote (record s { view_change_in_progress = true }) new_view n.id,
      broadcast_pbft n (PbftMessage.view_change new_view n.id s.highest_committed_seq),
    )

unfoldable pub tick : PbftNode → PbftState → PbftState × List NetworkMessage
unfolding suspect_primary
tick n s =
    if primary_for_view n s.view == n.id
    then (s, [])
    else if s.view_change_in_progress
    then (s, [])
    else if s.view_change_timeout == 0
    then suspect_primary n s
    else (record s { view_change_timeout = s.view_change_timeout - 1 }, [])
