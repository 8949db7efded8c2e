-- ===== src/Pbft/Views.antt =====
-- How a PBFT replica moves between views (src/consensus/pbft/state.rs).
use bft_consensus_bench.Base.{
  ◌≤◌, ◌<◌, ◌≡◌, refl, ◌⊎◌, inl, inr, true, false, [], arith, leb, length, Bool-cases,
}
use bft_consensus_bench.Base.NodeSet
use bft_consensus_bench.Base.Map
use bft_consensus_bench.Types.{NodeId, ViewNumber}
use bft_consensus_bench.Network.{PbftMessage}
use bft_consensus_bench.Pbft.State.{
  is_committed, PbftNode, PbftState, quorum, primary_for_view, enter_new_view,
}
use bft_consensus_bench.Pbft.Voting.{on_pre_prepare, on_prepare, deliver, vote_commit, on_commit}
use bft_consensus_bench.Pbft.ViewChange.{
  votes_for, add_vote, wins_view, become_primary, join_view_change, on_view_change, on_new_view,
}
use bft_consensus_bench.Pbft.Node.{handle_pbft}

-- The replica has left its view `s.view` for `w`, and starts afresh there.
pub record Enters (s t : PbftState) (w : ViewNumber) : Type 0 where
  pub later : s.view < w
  pub view : t.view ≡ w
  pub current : t.current_view ≡ w
  pub dropped : t.pending_payloads ≡ []
  pub kept : t.slots ≡ Map.retain (λ slot. is_committed slot.phase) s.slots
  pub idle : t.view_change_in_progress ≡ false

-- Why: another's announcement, or a quorum of votes for a view that this node leads.
abbrev pub Reason : PbftNode → PbftState → PbftMessage → ViewNumber → Type 0
Reason n t (PbftMessage.new_view view next) w = view ≡ w
Reason n t (PbftMessage.view_change view replica last) w =
    (view ≡ w) × ((primary_for_view n w ≡ n.id) × (quorum n ≤ length (votes_for t w)))
Reason n t _ w = ⊥

-- The node announces the view that it has won.
become_primary-Enters :
    (n : PbftNode) (s t : PbftState) (view : ViewNumber)
    → t.slots ≡ s.slots
    → s.view < view
    → wins_view n t view ≡ true
    → Enters s (become_primary n t view).0 view
      × ((primary_for_view n view ≡ n.id)
          × (quorum n ≤ length (votes_for (become_primary n t view).0 view)))
unfolding wins_view become_primary enter_new_view
become_primary-Enters n s t view e lt w = ground arith

join_view_change-Enters :
    (n : PbftNode) (s t : PbftState) (view : ViewNumber)
    → t.slots ≡ s.slots
    → t.view ≡ s.view
    → s.view < view
    → ((join_view_change n t view).0.view ≡ s.view)
      ⊎ (Enters s (join_view_change n t view).0 view
          × ((primary_for_view n view ≡ n.id)
              × (quorum n ≤ length (votes_for (join_view_change n t view).0 view))))
unfolding join_view_change
join_view_change-Enters n s t view e ev lt =
    let voted = add_vote t view n.id in
    elim (Bool-cases (wins_view n voted view)) [
      | inl won ↦
          rw (won, join_view_change)
            (inr (become_primary-Enters n s voted view (unfold add_vote in e) lt won))
      | inr lost ↦ rw (lost, join_view_change) (inl (unfold add_vote in ev))
    ]

on_view_change-Enters :
    (n : PbftNode) (s : PbftState) (view : ViewNumber) (replica : NodeId)
    → ((on_view_change n s view replica).0.view ≡ s.view)
      ⊎ (Enters s (on_view_change n s view replica).0 view
          × ((primary_for_view n view ≡ n.id)
              × (quorum n ≤ length (votes_for (on_view_change n s view replica).0 view))))
unfolding on_view_change
on_view_change-Enters n s view replica =
    let voted = add_vote s view replica in
    elim (Bool-cases (leb view s.view)) [
      | inl old ↦ rw (old, on_view_change) (inl refl)
      | inr new ↦ elim (Bool-cases (NodeSet.contains n.id (votes_for voted view))) [
        | inl in_set ↦ elim (Bool-cases (wins_view n voted view)) [
          | inl won ↦
              rw (new, in_set, won, on_view_change)
                (inr (
                  become_primary-Enters n s voted view (unfold add_vote in refl) (ground arith)
                    won))
          | inr lost ↦ rw (new, in_set, lost, on_view_change) (inl (unfold add_vote in refl))
        ]
        | inr absent ↦
            rw (new, absent, on_view_change)
              (join_view_change-Enters n s voted view (unfold add_vote in refl)
                (unfold add_vote in refl) (ground arith))
      ]
    ]

-- A message never moves the replica back. It moves the replica only as an announcement of a later
-- view, or as the vote that completes a quorum of recorded votes for a later view whose primary
-- this replica is. Then every slot that is not committed and every waiting payload are dropped, and
-- the committed slots stay.
pub handle_pbft-Enters :
    (n : PbftNode) (s : PbftState) (m : PbftMessage)
    → ((handle_pbft n s m).0.view ≡ s.view)
      ⊎ ((w : ViewNumber) × (Enters s (handle_pbft n s m).0 w × Reason n (handle_pbft n s m).0 m w))
unfolding handle_pbft on_pre_prepare on_prepare on_commit vote_commit deliver on_new_view
    enter_new_view
handle_pbft-Enters n s (PbftMessage.pre_prepare view seq d p) = inl (ground arith)
handle_pbft-Enters n s (PbftMessage.prepare view seq d replica) = inl (ground arith)
handle_pbft-Enters n s (PbftMessage.commit view seq d replica) = inl (ground arith)
handle_pbft-Enters n s (PbftMessage.view_change view replica last) =
    elim (on_view_change-Enters n s view replica) [
      | inl e ↦ inl e
      | inr (e, r) ↦ inr (view, (e, (refl, r)))
    ]
handle_pbft-Enters n s (PbftMessage.new_view view next) = elim (Bool-cases (leb view s.view)) [
  | inl old ↦ inl (ground arith)
  | inr new ↦ inr (view, (ground arith, refl))
]
