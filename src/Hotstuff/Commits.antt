-- ===== src/Hotstuff/Commits.antt =====
-- What a HotStuff replica commits, and what it certifies (src/consensus/hotstuff/state.rs).
use bft_consensus_bench.Base.{
  ℕ, ◌≤◌, ◌≡◌, refl, ◌∙◌, sym, ap, ◌⊎◌, inl, inr, true, false, not, ◌&&◌, [], ◌∷◌, ◌++◌, some,
  arith, ltb, leb, ◌==◌, length, Option-cases, Bool-cases,
}
use bft_consensus_bench.Base.NodeSet
use bft_consensus_bench.Base.Map
use bft_consensus_bench.Types.{NodeId, ViewNumber, SequenceNumber, Payload, Digest}
use bft_consensus_bench.Network.{HotStuffMessage, HotStuffPhaseTag}
use bft_consensus_bench.Hotstuff.State.{
  is_commit, is_decided, SlotState, HotStuffNode, HotStuffState, quorum, leader_for_view,
  enter_new_view,
}
use bft_consensus_bench.Hotstuff.Proposals.{advance_view, open_slot, on_propose}
use bft_consensus_bench.Hotstuff.Voting.{
  formed, count_vote, deliver, apply_vote, on_vote, track_qc, advance_slot, decide, follow_qc,
  on_quorum_certificate,
}
use bft_consensus_bench.Hotstuff.ViewChange.{add_vote, on_new_view}
use bft_consensus_bench.Hotstuff.Node.{handle_hotstuff}

-- Why an entry comes out: the last vote that the leader was short of, or a certificate that claims
-- a quorum of commit votes.
abbrev pub Reason :
    HotStuffNode → HotStuffState → SequenceNumber → SlotState → HotStuffMessage → Type 0
Reason n s seq slot (HotStuffMessage.vote view sequence d HotStuffPhaseTag.commit voter) =
    ((view ≡ s.view) × (sequence ≡ seq))
    × ((leader_for_view n view ≡ n.id)
        × ((is_commit slot.phase ≡ true)
            × (quorum n ≤ length (NodeSet.insert voter slot.commit_voters))))
Reason n s seq slot
      (HotStuffMessage.quorum_certificate view sequence d HotStuffPhaseTag.commit count) =
    ((view ≡ s.view) × (sequence ≡ seq)) × ((quorum n ≤ count) × (is_decided slot.phase ≡ false))
Reason n s seq slot _ = ⊥

pub record Commits (n : HotStuffNode) (s t : HotStuffState) (m : HotStuffMessage) : Type 0 where
  pub seq : SequenceNumber
  pub slot : SlotState
  pub held : Map.get seq s.slots ≡ some slot
  pub reason : Reason n s seq slot m
  pub payload : Payload
  pub waited : Map.get seq s.pending_payloads ≡ some payload
  pub out : t.committed ≡ s.committed ++ record { sequence = seq; payload = payload } ∷ []
  pub gone : t.pending_payloads ≡ Map.remove seq s.pending_payloads

deliver-commits :
    (s : HotStuffState) (seq : SequenceNumber)
    → ((deliver s seq).committed ≡ s.committed)
      ⊎ ((p : Payload) × (Map.get seq s.pending_payloads ≡ some p)
          × ((deliver s seq).committed ≡ s.committed ++ record { sequence = seq; payload = p } ∷ [])
          × ((deliver s seq).pending_payloads ≡ Map.remove seq s.pending_payloads))
unfolding deliver
deliver-commits s seq = ground arith

count_vote-formed :
    (n : HotStuffNode) (slot slot' : SlotState) (tag tag' : HotStuffPhaseTag) (voter : NodeId)
    (count : ℕ)
    → count_vote n slot tag voter ≡ formed slot' tag' count true
    → (tag ≡ HotStuffPhaseTag.commit)
      × ((is_commit slot.phase ≡ true)
          × (quorum n ≤ length (NodeSet.insert voter slot.commit_voters)))
unfolding count_vote
count_vote-formed n slot slot' HotStuffPhaseTag.prepare tag' voter count h = ground arith
count_vote-formed n slot slot' HotStuffPhaseTag.pre_commit tag' voter count h = ground arith
count_vote-formed n slot slot' HotStuffPhaseTag.commit tag' voter count h = ground arith

on_commit_vote-Commits :
    (n : HotStuffNode) (s : HotStuffState) (view seq : ℕ) (d : Digest) (voter : NodeId)
    → ((on_vote n s view seq d HotStuffPhaseTag.commit voter).0.committed ≡ s.committed)
      ⊎ Commits n s
          (on_vote n s view seq d HotStuffPhaseTag.commit voter).0
          (HotStuffMessage.vote view seq d HotStuffPhaseTag.commit voter)
unfolding on_vote count_vote apply_vote deliver
on_commit_vote-Commits n s view seq d voter = elim (Option-cases (Map.get seq s.slots)) [
  | inl e ↦ inl (ground arith)
  | inr (slot, e) ↦ elim (Option-cases (Map.get seq s.pending_payloads)) [
    | inl none_waits ↦ inl (ground arith)
    | inr (p, waits) ↦
        elim (Bool-cases (
          (leader_for_view n view == n.id && view == s.view)
          && (is_commit slot.phase
              && leb (quorum n) (length (NodeSet.insert voter slot.commit_voters))))) [
                | inl full ↦ inr (record {
                  seq = seq;
                  slot = slot;
                  held = e;
                  reason = ground arith;
                  payload = p;
                  waited = waits;
                  out = ground arith;
                  gone = ground arith;
                })
                | inr short ↦ inl (ground arith)
              ]
  ]
]

on_other_vote-committed :
    (n : HotStuffNode) (s : HotStuffState) (view seq : ℕ) (d : Digest) (voter : NodeId)
    → ((on_vote n s view seq d HotStuffPhaseTag.prepare voter).0.committed ≡ s.committed)
      × ((on_vote n s view seq d HotStuffPhaseTag.pre_commit voter).0.committed ≡ s.committed)
unfolding on_vote count_vote apply_vote
on_other_vote-committed n s view seq d voter = (ground arith, ground arith)

decide-Commits :
    (n : HotStuffNode) (s : HotStuffState) (view seq : ℕ) (d : Digest) (count : ℕ)
    → view ≡ s.view
    → quorum n ≤ count
    → ((decide s seq).committed ≡ s.committed)
      ⊎ Commits n s
          (decide s seq)
          (HotStuffMessage.quorum_certificate view seq d HotStuffPhaseTag.commit count)
unfolding decide deliver
decide-Commits n s view seq d count same full = elim (Option-cases (Map.get seq s.slots)) [
  | inl e ↦ inl (ground arith)
  | inr (slot, e) ↦ elim (Option-cases (Map.get seq s.pending_payloads)) [
    | inl none_waits ↦ inl (ground arith)
    | inr (p, waits) ↦ elim (Bool-cases (is_decided slot.phase)) [
      | inl done ↦ inl (ground arith)
      | inr going ↦ inr (record {
        seq = seq;
        slot = slot;
        held = e;
        reason = ((same, refl), (full, going));
        payload = p;
        waited = waits;
        out = ground arith;
        gone = ground arith;
      })
    ]
  ]
]

-- What the certificate changes beside the slots matters to no commit.
Commits-frame :
    (n : HotStuffNode) (s s' t : HotStuffState) (view seq : ℕ) (d : Digest) (count : ℕ)
    → s'.slots ≡ s.slots
    → s'.pending_payloads ≡ s.pending_payloads
    → s'.committed ≡ s.committed
    → s'.view ≡ s.view
    → Commits n s' t (HotStuffMessage.quorum_certificate view seq d HotStuffPhaseTag.commit count)
    → Commits n s t (HotStuffMessage.quorum_certificate view seq d HotStuffPhaseTag.commit count)
Commits-frame n s s' t view seq d count e1 e2 e3 e4 c = record {
  seq = c.seq;
  slot = c.slot;
  held = ap (Map.get c.seq) (sym e1) ∙ c.held;
  reason = ((c.reason.0.0 ∙ e4, c.reason.0.1), c.reason.1);
  payload = c.payload;
  waited = ap (Map.get c.seq) (sym e2) ∙ c.waited;
  out = c.out ∙ ap (λ es. es ++ record { sequence = c.seq; payload = c.payload } ∷ []) e3;
  gone = c.gone ∙ ap (Map.remove c.seq) e2;
}

track_qc-same :
    (s : HotStuffState) (view : ViewNumber) (tag : HotStuffPhaseTag)
    → (((track_qc s view tag).slots ≡ s.slots)
        × ((track_qc s view tag).pending_payloads ≡ s.pending_payloads))
      × (((track_qc s view tag).committed ≡ s.committed) × ((track_qc s view tag).view ≡ s.view))
unfolding track_qc
track_qc-same s view tag = ground arith

on_commit_qc-Commits :
    (n : HotStuffNode) (s : HotStuffState) (view seq : ℕ) (d : Digest) (count : ℕ)
    → ((on_quorum_certificate n s view seq d HotStuffPhaseTag.commit count).0.committed
        ≡ s.committed)
      ⊎ Commits n s
          (on_quorum_certificate n s view seq d HotStuffPhaseTag.commit count).0
          (HotStuffMessage.quorum_certificate view seq d HotStuffPhaseTag.commit count)
unfolding on_quorum_certificate follow_qc
on_commit_qc-Commits n s view seq d count =
    let t = track_qc s view HotStuffPhaseTag.commit in
    let ((e1, e2), (e3, e4)) = track_qc-same s view HotStuffPhaseTag.commit in
    elim (Bool-cases (not (ltb count (quorum n)) && view == t.view)) [
      | inl takes ↦ elim (decide-Commits n t view seq d count (ground arith) (ground arith)) [
        | inl kept ↦ inl (ground arith)
        | inr c ↦
            inr (ground (arith, Commits-frame n s t (decide t seq) view seq d count e1 e2 e3 e4 c))
      ]
      | inr refuses ↦ inl (ground arith)
    ]

on_other_qc-committed :
    (n : HotStuffNode) (s : HotStuffState) (view seq : ℕ) (d : Digest) (count : ℕ)
    → ((on_quorum_certificate n s view seq d HotStuffPhaseTag.prepare count).0.committed
        ≡ s.committed)
      × ((on_quorum_certificate n s view seq d HotStuffPhaseTag.pre_commit count).0.committed
          ≡ s.committed)
unfolding on_quorum_certificate follow_qc track_qc advance_slot
on_other_qc-committed n s view seq d count = (ground arith, ground arith)

-- A message lets at most one entry out of a HotStuff replica. It does so only as the commit vote
-- by which the leader of the current view has a quorum of recorded commit voters, this one counted
-- once, for a slot in the commit phase, or as a certificate for the current view that claims a
-- quorum of commit votes for a slot not yet decided. The entry has the payload that waited for the
-- sequence, which is gone afterwards. Any other message leaves the committed entries as they were.
pub handle_hotstuff-Commits :
    (n : HotStuffNode) (s : HotStuffState) (m : HotStuffMessage)
    → ((handle_hotstuff n s m).0.committed ≡ s.committed) ⊎ Commits n s (handle_hotstuff n s m).0 m
unfolding handle_hotstuff on_propose advance_view open_slot enter_new_view on_new_view add_vote
handle_hotstuff-Commits n s (HotStuffMessage.propose view seq d p jv jp) = inl (ground arith)
handle_hotstuff-Commits n s (HotStuffMessage.vote view seq d HotStuffPhaseTag.prepare voter) =
    inl (on_other_vote-committed n s view seq d voter).0
handle_hotstuff-Commits n s (HotStuffMessage.vote view seq d HotStuffPhaseTag.pre_commit voter) =
    inl (on_other_vote-committed n s view seq d voter).1
handle_hotstuff-Commits n s (HotStuffMessage.vote view seq d HotStuffPhaseTag.commit voter) =
    on_commit_vote-Commits n s view seq d voter
handle_hotstuff-Commits n s
      (HotStuffMessage.quorum_certificate view seq d HotStuffPhaseTag.prepare count) =
    inl (on_other_qc-committed n s view seq d count).0
handle_hotstuff-Commits n s
      (HotStuffMessage.quorum_certificate view seq d HotStuffPhaseTag.pre_commit count) =
    inl (on_other_qc-committed n s view seq d count).1
handle_hotstuff-Commits n s
      (HotStuffMessage.quorum_certificate view seq d HotStuffPhaseTag.commit count) =
    on_commit_qc-Commits n s view seq d count
handle_hotstuff-Commits n s (HotStuffMessage.new_view new_view qv qp replica) = inl (ground arith)
