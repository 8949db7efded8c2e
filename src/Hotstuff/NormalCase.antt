-- ===== src/Hotstuff/NormalCase.antt =====
-- The three rounds of a HotStuff follower (src/consensus/hotstuff/state.rs).
use bft_consensus_bench.Base.{ℕ, ◌≤◌, ◌≡◌, refl, List, [], ◌∷◌, ◌++◌, some, arith}
use bft_consensus_bench.Base.Map
use bft_consensus_bench.Types.{ViewNumber, Payload, Digest}
use bft_consensus_bench.Network.{HotStuffMessage, HotStuffPhaseTag}
use bft_consensus_bench.Consensus.{CommittedEntry}
use bft_consensus_bench.Hotstuff.State.{
  Phase, SlotState, new_slot, HotStuffNode, HotStuffState, quorum, enter_new_view,
}
use bft_consensus_bench.Hotstuff.Proposals.{advance_view, open_slot, on_propose, send_vote}
use bft_consensus_bench.Hotstuff.Voting.{
  deliver, track_qc, advance_slot, decide, follow_qc, on_quorum_certificate,
}
use bft_consensus_bench.Hotstuff.Calls.{handle_all}

-- The replica is in the view, has the sequence in the phase with its payload waiting, and has
-- committed so much.
record Follows (s : HotStuffState) (view seq : ℕ) (phase : Phase) (p : Payload)
    (done : List CommittedEntry) : Type 0 where
  current : s.view ≡ view
  slot : SlotState
  held : Map.get seq s.slots ≡ some slot
  at : slot.phase ≡ phase
  waits : Map.get seq s.pending_payloads ≡ some p
  committed : s.committed ≡ done

propose_step :
    (n : HotStuffNode) (s : HotStuffState) (view seq : ℕ) (d : Digest) (p : Payload)
    → s.view ≤ view
    → Follows (on_propose n s view seq d p).0 view seq Phase.prepare p s.committed
      × ((on_propose n s view seq d p).1 ≡ send_vote n view seq d HotStuffPhaseTag.prepare)
unfolding on_propose advance_view open_slot enter_new_view new_slot
propose_step n s view seq d p le =
    let slot : SlotState = record (new_slot view seq) { phase = Phase.prepare } in
    (
      record {
        current = ground arith;
        slot = slot;
        held = ground (
          arith,
          Map.get-insert_self seq slot s.slots,
          Map.get-insert_self seq slot (enter_new_view s view).slots,
        );
        at = refl;
        waits =
            ground
              (arith, Map.get-insert_self seq p s.pending_payloads, Map.get-insert_self seq p []);
        committed = ground arith;
      },
      ground arith,
    )

prepare_step :
    (n : HotStuffNode) (s : HotStuffState) (view seq : ℕ) (d : Digest) (p : Payload)
    (done : List CommittedEntry) (count : ℕ)
    → quorum n ≤ count
    → Follows s view seq Phase.prepare p done
    → Follows
        (on_quorum_certificate n s view seq d HotStuffPhaseTag.prepare count).0
        view
        seq
        Phase.pre_commit
        p
        done
      × ((on_quorum_certificate n s view seq d HotStuffPhaseTag.prepare count).1
          ≡ send_vote n view seq d HotStuffPhaseTag.pre_commit)
unfolding on_quorum_certificate track_qc follow_qc advance_slot
prepare_step n s view seq d p done count full f =
    let slot = record f.slot { phase = Phase.pre_commit } in
    let e = f.held in
    (
      record {
        current = ground (arith, f.current);
        slot = slot;
        held = ground (arith, f.current, f.held, f.at, Map.get-insert_self seq slot s.slots);
        at = refl;
        waits = ground (arith, f.current, f.held, f.at, f.waits);
        committed = ground (arith, f.current, f.held, f.at, f.committed);
      },
      ground (arith, f.current),
    )

pre_commit_step :
    (n : HotStuffNode) (s : HotStuffState) (view seq : ℕ) (d : Digest) (p : Payload)
    (done : List CommittedEntry) (count : ℕ)
    → quorum n ≤ count
    → Follows s view seq Phase.pre_commit p done
    → Follows
        (on_quorum_certificate n s view seq d HotStuffPhaseTag.pre_commit count).0
        view
        seq
        Phase.commit
        p
        done
      × ((on_quorum_certificate n s view seq d HotStuffPhaseTag.pre_commit count).1
          ≡ send_vote n view seq d HotStuffPhaseTag.commit)
unfolding on_quorum_certificate track_qc follow_qc advance_slot
pre_commit_step n s view seq d p done count full f =
    let slot = record f.slot { phase = Phase.commit } in
    (
      record {
        current = ground (arith, f.current);
        slot = slot;
        held = ground (arith, f.current, f.held, f.at, Map.get-insert_self seq slot s.slots);
        at = refl;
        waits = ground (arith, f.current, f.held, f.at, f.waits);
        committed = ground (arith, f.current, f.held, f.at, f.committed);
      },
      ground (arith, f.current),
    )

commit_step :
    (n : HotStuffNode) (s : HotStuffState) (view seq : ℕ) (d : Digest) (p : Payload)
    (done : List CommittedEntry) (count : ℕ)
    → quorum n ≤ count
    → Follows s view seq Phase.commit p done
    → ((on_quorum_certificate n s view seq d HotStuffPhaseTag.commit count).0.committed
        ≡ done ++ record { sequence = seq; payload = p } ∷ [])
      × ((on_quorum_certificate n s view seq d HotStuffPhaseTag.commit count).1 ≡ [])
unfolding on_quorum_certificate track_qc follow_qc decide deliver
commit_step n s view seq d p done count full f =
    ground (arith, f.current, f.held, f.at, f.waits, f.committed)

-- A replica whose view is not past the proposal's, and that receives the proposal and then a
-- certificate that claims a quorum for each of the three phases, commits exactly the proposal's
-- payload under its sequence number. It sends three messages in all, its votes, each to the leader
-- of the view. The certificates' digests are not compared with the proposal's.
pub follower_rounds :
    (n : HotStuffNode) (s : HotStuffState) (view seq : ℕ) (d d1 d2 d3 : Digest) (p : Payload)
    (justify_view : ViewNumber) (justify_phase : HotStuffPhaseTag) (c1 c2 c3 : ℕ)
    → s.view ≤ view
    → quorum n ≤ c1
    → quorum n ≤ c2
    → quorum n ≤ c3
    → let result = handle_all n s (
        HotStuffMessage.propose view seq d p justify_view justify_phase
        ∷ HotStuffMessage.quorum_certificate view seq d1 HotStuffPhaseTag.prepare c1
        ∷ HotStuffMessage.quorum_certificate view seq d2 HotStuffPhaseTag.pre_commit c2
        ∷ HotStuffMessage.quorum_certificate view seq d3 HotStuffPhaseTag.commit c3
        ∷ []) in
      (result.0.committed ≡ s.committed ++ record { sequence = seq; payload = p } ∷ [])
      × (result.1
          ≡ send_vote n view seq d HotStuffPhaseTag.prepare
            ++ send_vote n view seq d1 HotStuffPhaseTag.pre_commit
            ++ send_vote n view seq d2 HotStuffPhaseTag.commit)
unfolding handle_all
follower_rounds n s view seq d d1 d2 d3 p jv jp c1 c2 c3 le q1 q2 q3 =
    let (f1, o1) = propose_step n s view seq d p le in
    let (f2, o2) = prepare_step n _ view seq d1 p _ c1 q1 f1 in
    let (f3, o3) = pre_commit_step n _ view seq d2 p _ c2 q2 f2 in
    let (done, o4) = commit_step n _ view seq d3 p _ c3 q3 f3 in
    (done, ground (arith, o1, o2, o3, o4))
