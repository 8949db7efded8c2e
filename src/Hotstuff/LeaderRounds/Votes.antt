-- ===== src/Hotstuff/LeaderRounds/Votes.antt =====
-- A list of votes of one phase at the HotStuff leader (src/consensus/hotstuff/state.rs).
use bft_consensus_bench.Base.{
  ℕ, ◌≤◌, ◌<◌, ◌≡◌, refl, sym, ◌∙◌, ap, subst, inl, inr, true, false, List, [], ◌∷◌, ◌++◌, some,
  arith, leb, ◌==◌, if◌then◌else◌, length, Bool-cases, leb→le,
}
use mathlib.Core.List.{append-nil}
use bft_consensus_bench.Base.NodeSet
use bft_consensus_bench.Base.Map
use bft_consensus_bench.Types.{NodeId, SequenceNumber, Payload, Digest}
use bft_consensus_bench.Network.{NetworkMessage, HotStuffMessage, HotStuffPhaseTag}
use bft_consensus_bench.Consensus.{CommittedEntry}
use bft_consensus_bench.Hotstuff.State.{
  SlotState, HotStuffNode, HotStuffState, quorum, leader_for_view, broadcast_hotstuff,
}
use bft_consensus_bench.Hotstuff.Voting.{counted, formed, count_vote, deliver, apply_vote, on_vote}
use bft_consensus_bench.Hotstuff.Node.{handle_hotstuff}
use bft_consensus_bench.Hotstuff.Calls.{handle_all}
use bft_consensus_bench.Hotstuff.Certificates.{voters_of, in_phase}
use bft_consensus_bench.Hotstuff.LeaderRounds.Slots.{
  Vote, voters, votes, counted_slot, next_slot, is_commit_tag, count_vote-in_phase,
  count_vote-ignored, counted_slot-in_phase, counted_slot-voters, next_slot-counted,
  next_slot-leaves_phase,
}

-- The leader holds the slot, with its payload waiting.
pub record Leads (n : HotStuffNode) (s : HotStuffState) (view seq : ℕ) (slot : SlotState)
    (p : Payload) (done : List CommittedEntry) : Type 0 where
  pub leader : (leader_for_view n view == n.id) ≡ true
  pub current : (view == s.view) ≡ true
  pub held : Map.get seq s.slots ≡ some slot
  pub waits : Map.get seq s.pending_payloads ≡ some p
  pub committed : s.committed ≡ done

abbrev pub entry : SequenceNumber → Payload → CommittedEntry
entry seq p = record { sequence = seq; payload = p }

-- What a certificate leaves: the payload waits, or, in the last phase, it is out.
abbrev pub Result :
    HotStuffPhaseTag → HotStuffState → SequenceNumber → Payload → List CommittedEntry → Type 0
Result HotStuffPhaseTag.commit t seq p done = t.committed ≡ done ++ entry seq p ∷ []
Result _ t seq p done = (Map.get seq t.pending_payloads ≡ some p) × (t.committed ≡ done)

-- The leader after the vote that completes a quorum of a phase, and what it sends.
pub record Certified (n : HotStuffNode) (t : HotStuffState) (view seq : ℕ) (slot : SlotState)
    (tag : HotStuffPhaseTag) (p : Payload) (done : List CommittedEntry) (out : List NetworkMessage)
    : Type 0 where
  pub set : List NodeId
  pub full : quorum n ≤ length set
  pub current : (view == t.view) ≡ true
  pub held : Map.get seq t.slots ≡ some (next_slot n slot tag set)
  pub digest : Digest
  pub sent :
      out
      ≡ broadcast_hotstuff n (HotStuffMessage.quorum_certificate view seq digest tag (length set))
  pub result : Result tag t seq p done

vote-applies :
    (n : HotStuffNode) (s : HotStuffState) (view seq : ℕ) (slot : SlotState) (p : Payload)
    (done : List CommittedEntry) (d : Digest) (tag : HotStuffPhaseTag) (voter : NodeId)
    → Leads n s view seq slot p done
    → on_vote n s view seq d tag voter ≡ apply_vote n s view seq d (count_vote n slot tag voter)
unfolding on_vote
vote-applies n s view seq slot p done d tag voter l = ground (arith, l.leader, l.current, l.held)

vote-counts :
    (n : HotStuffNode) (s : HotStuffState) (view seq : ℕ) (slot : SlotState) (p : Payload)
    (done : List CommittedEntry) (d : Digest) (tag : HotStuffPhaseTag) (voter : NodeId)
    → Leads n s view seq slot p done
    → in_phase slot tag ≡ true
    → leb (quorum n) (length (NodeSet.insert voter (voters_of slot tag))) ≡ false
    → let slot' = counted_slot slot tag (NodeSet.insert voter (voters_of slot tag)) in
      let t = record s { slots = Map.insert seq slot' s.slots } in
      (on_vote n s view seq d tag voter ≡ (t, [])) × Leads n t view seq slot' p done
unfolding apply_vote
vote-counts n s view seq slot p done d tag voter l h short =
    let slot' = counted_slot slot tag (NodeSet.insert voter (voters_of slot tag)) in
    (
      vote-applies n s view seq slot p done d tag voter l
          ∙ rw (count_vote-in_phase n slot tag voter h, short) refl,
      record {
        leader = l.leader;
        current = l.current;
        held = Map.get-insert_self seq slot' s.slots;
        waits = l.waits;
        committed = l.committed;
      },
    )

formed-Certified :
    (n : HotStuffNode) (s : HotStuffState) (view seq : ℕ) (slot : SlotState) (p : Payload)
    (done : List CommittedEntry) (d : Digest) (tag : HotStuffPhaseTag) (set : List NodeId)
    → Leads n s view seq slot p done
    → quorum n ≤ length set
    → let r =
        apply_vote n s view seq d
          (formed (next_slot n slot tag set) tag (length set) (is_commit_tag tag)) in
      Certified n r.0 view seq slot tag p done r.1
unfolding apply_vote deliver
formed-Certified n s view seq slot p done d HotStuffPhaseTag.prepare set l full = record {
  set = set;
  full = full;
  current = l.current;
  held = Map.get-insert_self seq _ s.slots;
  digest = d;
  sent = refl;
  result = (l.waits, l.committed);
}
formed-Certified n s view seq slot p done d HotStuffPhaseTag.pre_commit set l full = record {
  set = set;
  full = full;
  current = l.current;
  held = Map.get-insert_self seq _ s.slots;
  digest = d;
  sent = refl;
  result = (l.waits, l.committed);
}
formed-Certified n s view seq slot p done d HotStuffPhaseTag.commit set l full = record {
  set = set;
  full = full;
  current = ground (arith, l.current, l.waits);
  held = ground (
    arith,
    l.waits,
    Map.get-insert_self seq (next_slot n slot HotStuffPhaseTag.commit set) s.slots,
  );
  digest = d;
  sent = refl;
  result = ground (arith, l.waits, l.committed);
}

-- Votes of a phase that the slot is not in change nothing.
votes-ignored :
    (n : HotStuffNode) (t : HotStuffState) (view seq : ℕ) (slot : SlotState)
    (tag : HotStuffPhaseTag) (vs : List Vote)
    → Map.get seq t.slots ≡ some slot
    → in_phase slot tag ≡ false
    → handle_all n t (votes view seq tag vs) ≡ (t, [])
unfolding handle_all handle_hotstuff on_vote apply_vote
votes-ignored n t view seq slot tag [] e h = refl
votes-ignored n t view seq slot tag ((d, r) ∷ vs) e h =
    let one : on_vote n t view seq d tag r ≡ (t, []) =
      ground (arith, count_vote-ignored n slot tag r h) in
    rw (one, votes-ignored n t view seq slot tag vs e h) refl

Certified-votes :
    (n : HotStuffNode) (t : HotStuffState) (view seq : ℕ) (slot : SlotState)
    (tag : HotStuffPhaseTag) (p : Payload) (done : List CommittedEntry) (out : List NetworkMessage)
    (vs : List Vote)
    → Certified n t view seq slot tag p done out
    → let r = handle_all n t (votes view seq tag vs) in
      Certified n r.0 view seq slot tag p done (out ++ r.1)
Certified-votes n t view seq slot tag p done out vs c =
    let same =
      votes-ignored n t view seq (next_slot n slot tag c.set) tag vs c.held
        (next_slot-leaves_phase n slot tag c.set) in
    subst (λ r. Certified n r.0 view seq slot tag p done (out ++ r.1)) (sym same)
      (subst (Certified n t view seq slot tag p done) (sym (append-nil out)) c)

counted-Certified :
    (n : HotStuffNode) (t : HotStuffState) (view seq : ℕ) (slot : SlotState)
    (tag : HotStuffPhaseTag) (p : Payload) (done : List CommittedEntry) (out : List NetworkMessage)
    (us : List NodeId)
    → Certified n t view seq (counted_slot slot tag us) tag p done out
    → Certified n t view seq slot tag p done out
counted-Certified n t view seq slot tag p done out us c = record {
  set = c.set;
  full = c.full;
  current = c.current;
  held = c.held ∙ ap some (next_slot-counted n slot tag us c.set);
  digest = c.digest;
  sent = c.sent;
  result = c.result;
}

-- Votes of distinct replicas, a quorum with those the slot has, make the leader certify the phase.
pub votes-Certified :
    (n : HotStuffNode) (s : HotStuffState) (view seq : ℕ) (slot : SlotState) (p : Payload)
    (done : List CommittedEntry) (tag : HotStuffPhaseTag) (vs : List Vote)
    → Leads n s view seq slot p done
    → in_phase slot tag ≡ true
    → length (voters_of slot tag) < quorum n
    → quorum n ≤ length (NodeSet.insert_all (voters vs) (voters_of slot tag))
    → let r = handle_all n s (votes view seq tag vs) in Certified n r.0 view seq slot tag p done r.1
unfolding handle_all handle_hotstuff NodeSet.insert_all
votes-Certified n s view seq slot p done tag [] l h few full = absurd (omega arith)
votes-Certified n s view seq slot p done tag ((d, r) ∷ vs) l h few full =
    let set = NodeSet.insert r (voters_of slot tag) in
    elim (Bool-cases (leb (quorum n) (length set))) [
      | inl q ↦
          let one =
            vote-applies n s view seq slot p done d tag r l
            ∙ ap (apply_vote n s view seq d) (
                count_vote-in_phase n slot tag r h
                ∙ ap
                    (λ b.
                      if b
                      then formed (next_slot n slot tag set) tag (length set) (is_commit_tag tag)
                      else counted (counted_slot slot tag set))
                    q) in
          subst
            (λ u.
              let w = handle_all n u.0 (votes view seq tag vs) in
              Certified n w.0 view seq slot tag p done (u.1 ++ w.1))
            (sym one)
            (Certified-votes n _ view seq slot tag p done _ vs
              (formed-Certified n s view seq slot p done d tag set l (leb→le _ _ q)))
      | inr q ↦
          let (one, l') = vote-counts n s view seq slot p done d tag r l h q in
          let same = counted_slot-voters slot tag set in
          subst
            (λ u.
              let w = handle_all n u.0 (votes view seq tag vs) in
              Certified n w.0 view seq slot tag p done (u.1 ++ w.1))
            (sym one)
            (counted-Certified n _ view seq slot tag p done _ set (
              votes-Certified n
                (record s { slots = Map.insert seq (counted_slot slot tag set) s.slots }) view seq
                (counted_slot slot tag set) p done tag vs l'
                (counted_slot-in_phase slot tag set ∙ h) (ground (arith, ap length same))
                (subst (λ us. quorum n ≤ length (NodeSet.insert_all (voters vs) us)) (sym same)
                  full)))
    ]
