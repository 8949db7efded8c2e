-- ===== src/Hotstuff/LeaderRounds.antt =====
-- A whole round of HotStuff, from the proposal to the commits of the leader and of a follower
-- (src/consensus/hotstuff/state.rs).
mod Slots
mod Votes
mod Tests
use bft_consensus_bench.Base.{
  ℕ, ◌+◌, ◌≤◌, ◌<◌, ◌≡◌, refl, ◌∙◌, sym, ap, subst, true, List, [], ◌∷◌, ◌++◌, some, arith, ◌==◌,
  length, ==_iff, ==_self, add_u64,
}
use mathlib.Core.List.{append-nil, append_assoc}
use bft_consensus_bench.Base.NodeSet
use bft_consensus_bench.Base.Map
use bft_consensus_bench.Types.{ViewNumber, SequenceNumber, Payload, Digest, Sha256, digest}
use bft_consensus_bench.Network.{NetworkMessage, HotStuffMessage, HotStuffPhaseTag}
use bft_consensus_bench.Consensus.{ProposeResult, accepted, CommittedEntry}
use bft_consensus_bench.Hotstuff.State.{
  Phase, SlotState, new_slot, HotStuffNode, HotStuffState, quorum, leader_for_view,
  broadcast_hotstuff,
}
use bft_consensus_bench.Hotstuff.Proposals.{propose, assign_sequence}
use bft_consensus_bench.Hotstuff.Node.{handle_hotstuff}
use bft_consensus_bench.Hotstuff.Calls.{handle_all}
use bft_consensus_bench.Hotstuff.NormalCase.{follower_rounds}
use bft_consensus_bench.Hotstuff.LeaderRounds.Slots.{Vote, voters, votes, counted_slot, next_slot}
use bft_consensus_bench.Hotstuff.LeaderRounds.Votes.{
  Leads, Certified, Result, entry, votes-Certified,
}

handle_all-append :
    (n : HotStuffNode) (s : HotStuffState) (xs ys : List HotStuffMessage)
    → handle_all n s (xs ++ ys)
      ≡ (let a = handle_all n s xs in let b = handle_all n a.0 ys in (b.0, a.1 ++ b.1))
unfolding handle_all
handle_all-append n s [] ys = refl
handle_all-append n s (x ∷ xs) ys =
    let (t, out) = handle_hotstuff n s x in
    let more = handle_all-append n t xs ys in
    ap (λ r. (r.0, out ++ r.1)) more
    ∙ ap (λ l. ((handle_all n (handle_all n t xs).0 ys).0, l)) (sym (append_assoc out _ _))

-- A quorum of distinct replicas, the leader included, votes.
abbrev pub IsQuorum : HotStuffNode → List Vote → Type 0
IsQuorum n vs = quorum n ≤ length (NodeSet.insert_all (voters vs) (n.id ∷ []))

-- A certificate of the phase, as a message.
abbrev pub qc : ViewNumber → SequenceNumber → HotStuffPhaseTag → Digest × ℕ → HotStuffMessage
qc view seq tag (d, count) = HotStuffMessage.quorum_certificate view seq d tag count

abbrev pub proposal : Sha256 → HotStuffState → Payload → HotStuffMessage
proposal sha256 s p =
    HotStuffMessage.propose s.view s.next_sequence (digest sha256 p) p s.highest_qc_view
      s.highest_qc_phase

abbrev opened_slot : HotStuffNode → HotStuffState → SlotState
opened_slot n s = record {
  view = s.view;
  sequence = s.next_sequence;
  phase = Phase.prepare;
  prepare_voters = n.id ∷ [];
  precommit_voters = [];
  commit_voters = [];
}

proposal-Leads :
    (sha256 : Sha256) (n : HotStuffNode) (s : HotStuffState) (p : Payload)
    → leader_for_view n s.view ≡ n.id
    → Leads n (propose sha256 n s p).0 s.view s.next_sequence (opened_slot n s) p s.committed
      × ((propose sha256 n s p).1 ≡ (accepted, broadcast_hotstuff n (proposal sha256 s p)))
unfolding propose assign_sequence new_slot NodeSet.insert NodeSet.contains
proposal-Leads sha256 n s p leads =
    let mine : (leader_for_view n s.view == n.id) ≡ true = (==_iff _ _).1 leads in
    rw (mine, propose)
      (
        record {
          leader = mine;
          current = ==_self s.view;
          held = Map.get-insert_self s.next_sequence (opened_slot n s) s.slots;
          waits = Map.get-insert_self s.next_sequence p s.pending_payloads;
          committed = refl;
        },
        refl,
      )

-- The leader after the votes of one phase, ready for those of the next.
prepared-Leads :
    (n : HotStuffNode) (t : HotStuffState) (view seq : ℕ) (slot : SlotState) (p : Payload)
    (done : List CommittedEntry) (out : List NetworkMessage)
    → leader_for_view n view ≡ n.id
    → (c : Certified n t view seq slot HotStuffPhaseTag.prepare p done out)
    → Leads n t view seq (next_slot n slot HotStuffPhaseTag.prepare c.set) p done
prepared-Leads n t view seq slot p done out leads c = record {
  leader = (==_iff _ _).1 leads;
  current = c.current;
  held = c.held;
  waits = c.result.0;
  committed = c.result.1;
}

pre_committed-Leads :
    (n : HotStuffNode) (t : HotStuffState) (view seq : ℕ) (slot : SlotState) (p : Payload)
    (done : List CommittedEntry) (out : List NetworkMessage)
    → leader_for_view n view ≡ n.id
    → (c : Certified n t view seq slot HotStuffPhaseTag.pre_commit p done out)
    → Leads n t view seq (next_slot n slot HotStuffPhaseTag.pre_commit c.set) p done
pre_committed-Leads n t view seq slot p done out leads c = record {
  leader = (==_iff _ _).1 leads;
  current = c.current;
  held = c.held;
  waits = c.result.0;
  committed = c.result.1;
}

-- A round of a leader with the votes of its followers.
pub record LeaderCommits (sha256 : Sha256) (n : HotStuffNode) (s : HotStuffState) (p : Payload)
    (u : HotStuffState) (out : List NetworkMessage) : Type 0 where
  pub committed : u.committed ≡ s.committed ++ entry s.next_sequence p ∷ []
  pub c1 : Digest × ℕ
  pub c2 : Digest × ℕ
  pub c3 : Digest × ℕ
  pub full : (quorum n ≤ c1.1) × ((quorum n ≤ c2.1) × (quorum n ≤ c3.1))
  pub sent :
      out
      ≡ broadcast_hotstuff n (proposal sha256 s p)
        ++ (broadcast_hotstuff n (qc s.view s.next_sequence HotStuffPhaseTag.prepare c1)
            ++ broadcast_hotstuff n (qc s.view s.next_sequence HotStuffPhaseTag.pre_commit c2)
            ++ broadcast_hotstuff n (qc s.view s.next_sequence HotStuffPhaseTag.commit c3))

leader_rounds :
    (sha256 : Sha256) (n : HotStuffNode) (s : HotStuffState) (p : Payload)
    (prepare_votes pre_commit_votes commit_votes : List Vote)
    → leader_for_view n s.view ≡ n.id
    → 1 < quorum n
    → IsQuorum n prepare_votes
    → IsQuorum n pre_commit_votes
    → IsQuorum n commit_votes
    → let proposed = propose sha256 n s p in
      let collected = handle_all n proposed.0 (
        votes s.view s.next_sequence HotStuffPhaseTag.prepare prepare_votes
        ++ votes s.view s.next_sequence HotStuffPhaseTag.pre_commit pre_commit_votes
        ++ votes s.view s.next_sequence HotStuffPhaseTag.commit commit_votes) in
      (proposed.1.0 ≡ accepted)
      × LeaderCommits sha256 n s p collected.0 (proposed.1.1 ++ collected.1)
unfolding NodeSet.insert NodeSet.contains
leader_rounds sha256 n s p vs1 vs2 vs3 leads big q1 q2 q3 =
    let v = s.view in
    let k = s.next_sequence in
    let ms1 = votes v k HotStuffPhaseTag.prepare vs1 in
    let ms2 = votes v k HotStuffPhaseTag.pre_commit vs2 in
    let ms3 = votes v k HotStuffPhaseTag.commit vs3 in
    let (l0, sent0) = proposal-Leads sha256 n s p leads in
    let s0 = (propose sha256 n s p).0 in
    let r1 = handle_all n s0 ms1 in
    let c1 =
      votes-Certified n s0 v k (opened_slot n s) p s.committed HotStuffPhaseTag.prepare vs1 l0 refl
        big q1 in
    let slot1 = next_slot n (opened_slot n s) HotStuffPhaseTag.prepare c1.set in
    let l1 = prepared-Leads n r1.0 v k (opened_slot n s) p s.committed r1.1 leads c1 in
    let r2 = handle_all n r1.0 ms2 in
    let c2 =
      votes-Certified n r1.0 v k slot1 p s.committed HotStuffPhaseTag.pre_commit vs2 l1 refl big
        q2 in
    let slot2 = next_slot n slot1 HotStuffPhaseTag.pre_commit c2.set in
    let l2 = pre_committed-Leads n r2.0 v k slot1 p s.committed r2.1 leads c2 in
    let r3 = handle_all n r2.0 ms3 in
    let c3 =
      votes-Certified n r2.0 v k slot2 p s.committed HotStuffPhaseTag.commit vs3 l2 refl big q3 in
    let path : handle_all n s0 (ms1 ++ ms2 ++ ms3) ≡ (r3.0, r1.1 ++ r2.1 ++ r3.1) =
      handle_all-append n s0 (ms1 ++ ms2) ms3
      ∙ ap (λ a. let b = handle_all n a.0 ms3 in (b.0, a.1 ++ b.1))
          (handle_all-append n s0 ms1 ms2) in
    (
      ap (λ r. r.0) sent0,
      record {
        committed = ap (λ r. r.0.committed) path ∙ c3.result;
        c1 = (c1.digest, length c1.set);
        c2 = (c2.digest, length c2.set);
        c3 = (c3.digest, length c3.set);
        full = (c1.full, (c2.full, c3.full));
        sent = ground (arith, path, sent0, c1.sent, c2.sent, c3.sent);
      },
    )

-- A whole round: a leader proposes in the view that it leads, and for each phase receives votes of
-- enough distinct replicas, which with its own make a quorum of more than one. The leader accepts
-- the proposal, commits exactly its payload, under the number it gave, and broadcasts the proposal
-- and one certificate per phase, each of which claims at least a quorum, and nothing else. A
-- follower in a cluster of the same size that receives these four in order, and whose view is not
-- past the leader's, commits the same payload under the same number. The digests of the votes play
-- no part.
pub full_round :
    (sha256 : Sha256) (n : HotStuffNode) (s : HotStuffState) (p : Payload)
    (prepare_votes pre_commit_votes commit_votes : List Vote) (m : HotStuffNode) (f : HotStuffState)
    → leader_for_view n s.view ≡ n.id
    → 1 < quorum n
    → IsQuorum n prepare_votes
    → IsQuorum n pre_commit_votes
    → IsQuorum n commit_votes
    → m.cluster_size ≡ n.cluster_size
    → f.view ≤ s.view
    → let proposed = propose sha256 n s p in
      let collected = handle_all n proposed.0 (
        votes s.view s.next_sequence HotStuffPhaseTag.prepare prepare_votes
        ++ votes s.view s.next_sequence HotStuffPhaseTag.pre_commit pre_commit_votes
        ++ votes s.view s.next_sequence HotStuffPhaseTag.commit commit_votes) in
      (proposed.1.0 ≡ accepted)
      × (c : LeaderCommits sha256 n s p collected.0 (proposed.1.1 ++ collected.1)) × ((handle_all m
            f
            (proposal sha256 s p
              ∷ qc s.view s.next_sequence HotStuffPhaseTag.prepare c.c1
              ∷ qc s.view s.next_sequence HotStuffPhaseTag.pre_commit c.c2
              ∷ qc s.view s.next_sequence HotStuffPhaseTag.commit c.c3
              ∷ [])).0.committed
          ≡ f.committed ++ entry s.next_sequence p ∷ [])
unfolding quorum
full_round sha256 n s p vs1 vs2 vs3 m f leads big q1 q2 q3 size behind =
    let (ok, c) = leader_rounds sha256 n s p vs1 vs2 vs3 leads big q1 q2 q3 in
    let follows =
      follower_rounds m f s.view s.next_sequence (digest sha256 p) c.c1.0 c.c2.0 c.c3.0 p
        s.highest_qc_view s.highest_qc_phase c.c1.1 c.c2.1 c.c3.1 behind
        (omega (arith, size, c.full.0)) (omega (arith, size, c.full.1.0))
        (omega (arith, size, c.full.1.1)) in
    (ok, c, follows.0)
