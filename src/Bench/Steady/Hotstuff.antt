-- ===== src/Bench/Steady/Hotstuff.antt =====
-- src/consensus/hotstuff: a HotStuff cluster in view 0, while nobody votes for another view.
use native.Mathlib.Nat.{zero-mod}
use bft_consensus_bench.Cluster.Fault.{Rolls, with_rng}
use bft_consensus_bench.Cluster.State.{Cluster, set_faults}
use bft_consensus_bench.Cluster.Setup.{Seeds, new_hotstuff_node, new_hotstuff, new_hotstuff_seeded}
use bft_consensus_bench.Bench.Text.{hotstuff_label, byz_label}
use bft_consensus_bench.Bench.Runs.{
  Clock, Behaviors, seeded_faults, run_hotstuff_bench, run_hotstuff_byzantine_bench,
}
use bft_consensus_bench.Bench.Steady.Benches.{Returns, with_all-isolated, bench-returns}
use bft_consensus_bench.Base.{
  zero, suc, ◌≤◌, ◌+◌, map, range, ℕ, ◌≡◌, refl, sym, ◌∙◌, ap, subst, true, List, [], some, arith,
  inl, inr, All, ◌==◌,
}
use bft_consensus_bench.Types.{NodeId, Payload, Digest, Sha256, digest}
use bft_consensus_bench.Network.{NetworkMessage, ProtocolMessage, HotStuffMessage, HotStuffPhaseTag}
use bft_consensus_bench.Consensus.{accepted, msg_to}
use bft_consensus_bench.Hotstuff.State.{
  HotStuffNode, HotStuffState, new, init, leader_for_view, broadcast_hotstuff,
}
use bft_consensus_bench.Hotstuff.Proposals.{
  open_slot, assign_sequence, propose, advance_view, on_propose, send_vote,
}
use bft_consensus_bench.Hotstuff.Voting.{on_vote, follow_qc, on_quorum_certificate}
use bft_consensus_bench.Hotstuff.Views.{on_vote-view, on_quorum_certificate-view}
use bft_consensus_bench.Hotstuff.Certificates.{on_vote-Certifies}
use bft_consensus_bench.Hotstuff.Node.{handle_hotstuff, handle_message, hotstuff_consensus}
use bft_consensus_bench.Cluster.Tamper.{corrupt_payload, alter_message}
use bft_consensus_bench.Bench.Steady.Messages.{AllUsual, Steady, broadcast-AllUsual}
use bft_consensus_bench.Bench.Steady.Routing.{HeadZero, CalmCluster}

abbrev pub Calm : HotStuffNode × HotStuffState → Type 0
Calm p = (p.1.view ≡ 0) × (leader_for_view p.0 0 ≡ 0)

-- Nothing but proposals of view 0, votes and certificates.
abbrev pub Usual : ProtocolMessage → Type 0
Usual (ProtocolMessage.hotstuff (HotStuffMessage.propose view seq d p jv jp)) = view ≡ 0
Usual (ProtocolMessage.hotstuff (HotStuffMessage.vote view seq d tag voter)) = Unit
Usual (ProtocolMessage.hotstuff (HotStuffMessage.quorum_certificate view seq d tag count)) = Unit
Usual _ = ⊥

broadcast_hotstuff-AllUsual :
    (n : HotStuffNode) (m : HotStuffMessage)
    → Usual (ProtocolMessage.hotstuff m)
    → AllUsual Usual (broadcast_hotstuff n m)
unfolding broadcast_hotstuff
broadcast_hotstuff-AllUsual n m u =
    broadcast-AllUsual Usual n.id n.peer_ids (ProtocolMessage.hotstuff m) u

-- A method that leaves the view as it is and sends usual messages.
abbrev Keeps : HotStuffState → HotStuffState × List NetworkMessage → Type 0
Keeps s r = (r.0.view ≡ s.view) × AllUsual Usual r.1

on_propose-Keeps :
    (n : HotStuffNode) (s : HotStuffState) (view seq : ℕ) (d : Digest) (p : Payload)
    → s.view ≡ 0
    → view ≡ 0
    → Keeps s (on_propose n s view seq d p)
unfolding on_propose advance_view open_slot send_vote msg_to
on_propose-Keeps n s view seq d p e f = ground arith

on_vote-AllUsual :
    (n : HotStuffNode) (s : HotStuffState) (view seq : ℕ) (d : Digest) (tag : HotStuffPhaseTag)
    (voter : NodeId)
    → AllUsual Usual (on_vote n s view seq d tag voter).1
unfolding on_vote
on_vote-AllUsual n s view seq d tag voter = elim (on_vote-Certifies n s view seq d tag voter) [
  | inl e ↦ subst (AllUsual Usual) (sym e) tt
  | inr (c, sent, hv, hp) ↦ subst (AllUsual Usual) (sym sent) (broadcast_hotstuff-AllUsual n _ tt)
]

on_quorum_certificate-AllUsual :
    (n : HotStuffNode) (s : HotStuffState) (view seq : ℕ) (d : Digest) (tag : HotStuffPhaseTag)
    (count : ℕ)
    → AllUsual Usual (on_quorum_certificate n s view seq d tag count).1
unfolding on_quorum_certificate follow_qc send_vote msg_to
on_quorum_certificate-AllUsual n s view seq d HotStuffPhaseTag.prepare count = ground arith
on_quorum_certificate-AllUsual n s view seq d HotStuffPhaseTag.pre_commit count = ground arith
on_quorum_certificate-AllUsual n s view seq d HotStuffPhaseTag.commit count = ground arith

handle_message-Keeps :
    (n : HotStuffNode) (s : HotStuffState) (from to : NodeId) (m : ProtocolMessage)
    → s.view ≡ 0
    → Usual m
    → Keeps s (handle_message n s (record { from = from; to = to; payload = m }))
unfolding handle_message handle_hotstuff
handle_message-Keeps n s from to
      (ProtocolMessage.hotstuff (HotStuffMessage.propose view seq d p jv jp)) e u =
    on_propose-Keeps n s view seq d p e u
handle_message-Keeps n s from to
      (ProtocolMessage.hotstuff (HotStuffMessage.vote view seq d tag voter)) e u =
    (on_vote-view n s view seq d tag voter, on_vote-AllUsual n s view seq d tag voter)
handle_message-Keeps n s from to
      (ProtocolMessage.hotstuff (HotStuffMessage.quorum_certificate view seq d tag count)) e u =
    (
      on_quorum_certificate-view n s view seq d tag count,
      on_quorum_certificate-AllUsual n s view seq d tag count,
    )
handle_message-Keeps n s from to (ProtocolMessage.hotstuff (HotStuffMessage.new_view view qv qp r))
      e u =
    elim u [ ]
handle_message-Keeps n s from to (ProtocolMessage.raft m) e u = elim u [ ]
handle_message-Keeps n s from to (ProtocolMessage.pbft m) e u = elim u [ ]

propose-accepted :
    (sha256 : Sha256) (n : HotStuffNode) (s : HotStuffState) (p : Payload)
    → Calm (n, s)
    → n.id ≡ 0
    → ((propose sha256 n s p).1.0 ≡ accepted)
      × Keeps s ((propose sha256 n s p).0, (propose sha256 n s p).1.1)
unfolding propose assign_sequence
propose-accepted sha256 n s p (view, leads) first =
    let proposal =
      HotStuffMessage.propose s.view s.next_sequence (digest sha256 p) p s.highest_qc_view
        s.highest_qc_phase in
    let out = broadcast_hotstuff-AllUsual n proposal view in
    let mine : (leader_for_view n s.view == n.id) ≡ true = rw (view, leads, first) refl in
    ground (arith, mine, out)

corrupt_payload-Usual : (m : ProtocolMessage) → Usual m → Usual (corrupt_payload m)
unfolding corrupt_payload
corrupt_payload-Usual (ProtocolMessage.hotstuff (HotStuffMessage.propose view seq d p jv jp)) u = u
corrupt_payload-Usual (ProtocolMessage.hotstuff (HotStuffMessage.vote view seq d tag voter)) u = tt
corrupt_payload-Usual
      (ProtocolMessage.hotstuff (HotStuffMessage.quorum_certificate view seq d tag count)) u =
    tt
corrupt_payload-Usual (ProtocolMessage.hotstuff (HotStuffMessage.new_view view qv qp r)) u = u
corrupt_payload-Usual (ProtocolMessage.raft m) u = elim u [ ]
corrupt_payload-Usual (ProtocolMessage.pbft m) u = elim u [ ]

alter_message-Usual :
    (sha256 : Sha256) (m : ProtocolMessage) → Usual m → Usual (alter_message sha256 m)
unfolding alter_message
alter_message-Usual sha256 (ProtocolMessage.hotstuff (HotStuffMessage.propose view seq d p jv jp))
      u =
    u
alter_message-Usual sha256 (ProtocolMessage.hotstuff (HotStuffMessage.vote view seq d tag voter))
      u =
    tt
alter_message-Usual sha256
      (ProtocolMessage.hotstuff (HotStuffMessage.quorum_certificate view seq d tag count)) u =
    tt
alter_message-Usual sha256 (ProtocolMessage.hotstuff (HotStuffMessage.new_view view qv qp r)) u = u
alter_message-Usual sha256 (ProtocolMessage.raft m) u = elim u [ ]
alter_message-Usual sha256 (ProtocolMessage.pbft m) u = elim u [ ]

pub hotstuff-Steady : (sha256 : Sha256) → Steady (hotstuff_consensus sha256) sha256 Calm Usual
unfolding hotstuff_consensus
hotstuff-Steady sha256 = record {
  proposes = λ q p calm first.
      let (ok, (view, usual)) = propose-accepted sha256 q.0 q.1 p calm first in
      let r = propose sha256 q.0 q.1 p in
      (
        (q.0, r.0),
        r.1.1,
        ap (λ a. some ((q.0, r.0), (a, r.1.1))) ok,
        refl,
        (view ∙ calm.0, calm.1),
        usual,
      );
  handles = λ q m calm u.
      let (view, usual) = handle_message-Keeps q.0 q.1 m.from m.to m.payload calm.0 u in
      let r = handle_message q.0 q.1 m in
      ((q.0, r.0), r.1, refl, refl, (view ∙ calm.0, calm.1), usual);
  corrupts = corrupt_payload-Usual;
  alters = alter_message-Usual sha256;
}

nodes-Calm : (n start k : ℕ) → All Calm (map (new_hotstuff_node n) (range start k))
unfolding new_hotstuff_node new init leader_for_view
nodes-Calm n start zero = tt
nodes-Calm n start (suc k) = ((refl, zero-mod n), nodes-Calm n (start + 1) k)

module _ {Rng Rate Time Float : Type 0} (rolls : Rolls Rng Rate) (sha256 : Sha256)
    (clock : Clock Time Float) where
  -- A new cluster of at least one node, with no node isolated.
  new_cluster-CalmCluster :
      (n : ℕ) (c : Cluster (HotStuffNode × HotStuffState) Rng Rate)
      → 1 ≤ n
      → c.nodes ≡ map (new_hotstuff_node n) (range 0 n)
      → c.pending ≡ []
      → c.faults.isolated_nodes ≡ []
      → CalmCluster (hotstuff_consensus sha256) sha256 Calm Usual (hotstuff-Steady sha256) c
  unfolding hotstuff_consensus new_hotstuff_node new
  new_cluster-CalmCluster zero c le e f g = absurd (omega arith)
  new_cluster-CalmCluster (suc k) c le e f g = record {
    head =
        subst (HeadZero (hotstuff_consensus sha256) sha256 Calm Usual (hotstuff-Steady sha256))
          (sym e) refl;
    calm = subst (All Calm) (sym e) (nodes-Calm (suc k) 0 (suc k));
    connected = g;
    usual = subst (AllUsual Usual) (sym f) tt;
  }

  pub run_hotstuff_bench-Returns :
      (n : ℕ) (warm entropy : Rng) (elapsed : Time)
      → 1 ≤ n
      → Returns (run_hotstuff_bench rolls sha256 clock n warm entropy elapsed)
  unfolding run_hotstuff_bench new_hotstuff with_rng
  run_hotstuff_bench-Returns n warm entropy elapsed le =
      let (d, done, measured) =
        bench-returns (hotstuff_consensus sha256) sha256 Calm Usual (hotstuff-Steady sha256) rolls
          clock hotstuff_label 50 (new_hotstuff rolls n warm) (new_hotstuff rolls n entropy) elapsed
          (new_cluster-CalmCluster n _ le refl refl refl)
          (new_cluster-CalmCluster n _ le refl refl refl) in
      (_, done)

  pub run_hotstuff_byzantine_bench-Returns :
      (seeds : Seeds Rng) (n seed : ℕ) (behaviors : Behaviors) (elapsed : Time)
      → 1 ≤ n
      → Returns (run_hotstuff_byzantine_bench rolls sha256 clock seeds n seed behaviors elapsed)
  unfolding run_hotstuff_byzantine_bench new_hotstuff_seeded set_faults seeded_faults with_rng
  run_hotstuff_byzantine_bench-Returns seeds n seed behaviors elapsed le =
      let c =
        set_faults (new_hotstuff_seeded rolls seeds n seed)
          (seeded_faults rolls sha256 clock seeds seed behaviors) in
      let calm =
        new_cluster-CalmCluster n c le refl refl
          (with_all-isolated (with_rng rolls (seeds.seed_from_u64 seed)) behaviors) in
      let (d, done, measured) =
        bench-returns (hotstuff_consensus sha256) sha256 Calm Usual (hotstuff-Steady sha256) rolls
          clock byz_label 50 c c elapsed calm calm in
      (_, done)
