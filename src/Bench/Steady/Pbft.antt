-- ===== src/Bench/Steady/Pbft.antt =====
-- src/consensus/pbft: a PBFT cluster in view 0, while nobody votes for another view.
use native.Mathlib.Nat.{zero-mod}
use bft_consensus_bench.Cluster.Fault.{Rolls, with_rng}
use bft_consensus_bench.Cluster.State.{Cluster, set_faults}
use bft_consensus_bench.Cluster.Setup.{Seeds, new_pbft_node, new_pbft, new_pbft_seeded}
use bft_consensus_bench.Bench.Text.{pbft_label, byz_label}
use bft_consensus_bench.Bench.Runs.{
  Clock, Behaviors, seeded_faults, run_pbft_bench, run_pbft_byzantine_bench,
}
use bft_consensus_bench.Bench.Steady.Benches.{Returns, with_all-isolated, bench-returns}
use bft_consensus_bench.Base.{
  zero, suc, ◌≤◌, ◌+◌, map, range, ℕ, ◌≡◌, refl, sym, ◌∙◌, ap, subst, true, false, List, [], some,
  arith, All, All-append, ◌==◌,
}
use bft_consensus_bench.Types.{NodeId, Payload, Digest, Sha256, digest}
use bft_consensus_bench.Network.{NetworkMessage, ProtocolMessage, PbftMessage}
use bft_consensus_bench.Consensus.{accepted}
use bft_consensus_bench.Pbft.State.{
  PbftNode, PbftState, new, init, primary_for_view, broadcast_pbft,
}
use bft_consensus_bench.Pbft.Voting.{
  open_slot, assign_sequence, propose, on_pre_prepare, vote_prepare, on_prepare, deliver,
  vote_commit, on_commit,
}
use bft_consensus_bench.Pbft.Node.{handle_pbft, handle_message, pbft_consensus}
use bft_consensus_bench.Cluster.Tamper.{corrupt_payload, alter_message}
use bft_consensus_bench.Bench.Steady.Messages.{AllUsual, Steady, broadcast-AllUsual}
use bft_consensus_bench.Bench.Steady.Routing.{HeadZero, CalmCluster}

abbrev pub Calm : PbftNode × PbftState → Type 0
Calm p = (p.1.view ≡ 0) × (p.1.view_change_in_progress ≡ false) × (primary_for_view p.0 0 ≡ 0)

-- Nothing but pre-prepares and votes on them.
abbrev pub Usual : ProtocolMessage → Type 0
Usual (ProtocolMessage.pbft (PbftMessage.pre_prepare view seq d p)) = Unit
Usual (ProtocolMessage.pbft (PbftMessage.prepare view seq d r)) = Unit
Usual (ProtocolMessage.pbft (PbftMessage.commit view seq d r)) = Unit
Usual _ = ⊥

broadcast_pbft-AllUsual :
    (n : PbftNode) (m : PbftMessage)
    → Usual (ProtocolMessage.pbft m)
    → AllUsual Usual (broadcast_pbft n m)
unfolding broadcast_pbft
broadcast_pbft-AllUsual n m u = broadcast-AllUsual Usual n.id n.peer_ids (ProtocolMessage.pbft m) u

-- A method that leaves the view as it is and sends usual messages.
abbrev Keeps : PbftState → PbftState × List NetworkMessage → Type 0
Keeps s r =
    (r.0.view ≡ s.view)
    × (r.0.view_change_in_progress ≡ s.view_change_in_progress)
    × AllUsual Usual r.1

on_pre_prepare-Keeps :
    (n : PbftNode) (s : PbftState) (view seq : ℕ) (d : Digest) (p : Payload)
    → Keeps s (on_pre_prepare n s view seq d p)
unfolding on_pre_prepare open_slot
on_pre_prepare-Keeps n s view seq d p =
    ground (arith, broadcast_pbft-AllUsual n (PbftMessage.prepare view seq d n.id) tt)

on_prepare-Keeps :
    (n : PbftNode) (s : PbftState) (view seq : ℕ) (d : Digest) (r : NodeId)
    → Keeps s (on_prepare n s view seq d r)
unfolding on_prepare vote_prepare
on_prepare-Keeps n s view seq d r =
    ground (arith, broadcast_pbft-AllUsual n (PbftMessage.commit view seq d n.id) tt)

on_commit-Keeps :
    (n : PbftNode) (s : PbftState) (view seq : ℕ) (d : Digest) (r : NodeId)
    → Keeps s (on_commit n s view seq d r)
unfolding on_commit vote_commit deliver
on_commit-Keeps n s view seq d r = ground arith

handle_message-Keeps :
    (n : PbftNode) (s : PbftState) (from to : NodeId) (m : ProtocolMessage)
    → Usual m
    → Keeps s (handle_message n s (record { from = from; to = to; payload = m }))
unfolding handle_message handle_pbft
handle_message-Keeps n s from to (ProtocolMessage.pbft (PbftMessage.pre_prepare view seq d p)) u =
    on_pre_prepare-Keeps n s view seq d p
handle_message-Keeps n s from to (ProtocolMessage.pbft (PbftMessage.prepare view seq d r)) u =
    on_prepare-Keeps n s view seq d r
handle_message-Keeps n s from to (ProtocolMessage.pbft (PbftMessage.commit view seq d r)) u =
    on_commit-Keeps n s view seq d r
handle_message-Keeps n s from to (ProtocolMessage.pbft (PbftMessage.view_change view r l)) u =
    elim u [ ]
handle_message-Keeps n s from to (ProtocolMessage.pbft (PbftMessage.new_view view next)) u =
    elim u [ ]
handle_message-Keeps n s from to (ProtocolMessage.raft m) u = elim u [ ]
handle_message-Keeps n s from to (ProtocolMessage.hotstuff m) u = elim u [ ]

propose-accepted :
    (sha256 : Sha256) (n : PbftNode) (s : PbftState) (p : Payload)
    → Calm (n, s)
    → n.id ≡ 0
    → ((propose sha256 n s p).1.0 ≡ accepted)
      × Keeps s ((propose sha256 n s p).0, (propose sha256 n s p).1.1)
unfolding propose assign_sequence open_slot
propose-accepted sha256 n s p (view, calm, leads) first =
    let proposal = PbftMessage.pre_prepare s.view s.next_sequence (digest sha256 p) p in
    let vote = PbftMessage.prepare s.view s.next_sequence (digest sha256 p) n.id in
    let out =
      All-append (λ (m : NetworkMessage). Usual m.payload) (broadcast_pbft n proposal)
        (broadcast_pbft n vote) (broadcast_pbft-AllUsual n proposal tt)
        (broadcast_pbft-AllUsual n vote tt) in
    let mine : (primary_for_view n s.view == n.id) ≡ true = rw (view, leads, first) refl in
    let done : propose sha256 n s p ≡ assign_sequence sha256 n s p =
      rw (mine, calm, propose) refl in
    subst (λ r. (r.1.0 ≡ accepted) × Keeps s (r.0, r.1.1)) (sym done) (refl, (refl, refl, out))

corrupt_payload-Usual : (m : ProtocolMessage) → Usual m → Usual (corrupt_payload m)
unfolding corrupt_payload
corrupt_payload-Usual (ProtocolMessage.pbft (PbftMessage.pre_prepare view seq d p)) u = tt
corrupt_payload-Usual (ProtocolMessage.pbft (PbftMessage.prepare view seq d r)) u = tt
corrupt_payload-Usual (ProtocolMessage.pbft (PbftMessage.commit view seq d r)) u = tt
corrupt_payload-Usual (ProtocolMessage.pbft (PbftMessage.view_change view r l)) u = u
corrupt_payload-Usual (ProtocolMessage.pbft (PbftMessage.new_view view next)) u = u
corrupt_payload-Usual (ProtocolMessage.raft m) u = u
corrupt_payload-Usual (ProtocolMessage.hotstuff m) u = elim u [ ]

alter_message-Usual :
    (sha256 : Sha256) (m : ProtocolMessage) → Usual m → Usual (alter_message sha256 m)
unfolding alter_message
alter_message-Usual sha256 (ProtocolMessage.pbft (PbftMessage.pre_prepare view seq d p)) u = tt
alter_message-Usual sha256 (ProtocolMessage.pbft (PbftMessage.prepare view seq d r)) u = tt
alter_message-Usual sha256 (ProtocolMessage.pbft (PbftMessage.commit view seq d r)) u = tt
alter_message-Usual sha256 (ProtocolMessage.pbft (PbftMessage.view_change view r l)) u = u
alter_message-Usual sha256 (ProtocolMessage.pbft (PbftMessage.new_view view next)) u = u
alter_message-Usual sha256 (ProtocolMessage.raft m) u = elim u [ ]
alter_message-Usual sha256 (ProtocolMessage.hotstuff m) u = elim u [ ]

pub pbft-Steady : (sha256 : Sha256) → Steady (pbft_consensus sha256) sha256 Calm Usual
unfolding pbft_consensus
pbft-Steady sha256 = record {
  proposes = λ q p calm first.
      let (ok, (view, change, usual)) = propose-accepted sha256 q.0 q.1 p calm first in
      let r = propose sha256 q.0 q.1 p in
      (
        (q.0, r.0),
        r.1.1,
        ap (λ a. some ((q.0, r.0), (a, r.1.1))) ok,
        refl,
        (view ∙ calm.0, change ∙ calm.1, calm.2),
        usual,
      );
  handles = λ q m calm u.
      let (view, change, usual) = handle_message-Keeps q.0 q.1 m.from m.to m.payload u in
      let r = handle_message q.0 q.1 m in
      ((q.0, r.0), r.1, refl, refl, (view ∙ calm.0, change ∙ calm.1, calm.2), usual);
  corrupts = corrupt_payload-Usual;
  alters = alter_message-Usual sha256;
}

nodes-Calm : (n start k : ℕ) → All Calm (map (new_pbft_node n) (range start k))
unfolding new_pbft_node new init primary_for_view
nodes-Calm n start zero = tt
nodes-Calm n start (suc k) = ((refl, refl, zero-mod n), nodes-Calm n (start + 1) k)

module _ {Rng Rate Time Float : Type 0} (rolls : Rolls Rng Rate) (sha256 : Sha256)
    (clock : Clock Time Float) where
  -- A new cluster of at least one node, with no node isolated.
  new_cluster-CalmCluster :
      (n : ℕ) (c : Cluster (PbftNode × PbftState) Rng Rate)
      → 1 ≤ n
      → c.nodes ≡ map (new_pbft_node n) (range 0 n)
      → c.pending ≡ []
      → c.faults.isolated_nodes ≡ []
      → CalmCluster (pbft_consensus sha256) sha256 Calm Usual (pbft-Steady sha256) c
  unfolding pbft_consensus new_pbft_node new
  new_cluster-CalmCluster zero c le e f g = absurd (omega arith)
  new_cluster-CalmCluster (suc k) c le e f g = record {
    head =
        subst (HeadZero (pbft_consensus sha256) sha256 Calm Usual (pbft-Steady sha256)) (sym e)
          refl;
    calm = subst (All Calm) (sym e) (nodes-Calm (suc k) 0 (suc k));
    connected = g;
    usual = subst (AllUsual Usual) (sym f) tt;
  }

  pub run_pbft_bench-Returns :
      (n : ℕ) (warm entropy : Rng) (elapsed : Time)
      → 1 ≤ n
      → Returns (run_pbft_bench rolls sha256 clock n warm entropy elapsed)
  unfolding run_pbft_bench new_pbft with_rng
  run_pbft_bench-Returns n warm entropy elapsed le =
      let (d, done, measured) =
        bench-returns (pbft_consensus sha256) sha256 Calm Usual (pbft-Steady sha256) rolls clock
          pbft_label 30 (new_pbft rolls n warm) (new_pbft rolls n entropy) elapsed
          (new_cluster-CalmCluster n _ le refl refl refl)
          (new_cluster-CalmCluster n _ le refl refl refl) in
      (_, done)

  pub run_pbft_byzantine_bench-Returns :
      (seeds : Seeds Rng) (n seed : ℕ) (behaviors : Behaviors) (elapsed : Time)
      → 1 ≤ n
      → Returns (run_pbft_byzantine_bench rolls sha256 clock seeds n seed behaviors elapsed)
  unfolding run_pbft_byzantine_bench new_pbft_seeded set_faults seeded_faults with_rng
  run_pbft_byzantine_bench-Returns seeds n seed behaviors elapsed le =
      let c =
        set_faults (new_pbft_seeded rolls seeds n seed)
          (seeded_faults rolls sha256 clock seeds seed behaviors) in
      let calm =
        new_cluster-CalmCluster n c le refl refl
          (with_all-isolated (with_rng rolls (seeds.seed_from_u64 seed)) behaviors) in
      let (d, done, measured) =
        bench-returns (pbft_consensus sha256) sha256 Calm Usual (pbft-Steady sha256) rolls clock
          byz_label 50 c c elapsed calm calm in
      (_, done)
