-- ===== src/Pbft/Invariant/Voting.antt =====
-- Pre-prepare, prepare and commit keep a PBFT replica well formed.
use bft_consensus_bench.Base.{
  ◌≤◌, ◌≡◌, refl, inl, inr, true, false, arith, ltb, if◌then◌else◌, length, add_u64, Option-cases,
}
use bft_consensus_bench.Base.NodeSet
use bft_consensus_bench.Base.Map
use bft_consensus_bench.Base.Map.{Map}
use bft_consensus_bench.Types.{NodeId, ViewNumber, SequenceNumber, Payload, Digest, Sha256}
use bft_consensus_bench.Pbft.State.{
  Phase, is_committed, SlotState, new_slot, PbftNode, PbftState, quorum, view_change_timeout_ticks,
}
use bft_consensus_bench.Pbft.Voting.{
  open_slot, assign_sequence, propose, on_pre_prepare, vote_prepare, on_prepare, deliver,
  vote_commit, on_commit,
}
use bft_consensus_bench.Pbft.Invariant.Defs.{SlotIsValid, IsValid}
use bft_consensus_bench.Pbft.Invariant.Slots.{
  store_slot, rewrite_slot, held_slot, commit_slot-IsValid,
}

pub open_slot-IsValid :
    (n : PbftNode) (s : PbftState) (seq : SequenceNumber) (p : Payload)
    → IsValid n s
    → IsValid n (open_slot s s.view seq p)
unfolding open_slot new_slot
open_slot-IsValid n s seq p v = record {
  slots =
      store_slot n s seq _ (Map.insert seq p s.pending_payloads) s.highest_committed_seq
        (record {
          key = refl;
          prepares = tt;
          commits = tt;
          supported = (refl, (p, Map.get-insert_self seq p s.pending_payloads));
        })
        (λ j ne. Map.get-insert_ne seq j p s.pending_payloads ne) (omega arith) v.slots;
  votes = v.votes;
  views = v.views;
  timer = v.timer;
}

pub propose-IsValid :
    (sha256 : Sha256) (n : PbftNode) (s : PbftState) (p : Payload)
    → IsValid n s
    → IsValid n (propose sha256 n s p).0
unfolding propose assign_sequence
propose-IsValid sha256 n s p v =
    let t = record s { next_sequence = add_u64 s.next_sequence 1 } in
    let w : IsValid n t = record {
      slots = v.slots;
      votes = v.votes;
      views = v.views;
      timer = v.timer;
    } in
    ground (arith, open_slot-IsValid n t s.next_sequence p w)

pub on_pre_prepare-IsValid :
    (n : PbftNode) (s : PbftState) (view : ViewNumber) (seq : SequenceNumber) (d : Digest)
    (p : Payload)
    → IsValid n s
    → IsValid n (on_pre_prepare n s view seq d p).0
unfolding on_pre_prepare
on_pre_prepare-IsValid n s view seq d p v =
    let t = record s { primary_active = true; view_change_timeout = view_change_timeout_ticks } in
    let w : IsValid n t = record {
      slots = v.slots;
      votes = v.votes;
      views = v.views;
      timer = omega arith;
    } in
    ground (arith, open_slot-IsValid n t seq p w)

vote_prepare-IsValid :
    (n : PbftNode) (s : PbftState) (slot : SlotState) (view : ViewNumber) (seq : SequenceNumber)
    (d : Digest) (replica : NodeId)
    → SlotIsValid n s.view s.pending_payloads s.highest_committed_seq seq slot
    → IsValid n s
    → IsValid n (vote_prepare n s slot view seq d replica).0
unfolding vote_prepare
vote_prepare-IsValid n s slot view seq d replica w v =
    let voters = NodeSet.insert replica slot.prepare_voters in
    let prepared = record slot {
      phase = Phase.prepared;
      prepare_voters = voters;
      commit_voters = NodeSet.insert n.id slot.commit_voters;
    } in
    let counted = record slot { prepare_voters = voters } in
    ground (
      arith,
      rewrite_slot n s seq prepared,
      rewrite_slot n s seq counted,
      NodeSet.insert-IsDistinct replica slot.prepare_voters w.prepares,
      NodeSet.insert-IsDistinct n.id slot.commit_voters w.commits,
      NodeSet.contains-insert n.id n.id slot.commit_voters,
    )

pub on_prepare-IsValid :
    (n : PbftNode) (s : PbftState) (view : ViewNumber) (seq : SequenceNumber) (d : Digest)
    (replica : NodeId)
    → IsValid n s
    → IsValid n (on_prepare n s view seq d replica).0
unfolding on_prepare
on_prepare-IsValid n s view seq d replica v = elim (Option-cases (Map.get seq s.slots)) [
  | inl e ↦ rw (e, on_prepare) (ground arith)
  | inr (slot, e) ↦
      rw (e, on_prepare)
        (ground
          (arith, vote_prepare-IsValid n s slot view seq d replica (held_slot n s seq slot v e) v))
]

-- One more commit vote on a slot that is not committed.
counted-IsValid :
    (n : PbftNode) (s : PbftState) (slot : SlotState) (seq : SequenceNumber) (replica : NodeId)
    → is_committed slot.phase ≡ false
    → SlotIsValid n s.view s.pending_payloads s.highest_committed_seq seq slot
    → SlotIsValid n s.view s.pending_payloads s.highest_committed_seq seq
        (record slot { commit_voters = NodeSet.insert replica slot.commit_voters })
counted-IsValid n s slot seq replica not_yet w = ground (
  arith,
  NodeSet.insert-IsDistinct replica slot.commit_voters w.commits,
  NodeSet.contains-insert replica n.id slot.commit_voters,
)

decide-IsValid :
    (n : PbftNode) (s : PbftState) (slot : SlotState) (seq highest : SequenceNumber)
    → SlotIsValid n s.view s.pending_payloads s.highest_committed_seq seq slot
    → quorum n ≤ length slot.commit_voters
    → seq ≤ highest
    → s.highest_committed_seq ≤ highest
    → IsValid n s
    → IsValid n (
        deliver
          (record s {
            slots = Map.insert seq (record slot { phase = Phase.committed }) s.slots;
            highest_committed_seq = highest;
          })
          seq)
unfolding deliver
decide-IsValid n s slot seq highest w q le1 le2 v =
    let decided = record slot { phase = Phase.committed } in
    elim (Option-cases (Map.get seq s.pending_payloads)) [
      | inl e ↦
          rw (e, deliver)
            (commit_slot-IsValid n s seq decided s.pending_payloads highest s.committed
              (record {
                key = w.key;
                prepares = w.prepares;
                commits = w.commits;
                supported = (q, le1);
              })
              (λ j ne. refl) le2 v)
      | inr (p, e) ↦
          rw (e, deliver)
            (commit_slot-IsValid n s seq decided (Map.remove seq s.pending_payloads) highest _
              (record {
                key = w.key;
                prepares = w.prepares;
                commits = w.commits;
                supported = (q, le1);
              })
              (λ j ne. Map.get-remove_ne seq j s.pending_payloads ne) le2 v)
    ]

vote_commit-IsValid :
    (n : PbftNode) (s : PbftState) (slot : SlotState) (seq : SequenceNumber) (replica : NodeId)
    → SlotIsValid n s.view s.pending_payloads s.highest_committed_seq seq slot
    → IsValid n s
    → IsValid n (vote_commit n s slot seq replica)
unfolding vote_commit
vote_commit-IsValid n s slot seq replica w v =
    let counted = record slot { commit_voters = NodeSet.insert replica slot.commit_voters } in
    let highest = if ltb s.highest_committed_seq seq then seq else s.highest_committed_seq in
    let fresh : is_committed slot.phase ≡ false
        → SlotIsValid n s.view s.pending_payloads s.highest_committed_seq seq counted =
      λ not_yet. counted-IsValid n s slot seq replica not_yet w in
    ground (arith, fresh, rewrite_slot n s seq counted, decide-IsValid n s counted seq highest)

pub on_commit-IsValid :
    (n : PbftNode) (s : PbftState) (view : ViewNumber) (seq : SequenceNumber) (d : Digest)
    (replica : NodeId)
    → IsValid n s
    → IsValid n (on_commit n s view seq d replica).0
unfolding on_commit
on_commit-IsValid n s view seq d replica v = elim (Option-cases (Map.get seq s.slots)) [
  | inl e ↦ rw (e, on_commit) (ground arith)
  | inr (slot, e) ↦
      rw (e, on_commit)
        (ground (arith, vote_commit-IsValid n s slot seq replica (held_slot n s seq slot v e) v))
]
