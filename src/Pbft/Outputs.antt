-- ===== src/Pbft/Outputs.antt =====
-- src/consensus/pbft: the outputs of a PBFT replica are a queue.
use bft_consensus_bench.Base.{◌≡◌, refl, subst, arith, inl, inr}
use bft_consensus_bench.Types.{NodeId, Sha256, Payload}
use bft_consensus_bench.Network.{ProtocolMessage, PbftMessage}
use bft_consensus_bench.Consensus.Outputs.{Extends, Extends-of_same, some-first, Outputs}
use bft_consensus_bench.Pbft.State.{PbftNode, PbftState}
use bft_consensus_bench.Pbft.Voting.{open_slot, assign_sequence, propose}
use bft_consensus_bench.Pbft.ViewChange.{add_vote, suspect_primary, tick}
use bft_consensus_bench.Pbft.Node.{handle_pbft, handle_message, poll_committed, pbft_consensus}
use bft_consensus_bench.Pbft.Commits.{Commits, handle_pbft-Commits}

Commits-Extends :
    (n : PbftNode) (s t : PbftState) (m : PbftMessage)
    → Commits n s t m
    → Extends s.committed t.committed
Commits-Extends n s t (PbftMessage.pre_prepare view seq d p) c = elim c [ ]
Commits-Extends n s t (PbftMessage.prepare view seq d replica) c = elim c [ ]
Commits-Extends n s t (PbftMessage.commit view seq d replica) (slot, payload, c) = (_, c.entry)
Commits-Extends n s t (PbftMessage.view_change view replica last) c = elim c [ ]
Commits-Extends n s t (PbftMessage.new_view view next) c = elim c [ ]

message-Extends :
    (n : PbftNode) (s : PbftState) (m : PbftMessage)
    → Extends s.committed (handle_pbft n s m).0.committed
message-Extends n s m =
    let t = (handle_pbft n s m).0 in
    elim (handle_pbft-Commits n s m) [
      | inl same ↦ Extends-of_same s.committed t.committed same
      | inr c ↦ Commits-Extends n s t m c
    ]

handle_message-Extends :
    (n : PbftNode) (s : PbftState) (from to : NodeId) (payload : ProtocolMessage)
    → Extends s.committed
        (handle_message n s (record { from = from; to = to; payload = payload })).0.committed
unfolding handle_message
handle_message-Extends n s from to (ProtocolMessage.pbft m) = message-Extends n s m
handle_message-Extends n s from to (ProtocolMessage.raft m) =
    Extends-of_same s.committed s.committed refl
handle_message-Extends n s from to (ProtocolMessage.hotstuff m) =
    Extends-of_same s.committed s.committed refl

propose-Extends :
    (sha256 : Sha256) (n : PbftNode) (s : PbftState) (p : Payload)
    → Extends s.committed (propose sha256 n s p).0.committed
unfolding propose assign_sequence open_slot
propose-Extends sha256 n s p =
    Extends-of_same s.committed (propose sha256 n s p).0.committed (ground arith)

tick-Extends : (n : PbftNode) (s : PbftState) → Extends s.committed (tick n s).0.committed
unfolding tick suspect_primary add_vote
tick-Extends n s = Extends-of_same s.committed (tick n s).0.committed (ground arith)

-- The committed entries of a PBFT replica are a queue that calls only add to, and that polling
-- empties.
pub pbft_outputs : (sha256 : Sha256) → Outputs (pbft_consensus sha256)
unfolding pbft_consensus poll_committed
pbft_outputs sha256 = record {
  queue = λ p. p.1.committed;
  poll_takes = λ p. refl;
  poll_empties = λ p. refl;
  poll_id = λ p. refl;
  propose_extends = λ p q payload r h.
      subst (λ q'. (q'.0.id ≡ p.0.id) × Extends p.1.committed q'.1.committed) (some-first _ _ h)
        (refl, propose-Extends sha256 p.0 p.1 payload);
  handle_extends = λ p q m out h.
      subst (λ q'. (q'.0.id ≡ p.0.id) × Extends p.1.committed q'.1.committed) (some-first _ _ h)
        (refl, handle_message-Extends p.0 p.1 m.from m.to m.payload);
  tick_extends = λ p q out h.
      subst (λ q'. (q'.0.id ≡ p.0.id) × Extends p.1.committed q'.1.committed) (some-first _ _ h)
        (refl, tick-Extends p.0 p.1);
}
