-- ===== src/Hotstuff/Outputs.antt =====
-- src/consensus/hotstuff: the outputs of a HotStuff replica are a queue.
use bft_consensus_bench.Base.{◌≡◌, refl, subst, arith, inl, inr}
use bft_consensus_bench.Types.{NodeId, Sha256, Payload}
use bft_consensus_bench.Network.{ProtocolMessage, HotStuffMessage}
use bft_consensus_bench.Consensus.Outputs.{Extends, Extends-of_same, some-first, Outputs}
use bft_consensus_bench.Hotstuff.State.{HotStuffNode, HotStuffState}
use bft_consensus_bench.Hotstuff.Proposals.{assign_sequence, propose}
use bft_consensus_bench.Hotstuff.ViewChange.{add_vote, suspect_leader, tick}
use bft_consensus_bench.Hotstuff.Node.{
  handle_hotstuff, handle_message, poll_committed, hotstuff_consensus,
}
use bft_consensus_bench.Hotstuff.Commits.{handle_hotstuff-Commits}

message-Extends :
    (n : HotStuffNode) (s : HotStuffState) (m : HotStuffMessage)
    → Extends s.committed (handle_hotstuff n s m).0.committed
message-Extends n s m =
    let t = (handle_hotstuff n s m).0 in
    elim (handle_hotstuff-Commits n s m) [
      | inl same ↦ Extends-of_same s.committed t.committed same
      | inr c ↦ (_, c.out)
    ]

handle_message-Extends :
    (n : HotStuffNode) (s : HotStuffState) (from to : NodeId) (payload : ProtocolMessage)
    → Extends s.committed
        (handle_message n s (record { from = from; to = to; payload = payload })).0.committed
unfolding handle_message
handle_message-Extends n s from to (ProtocolMessage.hotstuff m) = message-Extends n s m
handle_message-Extends n s from to (ProtocolMessage.raft m) =
    Extends-of_same s.committed s.committed refl
handle_message-Extends n s from to (ProtocolMessage.pbft m) =
    Extends-of_same s.committed s.committed refl

propose-Extends :
    (sha256 : Sha256) (n : HotStuffNode) (s : HotStuffState) (p : Payload)
    → Extends s.committed (propose sha256 n s p).0.committed
unfolding propose assign_sequence
propose-Extends sha256 n s p =
    Extends-of_same s.committed (propose sha256 n s p).0.committed (ground arith)

tick-Extends : (n : HotStuffNode) (s : HotStuffState) → Extends s.committed (tick n s).0.committed
unfolding tick suspect_leader add_vote
tick-Extends n s = Extends-of_same s.committed (tick n s).0.committed (ground arith)

-- The committed entries of a HotStuff replica are a queue that calls only add to, and that polling
-- empties.
pub hotstuff_outputs : (sha256 : Sha256) → Outputs (hotstuff_consensus sha256)
unfolding hotstuff_consensus poll_committed
hotstuff_outputs sha256 = record {
  queue = λ p. p.1.committed;
  poll_takes = λ p. refl;
  poll_empties = λ p. refl;
  poll_id = λ p. refl;
  propose_extends = λ p q payload r h.
      subst (λ q'. (q'.0.id ≡ p.0.id) × Extends p.1.committed q'.1.committed) (some-first _ _ h)
        (refl, propose-Extends sha256 p.0 p.1 payload);
  handle_extends = λ p q m out h.
      subst (λ q'. (q'.0.id ≡ p.0.id) × Extends p.1.committed q'.1.committed) (some-first _ _ h)
        (refl, handle_message-Extends p.0 p.1 m.from m.to m.payload);
  tick_extends = λ p q out h.
      subst (λ q'. (q'.0.id ≡ p.0.id) × Extends p.1.committed q'.1.committed) (some-first _ _ h)
        (refl, tick-Extends p.0 p.1);
}
