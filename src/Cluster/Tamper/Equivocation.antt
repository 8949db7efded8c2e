-- ===== src/Cluster/Tamper/Equivocation.antt =====
-- src/cluster/fault.rs: the two proposals of an equivocating leader.
use bft_consensus_bench.Base.{
  ℕ, ◌%◌, ◌≡◌, refl, ap, false, true, ◌↔◌, ◌==◌, if◌then◌else◌, List, [], ◌∷◌, ◌++◌, Option, none,
  some, arith, inl, inr, Bool-cases,
}
use bft_consensus_bench.Types.{
  NodeId, ViewNumber, SequenceNumber, Payload, Digest, Sha256, digest, payload_eq, payload_eq_sound,
  payload_eq_self,
}
use bft_consensus_bench.Network.{NetworkMessage, ProtocolMessage, PbftMessage, HotStuffMessage}
use bft_consensus_bench.Cluster.Tamper.{alter, alter_message, equivocate_message}

-- The view, the number, the digest and the payload of a proposal of PBFT or HotStuff.
unfoldable pub proposal_of :
    ProtocolMessage → Option (ViewNumber × SequenceNumber × Digest × Payload)
proposal_of (ProtocolMessage.pbft (PbftMessage.pre_prepare v s d p)) = some (v, s, d, p)
proposal_of (ProtocolMessage.hotstuff (HotStuffMessage.propose v s d p jv jp)) = some (v, s, d, p)
proposal_of m = none

alter_message-proposal_of :
    (sha256 : Sha256) (m : ProtocolMessage) (v : ViewNumber) (k : SequenceNumber) (d : Digest)
    (p : Payload)
    → proposal_of m ≡ some (v, k, d, p)
    → proposal_of (alter_message sha256 m) ≡ some (v, k, digest sha256 (alter p), alter p)
unfolding proposal_of alter_message
alter_message-proposal_of sha256 (ProtocolMessage.pbft (PbftMessage.pre_prepare v' s d' p')) v k d p
      h =
    ground arith
alter_message-proposal_of sha256 (ProtocolMessage.pbft (PbftMessage.prepare v' s d' r)) v k d p h =
    cc
alter_message-proposal_of sha256 (ProtocolMessage.pbft (PbftMessage.commit v' s d' r)) v k d p h =
    cc
alter_message-proposal_of sha256 (ProtocolMessage.pbft (PbftMessage.view_change v' r l)) v k d p h =
    cc
alter_message-proposal_of sha256 (ProtocolMessage.pbft (PbftMessage.new_view v' n)) v k d p h = cc
alter_message-proposal_of sha256 (ProtocolMessage.raft m) v k d p h = cc
alter_message-proposal_of sha256
      (ProtocolMessage.hotstuff (HotStuffMessage.propose v' s d' p' jv jp)) v k d p h =
    ground arith
alter_message-proposal_of sha256 (ProtocolMessage.hotstuff (HotStuffMessage.vote v' s d' ph r)) v k
      d p h =
    cc
alter_message-proposal_of sha256
      (ProtocolMessage.hotstuff (HotStuffMessage.quorum_certificate v' s d' ph c)) v k d p h =
    cc
alter_message-proposal_of sha256 (ProtocolMessage.hotstuff (HotStuffMessage.new_view v' qv qp r)) v
      k d p h =
    cc

append-ne : (xs : List ℕ) (x : ℕ) → xs ≡ xs ++ x ∷ [] → ⊥
append-ne [] x h = cc
append-ne (y ∷ xs) x h = append-ne xs x (cc)

pub alter-differs : (p : Payload) → payload_eq p (alter p) ≡ false
unfolding alter
alter-differs p = elim (Bool-cases (payload_eq p (alter p))) [
  | inl same ↦
      absurd
        (append-ne p.bytes 0xFF (let e = payload_eq_sound p (alter p) same in ap (λ q. q.bytes) e))
  | inr other ↦ other
]

-- The message is a proposal under this number of this view, and its digest is that of its payload.
abbrev pub Proposes : Sha256 → ViewNumber → SequenceNumber → Payload → NetworkMessage → Type 0
Proposes sha256 v k p m = proposal_of m.payload ≡ some (v, k, digest sha256 p, p)

-- What one target of an equivocating sender gets.
abbrev pub variant : NodeId → Payload → Payload
variant to p = if to % 2 == 0 then p else alter p

equivocate-Proposes :
    (sha256 : Sha256) (m : NetworkMessage) (v : ViewNumber) (k : SequenceNumber) (p : Payload)
    → Proposes sha256 v k p m
    → (sent : NetworkMessage) × (equivocate_message sha256 m ≡ sent ∷ [])
      × (sent.to ≡ m.to)
      × Proposes sha256 v k (variant m.to p) sent
unfolding equivocate_message
equivocate-Proposes sha256 m v k p proposes = elim (Bool-cases (m.to % 2 == 0)) [
  | inl even ↦ rw even (m, refl, refl, proposes)
  | inr odd ↦ rw odd (
    record m { payload = alter_message sha256 m.payload },
    refl,
    refl,
    alter_message-proposal_of sha256 m.payload v k (digest sha256 p) p proposes,
  )
]

alter-differs_back : (p : Payload) → payload_eq (alter p) p ≡ false
alter-differs_back p = elim (Bool-cases (payload_eq (alter p) p)) [
  | inl same ↦
      let e = payload_eq_sound (alter p) p same in
      let back : payload_eq p (alter p) ≡ true = rw e (payload_eq_self p) in
      let no = alter-differs p in cc
  | inr other ↦ other
]

variant_iff :
    (a b : NodeId) (p : Payload) → (payload_eq (variant a p) (variant b p) ≡ true) ↔ (a % 2 ≡ b % 2)
variant_iff a b p =
    let one = alter-differs p in
    let two = alter-differs_back p in
    let self = payload_eq_self p in
    let self' = payload_eq_self (alter p) in
    ((λ h. ground (arith, one, two)), (λ h. ground (arith, self, self')))

-- An equivocating sender that proposes a payload, with its digest, to two targets sends each of
-- them one message. Both are proposals under the same number of the same view, and each has the
-- digest of the payload that it carries, so that neither is told from an honest proposal by its
-- digest. The two payloads are equal exactly if the targets are both even or both odd.
pub equivocate-conflicts :
    (sha256 : Sha256) (one two : NetworkMessage) (v : ViewNumber) (k : SequenceNumber) (p : Payload)
    → Proposes sha256 v k p one
    → Proposes sha256 v k p two
    → (first second : NetworkMessage) × (p1 p2 : Payload) × (equivocate_message sha256 one
        ≡ first ∷ [])
      × (equivocate_message sha256 two ≡ second ∷ [])
      × (first.to ≡ one.to)
      × (second.to ≡ two.to)
      × Proposes sha256 v k p1 first
      × Proposes sha256 v k p2 second
      × ((payload_eq p1 p2 ≡ true) ↔ (one.to % 2 ≡ two.to % 2))
equivocate-conflicts sha256 one two v k p proposes1 proposes2 =
    let (first, sent1, to1, is1) = equivocate-Proposes sha256 one v k p proposes1 in
    let (second, sent2, to2, is2) = equivocate-Proposes sha256 two v k p proposes2 in
    (
      first,
      second,
      variant one.to p,
      variant two.to p,
      sent1,
      sent2,
      to1,
      to2,
      is1,
      is2,
      variant_iff one.to two.to p,
    )
