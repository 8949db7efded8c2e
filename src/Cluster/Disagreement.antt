-- ===== src/Cluster/Disagreement.antt =====
-- What an equivocating primary does to two PBFT replicas: src/cluster/fault.rs beside
-- src/consensus/pbft/state.rs and src/cluster/invariant.rs.
mod Tests
use bft_consensus_bench.Base.{
  ℕ, ◌%◌, ◌≤◌, ◌<◌, ◌≡◌, ◌≢◌, refl, sym, ◌∙◌, ap, subst, false, List, [], ◌∷◌, ◌++◌, some, none,
  arith, ◌==◌, length, inl, inr, ◌↔◌,
}
use bft_consensus_bench.Base.NodeSet
use bft_consensus_bench.Base.Map
use bft_consensus_bench.Types.{
  NodeId, ViewNumber, SequenceNumber, Payload, Digest, Sha256, digest, payload_eq, payload_eq_self,
}
use bft_consensus_bench.Network.{NetworkMessage, ProtocolMessage, PbftMessage}
use bft_consensus_bench.Consensus.{CommittedEntry, msg_to}
use bft_consensus_bench.Pbft.State.{PbftNode, PbftState, quorum, prepare_threshold}
use bft_consensus_bench.Pbft.Calls.{handle_all}
use bft_consensus_bench.Pbft.NormalCase.{normal_case}
use bft_consensus_bench.Pbft.NormalCase.Votes.{Vote, voters, prepares, commits, entry}
use bft_consensus_bench.Cluster.Fault.{FaultConfig, ByzantineBehavior}
use bft_consensus_bench.Cluster.Tamper.{alter, alter_message, equivocate_message, tamper}
use bft_consensus_bench.Cluster.Tamper.Equivocation.{alter-differs}
use bft_consensus_bench.Cluster.CommitLog
use bft_consensus_bench.Cluster.CommitLog.{CommitLog, pass, check_agreement, record_commits}
use bft_consensus_bench.Cluster.CommitLog.Agreement.{Agreement, check_agreement_iff}
use bft_consensus_bench.Cluster.CommitLog.Facts.{Fact, honest_facts}

abbrev pbft_parts : List NetworkMessage → List PbftMessage
pbft_parts [] = []
pbft_parts (m ∷ ms) = elim m.payload [
  | ProtocolMessage.pbft q ↦ q ∷ pbft_parts ms
  | _ ↦ pbft_parts ms
]

-- What reaches a node of a message that the primary sends it.
abbrev pub arrives :
    {Rng Rate : Type 0}
    → Sha256
    → FaultConfig Rng Rate
    → NodeId
    → NodeId
    → PbftMessage
    → List PbftMessage
arrives sha256 faults primary to m =
    pbft_parts (tamper sha256 faults (msg_to primary to (ProtocolMessage.pbft m)))

-- A replica that has nothing to deliver yet, and for which the votes are enough.
pub record Ready (n : PbftNode) (s : PbftState) (prepare_votes commit_votes : List Vote)
    : Type 0 where
  pub calm : s.view_change_in_progress ≡ false
  pub empty : s.committed ≡ []
  pub prepared : prepare_threshold n ≤ length (NodeSet.insert_all (voters prepare_votes) [])
  pub full : quorum n ≤ length (NodeSet.insert_all (voters commit_votes) (n.id ∷ []))

module _ {Rng Rate : Type 0} (sha256 : Sha256) (faults : FaultConfig Rng Rate)
    (primary : NodeId) where
  arrives-even :
      (to : NodeId) (view seq : ℕ) (d : Digest) (p : Payload)
      → Map.get primary faults.byzantine_nodes ≡ some (ByzantineBehavior.equivocate ∷ [])
      → to % 2 ≡ 0
      → arrives sha256 faults primary to (PbftMessage.pre_prepare view seq d p)
        ≡ PbftMessage.pre_prepare view seq d p ∷ []
  unfolding tamper equivocate_message msg_to
  arrives-even to view seq d p byz even = ground arith

  arrives-odd :
      (to : NodeId) (view seq : ℕ) (d : Digest) (p : Payload)
      → Map.get primary faults.byzantine_nodes ≡ some (ByzantineBehavior.equivocate ∷ [])
      → to % 2 ≡ 1
      → arrives sha256 faults primary to (PbftMessage.pre_prepare view seq d p)
        ≡ PbftMessage.pre_prepare view seq (digest sha256 (alter p)) (alter p) ∷ []
  unfolding tamper equivocate_message msg_to alter_message
  arrives-odd to view seq d p byz odd = ground arith

-- Two honest nodes that committed different payloads at one sequence.
two_logs :
    (a b : NodeId) (seq : SequenceNumber) (p q : Payload)
    → (a == b) ≡ false
    → (p ≡ q → ⊥)
    → check_agreement
        (record_commits (record_commits CommitLog.new a (entry seq p ∷ [])) b (entry seq q ∷ []))
        (a ∷ b ∷ [])
      ≢ pass
unfolding record_commits CommitLog.new Map.insert Map.get NodeSet.contains
two_logs a b seq p q other differ passes =
    let log =
      record_commits (record_commits CommitLog.new a (entry seq p ∷ [])) b (entry seq q ∷ []) in
    let held : log.commits ≡ (a, entry seq p ∷ []) ∷ (b, entry seq q ∷ []) ∷ [] = ground arith in
    let facts : honest_facts (a ∷ b ∷ []) ((a, entry seq p ∷ []) ∷ (b, entry seq q ∷ []) ∷ [])
        ≡ (a, entry seq p) ∷ (b, entry seq q) ∷ [] =
      ground arith in
    let agree : Agreement ((a, entry seq p) ∷ (b, entry seq q) ∷ []) =
      subst Agreement (ap (honest_facts (a ∷ b ∷ [])) held ∙ facts)
        ((check_agreement_iff log (a ∷ b ∷ [])).0 passes) in
    differ (agree (a, entry seq p) (b, entry seq q) (inl refl) (inr (inl refl)) refl)

payload-ne-alter : (p : Payload) → p ≡ alter p → ⊥
payload-ne-alter p e =
    let same : payload_eq p p ≡ payload_eq p (alter p) = ap (payload_eq p) e in
    let yes = payload_eq_self p in
    let no = alter-differs p in absurd (ground (arith, same, yes, no))

-- One replica of the primary's: what arrives, then the votes.
abbrev pub serves :
    {Rng Rate : Type 0}
    → Sha256
    → FaultConfig Rng Rate
    → NodeId
    → PbftNode
    → PbftState
    → PbftMessage
    → List PbftMessage
    → List CommittedEntry
serves sha256 faults primary n s proposal votes =
    (handle_all n s (arrives sha256 faults primary n.id proposal ++ votes)).committed

-- A Byzantine primary that equivocates, and two honest replicas with no view change in progress,
-- one of an even number and one of an odd one, in the same view and with nothing to deliver. Both
-- receive the primary's one proposal, as tampering leaves it, then the same prepare votes and the
-- same commit votes, which are enough for each. Then each delivers one entry under the same
-- sequence number: the even one the payload, the odd one the altered payload. The agreement check
-- fails on the log of the two.
pub equivocation_splits :
    {Rng Rate : Type 0} (sha256 : Sha256) (faults : FaultConfig Rng Rate) (primary : NodeId)
    (a b : PbftNode) (s t : PbftState) (seq : SequenceNumber) (d : Digest) (p : Payload)
    (prepare_votes commit_votes : List Vote)
    → Map.get primary faults.byzantine_nodes ≡ some (ByzantineBehavior.equivocate ∷ [])
    → a.id % 2 ≡ 0
    → b.id % 2 ≡ 1
    → t.view ≡ s.view
    → 0 < length prepare_votes
    → 0 < length commit_votes
    → Ready a s prepare_votes commit_votes
    → Ready b t prepare_votes commit_votes
    → let proposal = PbftMessage.pre_prepare s.view seq d p in
      let vs = prepares s.view seq prepare_votes ++ commits s.view seq commit_votes in
      let at_a = serves sha256 faults primary a s proposal vs in
      let at_b = serves sha256 faults primary b t proposal vs in
      (at_a ≡ entry seq p ∷ [])
      × (at_b ≡ entry seq (alter p) ∷ [])
      × (check_agreement
            (record_commits (record_commits CommitLog.new a.id at_a) b.id at_b)
            (a.id ∷ b.id ∷ [])
          ≢ pass)
equivocation_splits sha256 faults primary a b s t seq d p ps cs byz even odd same some_p some_c ra
      rb =
    let vs = prepares s.view seq ps ++ commits s.view seq cs in
    let proposal = PbftMessage.pre_prepare s.view seq d p in
    let at_a : serves sha256 faults primary a s proposal vs ≡ entry seq p ∷ [] =
      ap (λ ms. (handle_all a s (ms ++ vs)).committed)
        (arrives-even sha256 faults primary a.id s.view seq d p byz even)
      ∙ normal_case a s seq d p ps cs ra.calm some_p ra.prepared some_c ra.full
      ∙ ap (λ c. c ++ entry seq p ∷ []) ra.empty in
    let normal_b =
      normal_case b t seq (digest sha256 (alter p)) (alter p) ps cs rb.calm some_p rb.prepared
        some_c rb.full in
    let at_b : serves sha256 faults primary b t proposal vs ≡ entry seq (alter p) ∷ [] =
      ap (λ ms. (handle_all b t (ms ++ vs)).committed)
        (arrives-odd sha256 faults primary b.id s.view seq d p byz odd)
      ∙ subst
          (λ v.
            (handle_all b t (
              PbftMessage.pre_prepare v seq (digest sha256 (alter p)) (alter p)
              ∷ (prepares v seq ps ++ commits v seq cs))).committed
            ≡ t.committed ++ entry seq (alter p) ∷ [])
          same normal_b
      ∙ ap (λ c. c ++ entry seq (alter p) ∷ []) rb.empty in
    (
      at_a,
      at_b,
      rw (at_a, at_b)
          (two_logs a.id b.id seq p (alter p) (ground (arith, even, odd)) (payload-ne-alter p)),
    )
