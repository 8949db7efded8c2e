-- ===== src/Pbft/NormalCase/Votes.antt =====
-- Votes of a PBFT cluster, and lists of messages (src/consensus/pbft/state.rs).
use bft_consensus_bench.Base.{◌≡◌, refl, ap, List, [], ◌∷◌, ◌++◌}
use bft_consensus_bench.Base.Map
use bft_consensus_bench.Types.{NodeId, ViewNumber, SequenceNumber, Payload, Digest}
use bft_consensus_bench.Network.{PbftMessage}
use bft_consensus_bench.Consensus.{CommittedEntry}
use bft_consensus_bench.Pbft.State.{SlotState, PbftNode, PbftState}
use bft_consensus_bench.Pbft.Node.{handle_pbft}
use bft_consensus_bench.Pbft.Calls.{handle_all}

-- A vote as its sender makes it: a digest, and the voter's name.
abbrev pub Vote : Type 0
Vote = Digest × NodeId

abbrev pub voters : List Vote → List NodeId
voters [] = []
voters ((d, r) ∷ vs) = r ∷ voters vs

abbrev pub prepares : ViewNumber → SequenceNumber → List Vote → List PbftMessage
prepares view seq [] = []
prepares view seq ((d, r) ∷ vs) = PbftMessage.prepare view seq d r ∷ prepares view seq vs

abbrev pub commits : ViewNumber → SequenceNumber → List Vote → List PbftMessage
commits view seq [] = []
commits view seq ((d, r) ∷ vs) = PbftMessage.commit view seq d r ∷ commits view seq vs

pub handle_all-append :
    (n : PbftNode) (s : PbftState) (xs ys : List PbftMessage)
    → handle_all n s (xs ++ ys) ≡ handle_all n (handle_all n s xs) ys
unfolding handle_all
handle_all-append n s [] ys = refl
handle_all-append n s (x ∷ xs) ys = handle_all-append n (handle_pbft n s x).0 xs ys

pub handle_all-cons :
    (n : PbftNode) (s t : PbftState) (m : PbftMessage) (ms : List PbftMessage)
    → (handle_pbft n s m).0 ≡ t
    → handle_all n s (m ∷ ms) ≡ handle_all n t ms
unfolding handle_all
handle_all-cons n s t m ms e = ap (λ u. handle_all n u ms) e

pub handle_all-nil : (n : PbftNode) (s : PbftState) → handle_all n s [] ≡ s
unfolding handle_all
handle_all-nil n s = refl

abbrev pub put_slot : PbftState → SequenceNumber → SlotState → PbftState
put_slot s seq slot = record s { slots = Map.insert seq slot s.slots }

abbrev pub entry : SequenceNumber → Payload → CommittedEntry
entry seq p = record { sequence = seq; payload = p }
