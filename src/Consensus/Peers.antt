-- ===== src/Consensus/Peers.antt =====
-- src/consensus/mod.rs: the peers of a node, and what a broadcast reaches.
use bft_consensus_bench.Base.{
  ℕ, zero, suc, ◌+◌, ◌≤◌, ◌<◌, ◌≡◌, refl, Bool, not, ◌&&◌, List, [], ◌∷◌, arith, ltb, leb, ◌==◌,
  keep_if, range, length, length-map,
}
use bft_consensus_bench.Base.NodeSet.{contains}
use bft_consensus_bench.Types.{NodeId}
use bft_consensus_bench.Network.{ProtocolMessage}
use bft_consensus_bench.Consensus.{peer_ids, broadcast}

contains-range : (a start n : ℕ) → contains a (range start n) ≡ (leb start a && ltb a (start + n))
unfolding contains
contains-range a start zero = ground arith
contains-range a start (suc n) = ground (arith, contains-range a (start + 1) n)

contains-keep_if :
    (a : ℕ) (p : ℕ → Bool) (xs : List ℕ) → contains a (keep_if p xs) ≡ (contains a xs && p a)
unfolding contains
contains-keep_if a p [] = refl
contains-keep_if a p (x ∷ xs) = ground (arith, contains-keep_if a p xs)

-- A node's peers are the other nodes of the cluster.
pub contains-peer_ids :
    (id size a : ℕ) → contains a (peer_ids id size) ≡ (ltb a size && not (a == id))
unfolding peer_ids
contains-peer_ids id size a =
    ground
      (arith, contains-keep_if a (λ pid. not (pid == id)) (range 0 size), contains-range a 0 size)

length-others_of_lt :
    (id start n : ℕ) → id < start → length (keep_if (λ pid. not (pid == id)) (range start n)) ≡ n
length-others_of_lt id start zero h = refl
length-others_of_lt id start (suc n) h = ground (arith, length-others_of_lt id (start + 1) n)

length-others :
    (id start n : ℕ)
    → start ≤ id
    → id < start + n
    → length (keep_if (λ pid. not (pid == id)) (range start n)) + 1 ≡ n
length-others id start zero h lt = absurd (omega arith)
length-others id start (suc n) h lt =
    ground (arith, length-others id (start + 1) n, length-others_of_lt id (start + 1) n)

-- In a cluster of `size` nodes, each has `size - 1` peers.
pub length-peer_ids : (id size : ℕ) → id < size → length (peer_ids id size) + 1 ≡ size
unfolding peer_ids
length-peer_ids id size h = length-others id 0 size (omega arith) (omega arith)

pub length-broadcast :
    (from : NodeId) (peers : List NodeId) (m : ProtocolMessage)
    → length (broadcast from peers m) ≡ length peers
unfolding broadcast
length-broadcast from peers m = length-map _ peers
