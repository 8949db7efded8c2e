-- ===== src/Lib.antt =====
-- A model of the consensus benchmark, a simulation that runs PBFT, basic HotStuff and Raft under
-- injected faults and checks what the nodes commit.
--
-- The parts, and the files that model them:
-- - Types: identifiers, payloads, digests (src/types/message.rs, src/types/node.rs).
-- - Network: the messages of the protocols (src/network/mod.rs).
-- - Consensus: the trait `ConsensusNode` as a record of operations, and the messages that a node
--   broadcasts (src/consensus/mod.rs). The cluster takes such a record as a parameter, and each
--   protocol fills one: `pbft_consensus`, `hotstuff_consensus`, `raft_consensus`.
-- - Pbft (src/consensus/pbft): State has the records and `new`, Voting has `propose` and the messages
--   PrePrepare, Prepare and Commit, ViewChange has ViewChange, NewView and `tick`, Node has
--   `handle_message` and the rest of the trait. Calls has sequences of calls. Proofs are in Quorum,
--   Commits, Views, Timer, NormalCase and Invariant.
-- - Hotstuff (src/consensus/hotstuff): the same division, with `propose` and Propose in
--   Proposals, Vote and QuorumCertificate in Voting, NewView and `tick` in ViewChange. Proofs are in
--   Commits, Certificates, Numbers, Views, NormalCase, LeaderRounds and Invariant.
-- - Raft (src/consensus/raft): Election has RequestVote, its response and `tick`, Replication has
--   `propose`, AppendEntries and its response. Proofs are in Votes, Elections, Safety (of
--   elections in a cluster), Timer, Commit, Log, Matching (two logs side by side) and CatchUp (the
--   exchange of a leader with one follower).
-- - Cluster (src/cluster): Fault and Tamper are `FaultConfig` (fault.rs), CommitLog is the checker
--   (invariant.rs), and State, Delivery, Sim and Setup are `Cluster` (mod.rs): its fields, `step` and
--   `run_to_completion`, proposals, ticks and the collection of commits, and the constructors.
-- - Consensus/Outputs is the interface between the cluster and the protocols for what is committed:
--   a queue that calls only add to and that polling empties. Each protocol's Outputs module fills it,
--   and Cluster/Collection uses it, over sequences of the calls that change a cluster. Cluster/Disagreement
--   brings tampering, PBFT and the checker together.
-- - Bench (src/bin/bench_report.rs, src/main.rs): Text has the payloads of the proposals, Runs the
--   benchmark runs, Jobs the list of them in `main`, Report the rows that are printed of the results,
--   Demo the fault tolerances that the program prints. Steady is an interface of a protocol and what
--   it keeps in its first view, which PBFT and HotStuff fill, and the runs over clusters of that kind.
-- - Base: numbers, lists, sets of nodes, maps and counting.
-- Tests modules have concrete data and runs.
--
-- How the code is modelled. A node is two records, the fields that never change and the ones that the
-- mutex guards or that are atomic; a method takes both and returns the new state beside its result
-- and the messages to send. The lock is held for a whole method, so a call is one step. A handler of
-- the source's `match` is one function, named after its message. HashMap is an association list in
-- which inserting replaces, HashSet a list in which each element stands once; no result depends on
-- their order but the choice of which failure a check reports first, and the reference node of the
-- total order. A u64 or usize is a natural number below 2 ^ 64; additions that can reach it wrap as
-- in a release build, subtractions that the source does not guard wrap as well. `none` is a panic,
-- which ends the run; what it leaves of the state is not modelled. In a cluster of size 0
-- the source divides by zero, and the model does not say what happens there.
-- A failure of a check carries the values that its text prints, not the text.
--
-- Parameters: SHA-256 (sha2) is a function on bytes; the generator (rand), its seeding and its draws,
-- and the drop rate, a float, are operations of an abstract type; so are the clock of the benchmark
-- and its ratios, and what a run draws from the system's entropy is an argument. A trait
-- object is the record of operations that the cluster is given.
--
-- Bounds. `run_to_completion` recurses on the source's own `max_steps`, and `wait_for_leader` on its
-- `max_ticks`, with 100 steps per tick as in the source. The leader's search for a commit index
-- recurses on the length of the log above the commit index, as the source's range does. The decimal
-- digits of a number are taken on more fuel than the number itself. The exchange of Raft's CatchUp is
-- bounded by a number of messages that the theorem about it gives. No other function has a bound of
-- its own.
--
-- Not modelled: logging, serialization and the asynchronous runtime, which change no state; the layout
-- of the printed text, the bars of the charts, whose lengths are float arithmetic, and the reading of
-- the command's argument; benches, which hands runs to the crate criterion; tests; the Display texts and
-- the conversions of payloads and digests.
mod Base
pub mod Types
pub mod Network
pub mod Consensus
pub mod Pbft
pub mod Hotstuff
pub mod Raft
pub mod Cluster
pub mod Bench
