-- ===== src/Pbft/Tests.antt =====
-- Concrete replicas and messages of a PBFT cluster of four.
use bft_consensus_bench.Base.{
  ◌+◌, ◌*◌, ◌%◌, ◌<◌, ◌≡◌, ◌↔◌, ◌⊎◌, refl, true, false, List, [], ◌∷◌, ◌++◌, arith,
}
use bft_consensus_bench.Base.NodeSet
use bft_consensus_bench.Base.NodeSet.{contains}
use bft_consensus_bench.Types.{NodeId, ViewNumber, Payload, Digest, Sha256}
use bft_consensus_bench.Network.{ProtocolMessage, PbftMessage}
use bft_consensus_bench.Pbft.State.{
  Phase, primary_for_view, PbftNode, PbftState, init, quorum, prepare_threshold, fault_tolerance,
}
use bft_consensus_bench.Pbft.Node.{handle_pbft}
use bft_consensus_bench.Pbft.Calls.{Call, proposes, receives, ticks, polls, run, handle_all}
use bft_consensus_bench.Pbft.Quorum.{quorum_overlap, quorum_intersection}
use bft_consensus_bench.Pbft.NormalCase.{normal_case}
use bft_consensus_bench.Pbft.NormalCase.Votes.{Vote, prepares, commits, entry}
use bft_consensus_bench.Pbft.Commits.{Commits, handle_pbft-Commits}
use bft_consensus_bench.Pbft.Timer.{tick_run, suspicion, tick_run-suspects}
use bft_consensus_bench.Pbft.Views.{Enters, Reason, handle_pbft-Enters}
use bft_consensus_bench.Pbft.Invariant.Defs.{IsValid}
use bft_consensus_bench.Pbft.Invariant.Methods.{run-init-IsValid}

abbrev replica : PbftNode
replica = record { id = 1; cluster_size = 4; peer_ids = 0 ∷ 2 ∷ 3 ∷ [] }

abbrev fresh : PbftState
fresh = record {
  current_view = 0;
  view = 0;
  next_sequence = 1;
  slots = [];
  pending_payloads = [];
  committed = [];
  view_change_timeout = 40;
  view_change_votes = [];
  highest_committed_seq = 0;
  primary_active = false;
  view_change_in_progress = false;
}

abbrev transfer : Payload
transfer = record { bytes = 7 ∷ [] }

abbrev some_digest : Digest
some_digest = record { bytes = 1 ∷ 2 ∷ [] }

abbrev wrong_digest : Digest
wrong_digest = record { bytes = [] }

abbrev prepare_votes : List Vote
prepare_votes = (some_digest, 0) ∷ (some_digest, 0) ∷ (wrong_digest, 2) ∷ []

abbrev commit_votes : List Vote
commit_votes = (some_digest, 2) ∷ (some_digest, 3) ∷ []

abbrev copy_digest : Sha256
copy_digest bytes = bytes

abbrev calls : List Call
calls =
    proposes transfer
    ∷ ticks
    ∷ receives (record {
      from = 0;
      to = 1;
      payload = ProtocolMessage.pbft (PbftMessage.pre_prepare 0 1 some_digest transfer);
    })
    ∷ polls
    ∷ []

normal_case_example :
    (handle_all replica fresh (
      PbftMessage.pre_prepare 0 1 some_digest transfer
      ∷ (prepares 0 1 prepare_votes ++ commits 0 1 commit_votes))).committed
    ≡ fresh.committed ++ entry 1 transfer ∷ []
unfolding prepare_threshold quorum NodeSet.insert_all NodeSet.insert contains
normal_case_example =
    normal_case replica fresh 1 some_digest transfer prepare_votes commit_votes refl (omega arith)
      (omega arith) (omega arith) (omega arith)

run-init-IsValid_example : IsValid replica (run copy_digest replica init calls)
run-init-IsValid_example = run-init-IsValid copy_digest replica calls

-- One commit vote short of a quorum.
abbrev short_of_one : PbftState
short_of_one = record fresh {
  slots =
      (
        1,
        record {
          view = 0;
          sequence = 1;
          phase = Phase.prepared;
          prepare_voters = 0 ∷ 2 ∷ [];
          commit_voters = 1 ∷ 3 ∷ [];
        },
      )
      ∷ [];
  pending_payloads = (1, transfer) ∷ [];
}

abbrev last_vote : PbftMessage
last_vote = PbftMessage.commit 0 1 some_digest 2

handle_pbft-Commits_example :
    ((handle_pbft replica short_of_one last_vote).0.committed ≡ short_of_one.committed)
    ⊎ Commits replica short_of_one (handle_pbft replica short_of_one last_vote).0 last_vote
handle_pbft-Commits_example = handle_pbft-Commits replica short_of_one last_vote

handle_pbft-Enters_example :
    ((handle_pbft replica fresh (PbftMessage.new_view 1 5)).0.view ≡ fresh.view)
    ⊎ ((w : ViewNumber) × (Enters fresh (handle_pbft replica fresh (PbftMessage.new_view 1 5)).0 w
          × Reason replica
              (handle_pbft replica fresh (PbftMessage.new_view 1 5)).0
              (PbftMessage.new_view 1 5)
              w))
handle_pbft-Enters_example = handle_pbft-Enters replica fresh (PbftMessage.new_view 1 5)

quorum_overlap_example : (4 + fault_tolerance replica < 2 * quorum replica) ↔ (4 % 3 ≡ 1)
quorum_overlap_example = quorum_overlap replica (omega arith) (omega arith)

quorum_intersection_example :
    (x : NodeId) × (x < 4)
    × (contains x (0 ∷ 1 ∷ 2 ∷ []) ≡ true)
    × (contains x (1 ∷ 2 ∷ 3 ∷ []) ≡ true)
    × (contains x (1 ∷ []) ≡ false)
unfolding quorum fault_tolerance contains
quorum_intersection_example =
    quorum_intersection replica (omega arith) (omega arith) (0 ∷ 1 ∷ 2 ∷ []) (1 ∷ 2 ∷ 3 ∷ [])
      (1 ∷ []) refl (refl, (refl, (refl, tt))) (refl, (refl, (refl, tt)))
      (omega arith, (omega arith, (omega arith, tt)))
      (omega arith, (omega arith, (omega arith, tt))) (omega arith) (omega arith) (omega arith)

tick_run-suspects_example :
    ((tick_run replica fresh 60).1 ≡ suspicion replica fresh)
    × ((tick_run replica fresh 60).0.view_change_in_progress ≡ true)
unfolding primary_for_view
tick_run-suspects_example = tick_run-suspects replica fresh 60 (omega arith) refl refl
