-- ===== src/Hotstuff/Tests.antt =====
-- Concrete replicas and messages of a HotStuff cluster of four.
use bft_consensus_bench.Base.{◌≡◌, ◌⊎◌, refl, false, List, [], ◌∷◌}
use bft_consensus_bench.Types.{ViewNumber, Payload, Digest, Sha256, digest}
use bft_consensus_bench.Network.{NetworkMessage, ProtocolMessage, HotStuffMessage, HotStuffPhaseTag}
use bft_consensus_bench.Consensus.{accepted}
use bft_consensus_bench.Hotstuff.State.{
  Phase, HotStuffNode, HotStuffState, init, leader_for_view, broadcast_hotstuff,
}
use bft_consensus_bench.Hotstuff.Proposals.{propose}
use bft_consensus_bench.Hotstuff.Voting.{on_vote}
use bft_consensus_bench.Hotstuff.Node.{handle_hotstuff}
use bft_consensus_bench.Hotstuff.Calls.{Call, proposes, receives, ticks, polls, run}
use bft_consensus_bench.Hotstuff.Commits.{Commits, handle_hotstuff-Commits}
use bft_consensus_bench.Hotstuff.Certificates.{Certifies, certificate, on_vote-Certifies}
use bft_consensus_bench.Hotstuff.Views.{Enters, Reason, handle_hotstuff-Enters}
use bft_consensus_bench.Hotstuff.Numbers.{first_proposal-number}
use bft_consensus_bench.Hotstuff.Invariant.Defs.{IsValid}
use bft_consensus_bench.Hotstuff.Invariant.Methods.{every_run-IsValid}

abbrev pub leader : HotStuffNode
leader = record { id = 0; cluster_size = 4; peer_ids = 1 ∷ 2 ∷ 3 ∷ [] }

abbrev pub follower : HotStuffNode
follower = record { id = 2; cluster_size = 4; peer_ids = 0 ∷ 1 ∷ 3 ∷ [] }

abbrev pub fresh : HotStuffState
fresh = record {
  current_view = 0;
  view = 0;
  next_sequence = 1;
  slots = [];
  pending_payloads = [];
  committed = [];
  highest_qc_view = 0;
  highest_qc_phase = HotStuffPhaseTag.prepare;
  view_change_timeout = 40;
  new_view_messages = [];
  leader_active = false;
}

abbrev pub transfer : Payload
transfer = record { bytes = 7 ∷ [] }

abbrev pub some_digest : Digest
some_digest = record { bytes = 1 ∷ 2 ∷ [] }

abbrev pub copy_digest : Sha256
copy_digest bytes = bytes

-- The leader has two commit votes of three.
abbrev short_of_one : HotStuffState
short_of_one = record fresh {
  slots =
      (
        1,
        record {
          view = 0;
          sequence = 1;
          phase = Phase.commit;
          prepare_voters = 0 ∷ 1 ∷ 2 ∷ [];
          precommit_voters = 0 ∷ 1 ∷ 2 ∷ [];
          commit_voters = 0 ∷ 3 ∷ [];
        },
      )
      ∷ [];
  pending_payloads = (1, transfer) ∷ [];
}

abbrev last_vote : HotStuffMessage
last_vote = HotStuffMessage.vote 0 1 some_digest HotStuffPhaseTag.commit 2

abbrev proposal : NetworkMessage
proposal = record {
  from = 1;
  to = 2;
  payload =
      ProtocolMessage.hotstuff
        (HotStuffMessage.propose 2 1 some_digest transfer 0 HotStuffPhaseTag.prepare);
}

abbrev calls : List Call
calls = ticks ∷ receives proposal ∷ polls ∷ []

every_run-IsValid_example : IsValid (run copy_digest follower init (proposes transfer ∷ calls))
every_run-IsValid_example = every_run-IsValid copy_digest follower (proposes transfer ∷ calls)

handle_hotstuff-Commits_example :
    ((handle_hotstuff leader short_of_one last_vote).0.committed ≡ short_of_one.committed)
    ⊎ Commits leader short_of_one (handle_hotstuff leader short_of_one last_vote).0 last_vote
handle_hotstuff-Commits_example = handle_hotstuff-Commits leader short_of_one last_vote

on_vote-Certifies_example :
    ((on_vote leader short_of_one 0 1 some_digest HotStuffPhaseTag.commit 2).1 ≡ [])
    ⊎ ((c : Certifies leader short_of_one 0 1 HotStuffPhaseTag.commit 2) × ((on_vote leader
            short_of_one 0 1 some_digest HotStuffPhaseTag.commit 2).1
          ≡ certificate leader short_of_one 0 1 some_digest HotStuffPhaseTag.commit 2 c)
        × ((on_vote leader short_of_one 0 1 some_digest HotStuffPhaseTag.commit 2).0.highest_qc_view
            ≡ 0)
        × ((on_vote leader short_of_one 0 1 some_digest HotStuffPhaseTag.commit
              2).0.highest_qc_phase
            ≡ HotStuffPhaseTag.commit))
on_vote-Certifies_example =
    on_vote-Certifies leader short_of_one 0 1 some_digest HotStuffPhaseTag.commit 2

-- The follower, once the proposal of view 2 has made it the leader.
first_proposal-number_example :
    let s = run copy_digest follower init calls in
    (propose copy_digest follower s transfer).1 ≡ (
      accepted,
      broadcast_hotstuff follower (
          HotStuffMessage.propose s.view 1
            (digest copy_digest transfer)
            transfer
            s.highest_qc_view
            s.highest_qc_phase),
    )
unfolding run init leader_for_view
first_proposal-number_example =
    first_proposal-number copy_digest follower calls transfer (tt, (tt, (tt, tt))) refl

-- A proposal of view 2 reaches a follower of view 0.
abbrev later_proposal : HotStuffMessage
later_proposal = HotStuffMessage.propose 2 1 some_digest transfer 0 HotStuffPhaseTag.prepare

handle_hotstuff-Enters_example :
    ((handle_hotstuff follower fresh later_proposal).0.view ≡ fresh.view)
    ⊎ ((w : ViewNumber) × (Enters fresh (handle_hotstuff follower fresh later_proposal).0 w
          × Reason follower fresh
              (handle_hotstuff follower fresh later_proposal).0
              later_proposal
              w))
handle_hotstuff-Enters_example = handle_hotstuff-Enters follower fresh later_proposal
