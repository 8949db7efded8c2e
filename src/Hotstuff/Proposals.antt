-- ===== src/Hotstuff/Proposals.antt =====
-- src/consensus/hotstuff/state.rs: proposals, made and received.
use bft_consensus_bench.Base.{true, not, List, [], ◌∷◌, some, ltb, ◌==◌, if◌then◌else◌, add_u64}
use bft_consensus_bench.Base.NodeSet
use bft_consensus_bench.Base.Map
use bft_consensus_bench.Types.{ViewNumber, SequenceNumber, Payload, Digest, Sha256, digest}
use bft_consensus_bench.Network.{NetworkMessage, ProtocolMessage, HotStuffMessage, HotStuffPhaseTag}
use bft_consensus_bench.Consensus.{ProposeResult, accepted, not_leader, msg_to}
use bft_consensus_bench.Hotstuff.State.{
  Phase, new_slot, HotStuffNode, HotStuffState, view_change_timeout_ticks, leader_for_view,
  broadcast_hotstuff, enter_new_view,
}

-- The leader votes for its own proposal.
unfoldable pub assign_sequence :
    Sha256
    → HotStuffNode
    → HotStuffState
    → Payload
    → HotStuffState × (ProposeResult × List NetworkMessage)
unfolding new_slot
assign_sequence sha256 n s payload =
    let seq = s.next_sequence in
    let slot = record (new_slot s.view seq) {
      phase = Phase.prepare;
      prepare_voters = NodeSet.insert n.id [];
    } in
    (
      record s {
        next_sequence = add_u64 s.next_sequence 1;
        slots = Map.insert seq slot s.slots;
        pending_payloads = Map.insert seq payload s.pending_payloads;
      },
      (
        accepted,
        broadcast_hotstuff n (
            HotStuffMessage.propose s.view seq (digest sha256 payload) payload s.highest_qc_view
              s.highest_qc_phase),
      ),
    )

unfoldable pub propose :
    Sha256
    → HotStuffNode
    → HotStuffState
    → Payload
    → HotStuffState × (ProposeResult × List NetworkMessage)
unfolding assign_sequence
propose sha256 n s payload =
    let leader = leader_for_view n s.view in
    if not (leader == n.id)
    then (s, (not_leader (some leader), []))
    else assign_sequence sha256 n s payload

unfoldable pub send_vote :
    HotStuffNode → ViewNumber → SequenceNumber → Digest → HotStuffPhaseTag → List NetworkMessage
send_vote n view sequence d phase =
    msg_to n.id (leader_for_view n view)
      (ProtocolMessage.hotstuff (HotStuffMessage.vote view sequence d phase n.id))
    ∷ []

-- A proposal of a higher view moves the replica there.
unfoldable pub advance_view : HotStuffState → ViewNumber → HotStuffState
unfolding enter_new_view
advance_view s view =
    if ltb s.view view then record (enter_new_view s view) { current_view = view } else s

unfoldable pub open_slot : HotStuffState → ViewNumber → SequenceNumber → Payload → HotStuffState
unfolding new_slot
open_slot s view sequence payload = record s {
  leader_active = true;
  view_change_timeout = view_change_timeout_ticks;
  slots = Map.insert sequence (record (new_slot view sequence) { phase = Phase.prepare }) s.slots;
  pending_payloads = Map.insert sequence payload s.pending_payloads;
}

unfoldable pub on_propose :
    HotStuffNode
    → HotStuffState
    → ViewNumber
    → SequenceNumber
    → Digest
    → Payload
    → HotStuffState × List NetworkMessage
unfolding advance_view open_slot send_vote
on_propose n s view sequence d payload =
    let t = advance_view s view in
    if not (view == t.view)
    then (t, [])
    else (open_slot t view sequence payload, send_vote n view sequence d HotStuffPhaseTag.prepare)
