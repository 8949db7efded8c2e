-- ===== src/Pbft/Timer.antt =====
-- The timer of a PBFT replica that hears nothing (src/consensus/pbft/state.rs).
use bft_consensus_bench.Base.{
  ℕ, zero, suc, ◌-◌, ◌<◌, ◌≡◌, refl, inl, inr, Bool-cases, ==_iff, ◌∙◌, ap, true, false, List, [],
  ◌++◌, arith, ◌==◌, add_u64,
}
use bft_consensus_bench.Network.{NetworkMessage, PbftMessage}
use bft_consensus_bench.Pbft.State.{PbftNode, PbftState, primary_for_view, broadcast_pbft}
use bft_consensus_bench.Pbft.ViewChange.{add_vote, suspect_primary, tick}
use mathlib.Core.List.{append-nil}

-- So many ticks, and all that is sent in them.
unfoldable pub tick_run : PbftNode → PbftState → ℕ → PbftState × List NetworkMessage
unfolding tick
tick_run n s zero = (s, [])
tick_run n s (suc k) = let (t, out) = tick n s in let (u, more) = tick_run n t k in (u, out ++ more)

-- In a view change the timer is off.
waiting-tick_run :
    (n : PbftNode) (s : PbftState) (k : ℕ)
    → s.view_change_in_progress ≡ true
    → tick_run n s k ≡ (s, [])
unfolding tick_run
waiting-tick_run n s zero busy = refl
waiting-tick_run n s (suc k) busy = ground (arith, waiting-tick_run n s k busy)

abbrev pub suspicion : PbftNode → PbftState → List NetworkMessage
suspicion n s =
    broadcast_pbft n (PbftMessage.view_change (add_u64 s.view 1) n.id s.highest_committed_seq)

tick_run-step :
    (n : PbftNode) (s t : PbftState) (k : ℕ) (out : List NetworkMessage)
    → tick n s ≡ (t, out)
    → ((tick_run n s (suc k)).0 ≡ (tick_run n t k).0)
      × ((tick_run n s (suc k)).1 ≡ out ++ (tick_run n t k).1)
unfolding tick_run
tick_run-step n s t k out e =
    (ap (λ r. (tick_run n r.0 k).0) e, ap (λ r. r.1 ++ (tick_run n r.0 k).1) e)

-- The tick that finds the timer at 0.
suspect_step :
    (n : PbftNode) (s : PbftState)
    → s.view_change_timeout ≡ 0
    → (primary_for_view n s.view == n.id) ≡ false
    → s.view_change_in_progress ≡ false
    → (t : PbftState) × (tick n s ≡ (t, suspicion n s)) × (t.view_change_in_progress ≡ true)
unfolding tick suspect_primary add_vote
suspect_step n s timeout other calm = ((suspect_primary n s).0, ground arith, refl)

-- A replica that does not lead, is in no view change and hears nothing: in any number of ticks
-- larger than its timer it announces its vote for the next view to every peer, exactly once, sends
-- nothing else, and is in the view change from then on, in which it does not announce again.
pub tick_run-suspects :
    (n : PbftNode) (s : PbftState) (k : ℕ)
    → s.view_change_timeout < k
    → (primary_for_view n s.view == n.id) ≡ false
    → s.view_change_in_progress ≡ false
    → ((tick_run n s k).1 ≡ suspicion n s) × ((tick_run n s k).0.view_change_in_progress ≡ true)
tick_run-suspects n s zero lt other calm = absurd (omega arith)
tick_run-suspects n s (suc k) lt other calm = elim (Bool-cases (s.view_change_timeout == 0)) [
  | inl now ↦
      let (t, e, busy) = suspect_step n s ((==_iff _ _).0 now) other calm in
      let (state, sent) = tick_run-step n s t k (suspicion n s) e in
      let rest = waiting-tick_run n t k busy in
      (
        sent ∙ ap (λ r. suspicion n s ++ r.1) rest ∙ append-nil (suspicion n s),
        ap (λ u. u.view_change_in_progress) (state ∙ ap (λ r. r.0) rest) ∙ busy,
      )
  | inr later ↦
      let t = record s { view_change_timeout = s.view_change_timeout - 1 } in
      let (state, sent) = tick_run-step n s t k [] (unfold tick in (ground arith)) in
      let rest = tick_run-suspects n t k (ground arith) other calm in
      (sent ∙ rest.0, ap (λ u. u.view_change_in_progress) state ∙ rest.1)
]
