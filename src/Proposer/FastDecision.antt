-- ===== src/Proposer/FastDecision.antt =====
-- src/proposer.rs: the fast path of the leader of round one.
use rust_quepaxa.Prelude.{
  ℕ, ◌≡◌, refl, true, false, List, [], ◌∷◌, Option, none, some, arith, Eq, nat_eq, option_eq,
  option_beq_iff, beq_refl, all, is_empty, All,
}
use rust_quepaxa.Error.{ok}
use rust_quepaxa.Types.{Proposal, SlotIndex, new_decision}
use rust_quepaxa.Types.Clock.{phase, round_one_phase_zero}
use rust_quepaxa.Types.Keys.{ReplicaId, key_eq, priority_max, is_leader_priority}
use rust_quepaxa.Messages.{RecordReply}
use rust_quepaxa.Cluster.{ClusterIdentity}
use rust_quepaxa.Proposer.{
  decided, pass, advance, conclude_phase, fast_path_winner, reported_decision, same_first,
}
use rust_quepaxa.Proposer.Advance.{decision_of, all_at}
use rust_quepaxa.Proposer.Collect.{Arrivals, collect_quorum}

module _ {V : Type 0} where
  -- A reply at phase zero of round one with the proposal as the first one and no decision.
  abbrev pub Welcomes : Proposal V → RecordReply V → Type 0
  Welcomes p r =
      (r.summary.step ≡ round_one_phase_zero) × (r.summary.first ≡ some p) × (r.decision ≡ none)

  welcoming :
      (p : Proposal V) (rs : List (RecordReply V))
      → All (Welcomes p) rs
      → (reported_decision rs ≡ none)
        × (all_at round_one_phase_zero rs ≡ true)
        × (all (same_first p.key) rs ≡ true)
  welcoming p [] a = (refl, refl, refl)
  welcoming p (r ∷ rs) a = ground (arith, a.0, welcoming p rs a.1, beq_refl p.key)

  fast_path_winner-leader :
      (p : Proposal V) (r : RecordReply V) (rs : List (RecordReply V)) (leader : Option ReplicaId)
      → All (Welcomes p) (r ∷ rs)
      → leader ≡ some p.key.proposer_id
      → p.key.priority ≡ priority_max
      → fast_path_winner round_one_phase_zero (r ∷ rs) leader ≡ some p
  unfolding fast_path_winner is_leader_priority
  fast_path_winner-leader p r rs leader a l m =
      ground
        (arith, a.0, l, m, welcoming p (r ∷ rs) a, option_beq_iff leader (some p.key.proposer_id))

module _ {V : Type 0} ⦃e : Eq V⦄ where
  -- The leader of round one decides its own proposal in its first pass, where the replies of a
  -- quorum arrive, each with its proposal as the first one of phase zero and without a decision.
  pub leader_decides :
      (quorum : ℕ) (cluster : Option ClusterIdentity) (slot : SlotIndex) (leader : Option ReplicaId)
      (p : Proposal V) (arrivals : Arrivals V) (r : RecordReply V) (rs : List (RecordReply V))
      → collect_quorum quorum cluster arrivals ≡ ok (r ∷ rs)
      → All (Welcomes p) (r ∷ rs)
      → leader ≡ some p.key.proposer_id
      → p.key.priority ≡ priority_max
      → is_empty p.value_ids ≡ false
      → pass quorum cluster slot leader round_one_phase_zero p arrivals
        ≡ ok (decided (decision_of slot round_one_phase_zero p))
  unfolding advance conclude_phase new_decision phase
  leader_decides quorum cluster slot leader p arrivals r rs c a l m n =
      let w = welcoming p (r ∷ rs) a in
      rw c (ground (arith, w, n, fast_path_winner-leader p r rs leader a l m))
