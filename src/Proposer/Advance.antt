-- ===== src/Proposer/Advance.antt =====
-- src/proposer.rs: what a pass of the loop concludes from the replies of a quorum.
use rust_quepaxa.Prelude.{
  ◌≡◌, sym, ◌∙◌, inl, inr, Bool, true, false, List, [], ◌∷◌, Option, some, arith, Eq, ◌==◌, nat_eq,
  option_eq, option_beq_iff, all, is_empty, All, In, here, refl, Option-cases, Bool-cases, ◌≢◌, ap,
  inl, inr,
}
use rust_quepaxa.Error.{ok}
use rust_quepaxa.Types.{Proposal, proposal_beq_iff, proposal_eq, Decision, SlotIndex, new_decision}
use rust_quepaxa.Types.Clock.{Step, phase, checked_next, round_one_phase_zero}
use rust_quepaxa.Types.Keys.{
  ReplicaId, ProposalKey, key_beq_iff, key_eq, priority_max, is_leader_priority,
}
use rust_quepaxa.Types.Selection.{max_proposal_by_key}
use rust_quepaxa.Messages.{RecordReply}
use rust_quepaxa.Proposer.{
  decided, fast_path_winner, conclude_phase, advance, priors, reported_decision, same_first,
  decide_on, move_on,
}

module _ {V : Type 0} where
  abbrev pub all_at : Step → List (RecordReply V) → Bool
  all_at step replies = all (λ r. r.summary.step == step) replies

  abbrev pub decision_of : SlotIndex → Step → Proposal V → Decision V
  decision_of slot step p = record {
    slot = slot;
    value_ids = p.value_ids;
    proposer = p.key.proposer_id;
    decided_step = step;
  }

  -- A reply whose first proposal has the given key.
  abbrev pub HasFirst : ProposalKey → RecordReply V → Type 0
  HasFirst key r = (p : Proposal V) × (r.summary.first ≡ some p) × (p.key ≡ key)

  all-HasFirst :
      (key : ProposalKey) (rs : List (RecordReply V))
      → all (same_first key) rs ≡ true
      → All (HasFirst key) rs
  all-HasFirst key [] h = tt
  all-HasFirst key (r ∷ rs) h = elim (Option-cases r.summary.first) [
    | inl e ↦ absurd (ground (arith, e, h))
    | inr (p, e) ↦ (
      (p, e, ground (arith, e, h, key_beq_iff p.key key)),
      all-HasFirst key rs (ground (arith, h)),
    )
  ]

  -- The fast path is taken in phase zero of round one only, on a proposal of the agreed leader at
  -- the reserved priority, which every reply names as its first.
  pub fast_path_winner_sound :
      (step : Step) (replies : List (RecordReply V)) (leader : Option ReplicaId) (w : Proposal V)
      → fast_path_winner step replies leader ≡ some w
      → (step ≡ round_one_phase_zero)
        × (leader ≡ some w.key.proposer_id)
        × (w.key.priority ≡ priority_max)
        × All (HasFirst w.key) replies
        × ((r : RecordReply V) × In r replies × (r.summary.first ≡ some w))
  unfolding fast_path_winner is_leader_priority
  fast_path_winner_sound step [] leader w h = absurd (cc)
  fast_path_winner_sound step (reply ∷ rest) leader w h = elim (Option-cases reply.summary.first) [
    | inl e ↦ absurd (ground (arith, e, h))
    | inr (p, e) ↦
        let agreed : (w ≡ p)
            × (all (same_first w.key) (reply ∷ rest) ≡ true)
            × (step ≡ 4)
            × (leader ≡ some w.key.proposer_id)
            × (w.key.priority ≡ priority_max) =
          ground (arith, e, h, option_beq_iff leader (some p.key.proposer_id)) in
        (
          agreed.2,
          agreed.3,
          agreed.4,
          all-HasFirst w.key (reply ∷ rest) agreed.1,
          (reply, here refl, e ∙ ap some (sym agreed.0)),
        )
  ]

module _ {V : Type 0} ⦃e : Eq V⦄ where
  -- Why a pass over `replies` may decide `d`: a reply reports it, or all replies are at the step of
  -- the request and either the fast path takes the leader's proposal, or the proposal is the best
  -- that the quorum knows of the step before, in phase two.
  pub data Grounds (slot : SlotIndex) (leader : Option ReplicaId) (step : Step)
      (proposal : Proposal V) (replies : List (RecordReply V)) (d : Decision V) : Type 0 where
    reported :
        reported_decision replies ≡ some d
        → d.slot ≡ slot
        → is_empty d.value_ids ≡ false
        → Grounds slot leader step proposal replies d
    fast :
        (w : Proposal V)
        → step ≡ round_one_phase_zero
        → d ≡ decision_of slot step w
        → leader ≡ some d.proposer
        → w.key.priority ≡ priority_max
        → All (HasFirst w.key) replies
        → ((r : RecordReply V) × In r replies × (r.summary.first ≡ some w))
        → is_empty d.value_ids ≡ false
        → all_at step replies ≡ true
        → Grounds slot leader step proposal replies d
    settled :
        phase step ≡ 2
        → d ≡ decision_of slot step proposal
        → max_proposal_by_key (priors replies) ≡ some proposal
        → is_empty d.value_ids ≡ false
        → all_at step replies ≡ true
        → Grounds slot leader step proposal replies d

  decide_on-decides :
      (slot : SlotIndex) (step : Step) (p : Proposal V) (d : Decision V)
      → decide_on slot step p ≡ ok (decided d)
      → (d ≡ decision_of slot step p) × (is_empty d.value_ids ≡ false)
  unfolding new_decision
  decide_on-decides slot step p d h = ground (arith, h)

  move_on_decides_nothing :
      (step : Step) (p : Proposal V) (d : Decision V) → move_on step p ≢ ok (decided d)
  unfolding checked_next
  move_on_decides_nothing step p d h = ground (arith, h)

  conclude_phase-Grounds :
      (slot : SlotIndex) (leader : Option ReplicaId) (step : Step) (p : Proposal V)
      (replies : List (RecordReply V)) (d : Decision V)
      → all_at step replies ≡ true
      → conclude_phase slot leader step p replies ≡ ok (decided d)
      → Grounds slot leader step p replies d
  unfolding conclude_phase checked_next
  conclude_phase-Grounds slot leader step p replies d a h = elim (Bool-cases (phase step == 0)) [
    | inl k ↦ elim (Option-cases (fast_path_winner step replies leader)) [
      | inl m ↦ absurd (ground (arith, k, m, h))
      | inr (w, m) ↦
          let sound = fast_path_winner_sound step replies leader w m in
          let made = decide_on-decides slot step w d (ground (arith, k, m, h)) in
          fast w sound.0 made.0 (ground (arith, sound.1, made.0)) sound.2 sound.3 sound.4 made.1 a
    ]
    | inr k ↦ elim (Option-cases (max_proposal_by_key (priors replies))) [
      | inl m ↦ absurd (ground (arith, k, m, h))
      | inr (best, m) ↦
          let facts : (phase step ≡ 2) × (p ≡ best) × (decide_on slot step p ≡ ok (decided d)) =
            ground (arith, k, m, h, proposal_beq_iff p best) in
          let made = decide_on-decides slot step p d facts.2 in
          settled facts.0 made.0 (m ∙ ap some (sym facts.1)) made.1 a
    ]
  ]

  -- A pass decides only on one of the three grounds.
  pub advance-Grounds :
      (slot : SlotIndex) (leader : Option ReplicaId) (step : Step) (p : Proposal V)
      (replies : List (RecordReply V)) (d : Decision V)
      → advance slot leader step p replies ≡ ok (decided d)
      → Grounds slot leader step p replies d
  unfolding advance
  advance-Grounds slot leader step p replies d h = elim (Option-cases (reported_decision replies)) [
    | inr (q, k) ↦
        let facts : (q ≡ d) × (d.slot ≡ slot) × (is_empty d.value_ids ≡ false) =
          ground (arith, k, h) in
        reported (k ∙ ap some facts.0) facts.1 facts.2
    | inl k ↦ elim (Bool-cases (all_at step replies)) [
      | inl a ↦ conclude_phase-Grounds slot leader step p replies d a (ground (arith, k, a, h))
      | inr a ↦ absurd (ground (arith, k, a, h))
    ]
  ]
