-- ===== src/Proposer/Replies.antt =====
-- src/proposer.rs: what a pass of the loop of `propose` makes of the replies of a quorum.
use rust_quepaxa.Prelude.{
  Bool, false, ◌||◌, not, List, [], ◌∷◌, Option, none, some, Eq, ◌==◌, ◌!=◌, nat_eq, list_eq,
  option_eq, ltb, leb, if◌then◌else◌, all, is_empty,
}
use rust_quepaxa.Error.{
  Result, ok, err, ◌>>=◌, ok_or, missing_proposal, step_overflow, invalid_proposal,
  decision_for_another_slot,
}
use rust_quepaxa.Types.{Proposal, proposal_eq, Decision, SlotIndex, new_decision}
use rust_quepaxa.Types.Clock.{Step, round_one_phase_zero, phase, checked_next}
use rust_quepaxa.Types.Keys.{ReplicaId, ProposalKey, key_eq, is_leader_priority}
use rust_quepaxa.Types.Selection.{max_proposal_by_key}
use rust_quepaxa.Messages.{RecordReply}

module _ {V : Type 0} where
  abbrev pub firsts : List (RecordReply V) → List (Proposal V)
  firsts [] = []
  firsts (r ∷ rs) = elim r.summary.first [ none ↦ firsts rs | some p ↦ p ∷ firsts rs ]

  abbrev pub priors : List (RecordReply V) → List (Proposal V)
  priors [] = []
  priors (r ∷ rs) = elim r.summary.prior_aggregate [ none ↦ priors rs | some p ↦ p ∷ priors rs ]

  -- `find_map(|reply| reply.decision.as_ref())`
  abbrev pub reported_decision : List (RecordReply V) → Option (Decision V)
  reported_decision [] = none
  reported_decision (r ∷ rs) = elim r.decision [ none ↦ reported_decision rs | some d ↦ some d ]

  -- `max_by_key(|reply| reply.summary.step)`: the last of several maxima
  abbrev pub latest_from : RecordReply V → List (RecordReply V) → RecordReply V
  latest_from best [] = best
  latest_from best (r ∷ rs) =
      latest_from (if leb best.summary.step r.summary.step then r else best) rs

  abbrev pub latest : List (RecordReply V) → Option (RecordReply V)
  latest [] = none
  latest (r ∷ rs) = some (latest_from r rs)

  abbrev pub same_first : ProposalKey → RecordReply V → Bool
  same_first key r = elim r.summary.first [ none ↦ false | some p ↦ p.key == key ]

  unfoldable pub fast_path_winner :
      Step → List (RecordReply V) → Option ReplicaId → Option (Proposal V)
  fast_path_winner step [] leader = none
  fast_path_winner step (reply ∷ rest) leader =
      if step != round_one_phase_zero then none else elim reply.summary.first [
        | none ↦ none
        | some winner ↦
            if not (is_leader_priority winner.key.priority)
            then none
            else if leader != some winner.key.proposer_id
            then none
            else if all (same_first winner.key) (reply ∷ rest)
            then some winner
            else none
      ]

-- What one pass of the loop does.
pub data Outcome (V : Type 0) : Type 0 where
  decided : Decision V → Outcome V
  again : Step → Proposal V → Outcome V

module _ {V : Type 0} ⦃e : Eq V⦄ where
  -- `Decision::new(slot, proposal.value_ids, proposal.key.proposer_id, step)`
  abbrev pub decide_on : SlotIndex → Step → Proposal V → Result (Outcome V)
  decide_on slot step p = do
    decision ← new_decision slot p.value_ids p.key.proposer_id step
    ok (decided decision)

  -- `step = step.checked_next().ok_or(StepOverflow)?`
  abbrev pub move_on : Step → Proposal V → Result (Outcome V)
  move_on step p = do following ← ok_or (checked_next step) step_overflow; ok (again following p)

  -- The `match step.phase()` over replies that are all at the step of the request.
  unfoldable pub conclude_phase :
      SlotIndex → Option ReplicaId → Step → Proposal V → List (RecordReply V) → Result (Outcome V)
  conclude_phase slot leader step proposal replies =
      if phase step == 0
      then elim (fast_path_winner step replies leader) [
        | some winner ↦ decide_on slot step winner
        | none ↦ do
          best ← ok_or (max_proposal_by_key (firsts replies)) missing_proposal
          move_on step best
      ]
      else if phase step == 2
      then elim (max_proposal_by_key (priors replies)) [
        | none ↦ move_on step proposal
        | some best ↦
            if proposal == best then decide_on slot step proposal else move_on step proposal
      ]
      else if phase step == 3
      then elim (max_proposal_by_key (priors replies)) [
        | none ↦ move_on step proposal
        | some best ↦ move_on step best
      ]
      else move_on step proposal

  -- The rest of the loop's body, from the replies of a quorum.
  unfoldable pub advance :
      SlotIndex → Option ReplicaId → Step → Proposal V → List (RecordReply V) → Result (Outcome V)
  advance slot leader step proposal replies = elim (reported_decision replies) [
    | some decision ↦
        if decision.slot != slot || is_empty decision.value_ids
        then err (invalid_proposal decision_for_another_slot)
        else ok (decided decision)
    | none ↦
        if all (λ r. r.summary.step == step) replies
        then conclude_phase slot leader step proposal replies
        else elim (latest replies) [
          | none ↦ ok (again step proposal)
          | some reply ↦
              if ltb step reply.summary.step
              then elim reply.summary.first [
                | none ↦ err missing_proposal
                | some first ↦ ok (again reply.summary.step first)
              ]
              else ok (again step proposal)
        ]
  ]
