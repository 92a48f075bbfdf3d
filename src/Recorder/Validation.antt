-- ===== src/Recorder/Validation.antt =====
-- src/recorder.rs: the limits, the configuration, and the checks that need nothing else.
use rust_quepaxa.Prelude.{
  ℕ, Bool, true, false, ◌||◌, not, Option, none, some, Eq, ltb, length, is_empty, has_duplicates,
}
use rust_quepaxa.Error.{
  Result, ok, ◌>>◌, reject_if, empty_decision, empty_proposal, missing_proposal, invalid_sender,
  unknown_replica, invalid_step, resource_limit, invalid_proposal, decision_value_ids,
  proposal_value_ids, known_decisions_in_one_request, duplicate_decision_values,
  duplicate_proposal_values,
}
use rust_quepaxa.Types.{Proposal, Decision, RecordRequest}
use rust_quepaxa.Types.Clock.{Step, round_one_phase_zero}
use rust_quepaxa.Types.Keys.{ReplicaId}
use rust_quepaxa.Cluster.{ClusterIdentity, has_member}
use rust_quepaxa.Isr.{IntervalSummarySnapshot}

pub record RecorderLimits : Type 0 where
  pub max_active_slots : ℕ
  pub max_decisions : ℕ
  pub max_values_per_proposal : ℕ
  pub max_known_decisions : ℕ
  pub max_step : Step

-- `RecorderLimits::default`
abbrev pub default_limits : RecorderLimits
default_limits = record {
  max_active_slots = 4096;
  max_decisions = 4096;
  max_values_per_proposal = 1024;
  max_known_decisions = 256;
  max_step = 1027;
}

pub record RecorderConfig : Type 0 where
  pub id : ReplicaId
  pub cluster : ClusterIdentity
  pub limits : RecorderLimits

unfoldable pub contains_replica : RecorderConfig → ReplicaId → Bool
contains_replica config replica = has_member config.cluster replica

-- `if let Some(leader) = … && !contains(leader)`
abbrev pub check_leader : RecorderConfig → Option ReplicaId → Result (Unit {0})
check_leader config none = ok tt
check_leader config (some leader) =
    reject_if (not (contains_replica config leader)) (unknown_replica leader)

module _ {V : Type 0} ⦃e : Eq V⦄ where
  unfoldable pub validate_decision : RecorderConfig → Decision V → Result (Unit {0})
  validate_decision config decision = do
    reject_if (is_empty decision.value_ids) empty_decision
    reject_if (not (contains_replica config decision.proposer)) (invalid_sender decision.proposer)
    reject_if (ltb config.limits.max_step decision.decided_step)
        (invalid_step decision.decided_step config.limits.max_step)
    reject_if (ltb config.limits.max_values_per_proposal (length decision.value_ids))
        (resource_limit decision_value_ids config.limits.max_values_per_proposal)
    reject_if (has_duplicates decision.value_ids) (invalid_proposal duplicate_decision_values)

  unfoldable pub validate_proposal : RecorderConfig → Proposal V → Result (Unit {0})
  validate_proposal config proposal = do
    reject_if (not (contains_replica config proposal.key.proposer_id))
        (invalid_sender proposal.key.proposer_id)
    reject_if (is_empty proposal.value_ids) empty_proposal
    reject_if (ltb config.limits.max_values_per_proposal (length proposal.value_ids))
        (resource_limit proposal_value_ids config.limits.max_values_per_proposal)
    reject_if (has_duplicates proposal.value_ids) (invalid_proposal duplicate_proposal_values)

  abbrev pub is_none : Option (Proposal V) → Bool
  is_none none = true
  is_none (some p) = false

  -- `into_iter().flatten()` on one entry
  abbrev pub validate_present : RecorderConfig → Option (Proposal V) → Result (Unit {0})
  validate_present config none = ok tt
  validate_present config (some proposal) = validate_proposal config proposal

  unfoldable pub validate_isr_snapshot :
      RecorderConfig → IntervalSummarySnapshot V → Result (Unit {0})
  validate_isr_snapshot config state = do
    reject_if (ltb state.step round_one_phase_zero || ltb config.limits.max_step state.step)
        (invalid_step state.step config.limits.max_step)
    reject_if (is_none state.first || is_none state.current_aggregate) missing_proposal
    validate_present config state.first
    validate_present config state.current_aggregate
    validate_present config state.prior_aggregate

  unfoldable pub validate_request : RecorderConfig → RecordRequest V → Result (Unit {0})
  validate_request config request = do
    reject_if (not (contains_replica config request.sender)) (invalid_sender request.sender)
    check_leader config request.round_one_leader
    validate_proposal config request.proposal
    reject_if (ltb request.step round_one_phase_zero || ltb config.limits.max_step request.step)
        (invalid_step request.step config.limits.max_step)
    reject_if (ltb config.limits.max_known_decisions (length request.known_decisions))
        (resource_limit known_decisions_in_one_request config.limits.max_known_decisions)
