-- ===== src/Recorder.antt =====
-- src/recorder.rs: `RecorderConfig`, `RecorderCore` and its handlers.
--
-- A handler takes the core and returns the core it leaves with its result, also where it fails
-- after it has changed something. `availability` is the trait object that the core holds, as a
-- function; what a fetching guard does to its own store is not part of the core's state.
pub mod Validation
pub mod Cases
pub mod Invariant
pub mod Restore
pub mod Attribution
pub mod Behaviour
pub mod Membership
use rust_quepaxa.Prelude.{
  ℕ, ◌≡◌, Bool, true, false, ◌&&◌, ◌||◌, not, List, [], ◌∷◌, Option, none, some, Eq, ◌==◌, ◌!=◌,
  nat_eq, list_eq, option_eq, eqb, ltb, leb, max, if◌then◌else◌, length, any,
}
use rust_quepaxa.Prelude.Maps.{
  BTreeMap, get, contains_key, insert, retain, keys, values, map_values,
}
use rust_quepaxa.Error.{
  Result, ok, err, ◌>>=◌, ◌>>◌, reject_if, for_each, unknown_replica, invalid_proposal,
  invalid_reconfiguration, configuration_mismatch, resource_limit, slot_pruned, schedule_mismatch,
  conflicting_decision, invalid_sender, active_recorder_slots, retained_decisions, zero_limits,
  decision_key_mismatch, slot_at_or_below_floor, leaders_do_not_match_slots, unknown_leader_binding,
  not_the_next_epoch, anchor_not_retained, later_slots_not_drained,
}
use rust_quepaxa.Types.{Proposal, Decision, decision_eq, RecordRequest, SlotIndex}
use rust_quepaxa.Types.Clock.{Step, round_one_phase_zero}
use rust_quepaxa.Types.Keys.{ReplicaId}
use rust_quepaxa.Cluster.{ClusterIdentity, cluster_eq, has_member, is_successor_of}
use rust_quepaxa.Cluster
use rust_quepaxa.Messages.{RecordReply, MembershipChange, validate_binding}
use rust_quepaxa.Isr.{IntervalSummaryRegister, IntervalSummarySnapshot, isr_record}
use rust_quepaxa.Isr
use Validation.{
  RecorderLimits, default_limits, RecorderConfig, contains_replica, validate_decision,
  validate_proposal, validate_isr_snapshot, validate_request,
}

-- `RecorderConfig::from_cluster`
unfoldable pub from_cluster : ReplicaId → ClusterIdentity → Result RecorderConfig
from_cluster id cluster =
    if not (has_member cluster id)
    then err (unknown_replica id)
    else ok (record { id = id; cluster = cluster; limits = default_limits })

-- `RecorderConfig::new`
unfoldable pub new_config : ReplicaId → List ReplicaId → ℕ → Result RecorderConfig
new_config id members max_faults = do
  cluster ← Cluster.new members max_faults
  from_cluster id cluster

unfoldable pub with_limits : RecorderConfig → RecorderLimits → Result RecorderConfig
with_limits self limits =
    if limits.max_active_slots == 0
      || limits.max_decisions == 0
      || limits.max_values_per_proposal == 0
      || limits.max_known_decisions == 0
      || ltb limits.max_step round_one_phase_zero
    then err (invalid_proposal zero_limits)
    else ok (record self { limits = limits })

pub record RecorderSnapshot (V : Type 0) : Type 0 where
  pub cluster : ClusterIdentity
  pub slots : BTreeMap (IntervalSummarySnapshot V)
  pub round_one_leaders : BTreeMap (Option ReplicaId)
  pub decisions : BTreeMap (Decision V)
  pub pruned_through : SlotIndex

pub record RecorderCore (V : Type 0) : Type 0 where
  pub config : RecorderConfig
  pub availability : List V → Result (Unit {0})
  pub slots : BTreeMap (IntervalSummaryRegister V)
  pub round_one_leaders : BTreeMap (Option ReplicaId)
  pub decisions : BTreeMap (Decision V)
  pub pruned_through : SlotIndex

module _ {V : Type 0} where
  -- `RecorderCore::new`
  unfoldable pub new : RecorderConfig → (List V → Result (Unit {0})) → RecorderCore V
  new config availability = record {
    config = config;
    availability = availability;
    slots = [];
    round_one_leaders = [];
    decisions = [];
    pruned_through = 0;
  }

  unfoldable pub snapshot : RecorderCore V → RecorderSnapshot V
  snapshot core = record {
    cluster = core.config.cluster;
    slots = map_values Isr.snapshot core.slots;
    round_one_leaders = core.round_one_leaders;
    decisions = core.decisions;
    pruned_through = core.pruned_through;
  }

  -- Takes all of the snapshot but its membership.
  unfoldable pub restore_snapshot_state : RecorderCore V → RecorderSnapshot V → RecorderCore V
  restore_snapshot_state core snapshot = record core {
    slots = map_values Isr.restore snapshot.slots;
    round_one_leaders = snapshot.round_one_leaders;
    decisions = snapshot.decisions;
    pruned_through = snapshot.pruned_through;
  }

  unfoldable pub prune_through : RecorderCore V → SlotIndex → RecorderCore V
  prune_through core slot = record core {
    slots = retain (ltb slot) core.slots;
    round_one_leaders = retain (ltb slot) core.round_one_leaders;
    decisions = retain (ltb slot) core.decisions;
    pruned_through = max core.pruned_through slot;
  }

  unfoldable pub install_state_transfer_floor : RecorderCore V → SlotIndex → RecorderCore V
  unfolding prune_through
  install_state_transfer_floor core slot = prune_through core slot

  unfoldable pub status : RecorderCore V → SlotIndex → Option Step
  status core slot = elim (get slot core.slots) [ none ↦ none | some r ↦ some r.step ]

-- A bound leader that is not in the membership.
abbrev pub unknown_leader : RecorderConfig → Option ReplicaId → Bool
unknown_leader config none = false
unknown_leader config (some leader) = not (contains_replica config leader)

-- `get(..).is_some_and(|leader| *leader != request.round_one_leader)`
abbrev pub is_bound_elsewhere : Option (Option ReplicaId) → Option ReplicaId → Bool
is_bound_elsewhere none leader = false
is_bound_elsewhere (some bound) leader = bound != leader

-- `entry(slot).or_default()`, on the entry that was found
abbrev pub or_default :
    {V : Type 0} → Option (IntervalSummaryRegister V) → IntervalSummaryRegister V
or_default none = Isr.new
or_default (some register) = register

-- `entry(slot).or_insert(leader)`
unfoldable pub or_insert :
    SlotIndex → Option ReplicaId → BTreeMap (Option ReplicaId) → BTreeMap (Option ReplicaId)
or_insert slot leader leaders =
    if contains_key slot leaders then leaders else insert slot leader leaders

module _ {V : Type 0} ⦃e : Eq V⦄ where
  -- The loop of `restore` over the retained decisions.
  unfoldable pub check_decisions :
      RecorderConfig → SlotIndex → BTreeMap (Decision V) → Result (Unit {0})
  check_decisions config floor [] = ok tt
  check_decisions config floor ((slot, decision) ∷ rest) =
      let later = check_decisions config floor rest in
      if slot != decision.slot || leb slot floor
      then err (invalid_proposal decision_key_mismatch)
      else (validate_decision config decision >> later)

  -- What `restore` checks of a snapshot.
  unfoldable pub check_snapshot : RecorderConfig → RecorderSnapshot V → Result (Unit {0})
  check_snapshot config snapshot = do
    reject_if (snapshot.cluster != config.cluster) configuration_mismatch
    reject_if (ltb config.limits.max_active_slots (length snapshot.slots))
        (resource_limit active_recorder_slots config.limits.max_active_slots)
    reject_if (ltb config.limits.max_decisions (length snapshot.decisions))
        (resource_limit retained_decisions config.limits.max_decisions)
    check_decisions config snapshot.pruned_through snapshot.decisions
    reject_if (any (λ slot. leb slot snapshot.pruned_through) (keys snapshot.slots))
        (invalid_proposal slot_at_or_below_floor)
    reject_if (keys snapshot.round_one_leaders != keys snapshot.slots)
        (invalid_proposal leaders_do_not_match_slots)
    reject_if (any (unknown_leader config) (values snapshot.round_one_leaders))
        (invalid_proposal unknown_leader_binding)
    for_each (validate_isr_snapshot config) (values snapshot.slots)

  unfoldable pub restore :
      RecorderConfig → (List V → Result (Unit {0})) → RecorderSnapshot V → Result (RecorderCore V)
  restore config availability snapshot = do
    check_snapshot config snapshot
    ok (restore_snapshot_state (new config availability) snapshot)

  unfoldable pub inform_decision : RecorderCore V → Decision V → RecorderCore V × Result (Unit {0})
  inform_decision core decision = elim (validate_decision core.config decision) [
    | err e ↦ (core, err e)
    | ok _ ↦
        if leb decision.slot core.pruned_through
        then (core, ok tt)
        else elim (get decision.slot core.decisions) [
          | some existing ↦
              if existing.value_ids != decision.value_ids
              then (core, err (conflicting_decision decision.slot))
              else (core, ok tt)
          | none ↦
              if length core.decisions == core.config.limits.max_decisions
              then (core, err (resource_limit retained_decisions core.config.limits.max_decisions))
              else (record core { decisions = insert decision.slot decision core.decisions }, ok tt)
        ]
  ]

  -- `for decision in decisions { self.inform_decision(decision)?; }`
  unfoldable pub inform_decisions :
      RecorderCore V → List (Decision V) → RecorderCore V × Result (Unit {0})
  inform_decisions core [] = (core, ok tt)
  inform_decisions core (decision ∷ decisions) =
      let (told, result) = inform_decision core decision in
      elim result [ err e ↦ (told, err e) | ok _ ↦ inform_decisions told decisions ]

  unfoldable pub install_membership :
      RecorderCore V → MembershipChange V → RecorderCore V × Result (Unit {0})
  install_membership core change = elim (validate_binding change) [
    | err e ↦ (core, err e)
    | ok _ ↦
        if core.config.cluster == change.next
        then (core, ok tt)
        else if not (is_successor_of change.next core.config.cluster)
        then (core, err (invalid_reconfiguration not_the_next_epoch))
        else elim (get change.anchor.slot core.decisions) [
          | none ↦ (core, err (invalid_reconfiguration anchor_not_retained))
          | some anchor ↦
              if anchor != change.anchor
              then (core, err (conflicting_decision change.anchor.slot))
              else if any (ltb change.anchor.slot) (keys core.slots)
                  || any (ltb change.anchor.slot) (keys core.decisions)
              then (core, err (invalid_reconfiguration later_slots_not_drained))
              else (record core { config = record (core.config) { cluster = change.next } }, ok tt)
        ]
  ]

  -- The checks of `record` before it changes anything.
  unfoldable pub admit : RecorderCore V → RecordRequest V → Result (Unit {0})
  admit core request = do
    validate_request core.config request
    reject_if (leb request.slot core.pruned_through) (slot_pruned request.slot)
    reject_if
        (is_bound_elsewhere (get request.slot core.round_one_leaders) request.round_one_leader)
        (schedule_mismatch request.slot)
    core.availability request.proposal.value_ids

  -- The part of `record` behind the known decisions.
  unfoldable pub accept : RecorderCore V → RecordRequest V → RecorderCore V × Result (RecordReply V)
  accept core request =
      if not (contains_key request.slot core.slots)
        && length core.slots == core.config.limits.max_active_slots
      then (core, err (resource_limit active_recorder_slots core.config.limits.max_active_slots))
      else let (register, summary) =
          isr_record (or_default (get request.slot core.slots)) request.step request.proposal in
        (
          record core {
            slots = insert request.slot register core.slots;
            round_one_leaders =
                or_insert request.slot request.round_one_leader core.round_one_leaders;
          },
          ok (record {
            recorder = core.config.id;
            cluster = core.config.cluster;
            summary = summary;
            decision = get request.slot core.decisions;
          }),
        )

  unfoldable pub record_request :
      RecorderCore V → RecordRequest V → RecorderCore V × Result (RecordReply V)
  record_request core request = elim (admit core request) [
    | err e ↦ (core, err e)
    | ok _ ↦
        let (told, result) = inform_decisions core request.known_decisions in
        elim result [ err e ↦ (told, err e) | ok _ ↦ accept told request ]
  ]

  unfoldable pub record_from :
      RecorderCore V → ReplicaId → RecordRequest V → RecorderCore V × Result (RecordReply V)
  record_from core authenticated_sender request =
      if authenticated_sender != request.sender
      then (core, err (invalid_sender request.sender))
      else record_request core request
