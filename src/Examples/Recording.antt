-- ===== src/Examples/Recording.antt =====
-- The recorder and its durable wrapper at concrete inputs.
use rust_quepaxa.Prelude.{
  ℕ, ◌≡◌, refl, subst, ap, ◌⊎◌, true, false, [], ◌∷◌, none, some, arith, nat_eq, eqb, if◌then◌else◌,
}
use rust_quepaxa.Prelude.Maps.{get, insert, contains_key}
use rust_quepaxa.Error.{
  ok, err, is_err, conflicting_decision, invalid_sender, storage_error, store_failed,
}
use rust_quepaxa.Types.Keys.{priority_max}
use rust_quepaxa.Cluster.{has_member, is_successor_of, is_well_formed, validate_fault_tolerance}
use rust_quepaxa.Cluster.Sorting.{binary_search, members_are_normalized, sort, dedup}
use rust_quepaxa.Messages.{RecordReply, validate_binding}
use rust_quepaxa.Isr.{recorded, isr_record, summary}
use rust_quepaxa.Isr
use rust_quepaxa.Recorder.{
  RecorderCore, new, snapshot, restore, admit, accept, record_request, inform_decision,
  inform_decisions, or_insert, install_membership,
}
use rust_quepaxa.Recorder.Validation.{
  contains_replica, validate_decision, validate_proposal, validate_request,
}
use rust_quepaxa.Recorder.Cases.{next_register}
use rust_quepaxa.Recorder.Invariant.{IsConsistent, new-IsConsistent, record_request-IsConsistent}
use rust_quepaxa.Recorder.Restore.{IsAttributed, restore-snapshot}
use rust_quepaxa.Recorder.Attribution.{record_request-IsAttributed}
use rust_quepaxa.Recorder.Behaviour.{record_request-recorded}
use rust_quepaxa.Recorder.Membership.{
  IsInstalled, install_membership-installs, install_membership_removes_proposer,
}
use rust_quepaxa.Durable.{
  DurableRecorderCore, InMemoryRecorderStore, RecorderStateStore, in_memory, durable_record,
  durable_record_from, durable_inform_decision, durable_inform_decisions, durable_prune_through,
  durable_install_state_transfer_floor, durable_install_membership, mutate,
}
use rust_quepaxa.Durable
use rust_quepaxa.Durable.Rollback.{Atomic, LoadsSaved, durable_operations-Atomic}
use rust_quepaxa.Durable.Restart.{durable_record_restart, install_membership_unsaved}
use rust_quepaxa.Samples.{
  three, moved, config, available, propose, decide, request, leaving, departure,
}

-- The recorder that has answered the sample request.
abbrev start : RecorderCore ℕ
unfolding new
start = new config available

abbrev served : RecorderCore ℕ
served = record {
  config = config;
  availability = available;
  slots = (7, recorded Isr.new 4 (propose priority_max 2 10)) ∷ [];
  round_one_leaders = (7, some 2) ∷ [];
  decisions = (6, decide 6 3 9) ∷ [];
  pruned_through = 0;
}

abbrev answer : RecordReply ℕ
answer = record {
  recorder = 1;
  cluster = three;
  summary = summary (recorded Isr.new 4 (propose priority_max 2 10));
  decision = none;
}

start_serves : record_request start request ≡ (served, ok answer)
unfolding new record_request admit accept inform_decisions inform_decision validate_request
    validate_proposal validate_decision contains_replica has_member binary_search isr_record get
    insert contains_key or_insert
start_serves = refl

start-IsConsistent : IsConsistent start
unfolding new
start-IsConsistent = new-IsConsistent config available

served-IsConsistent : IsConsistent served
served-IsConsistent =
    subst (λ p. IsConsistent p.0) start_serves
      (record_request-IsConsistent start request start-IsConsistent)

start-IsAttributed : IsAttributed start
unfolding new
start-IsAttributed = record { decisions_valid = tt; registers_valid = tt; leaders_known = tt }

served-IsAttributed : IsAttributed served
served-IsAttributed =
    subst (λ p. IsAttributed p.0) start_serves
      (record_request-IsAttributed start request start-IsAttributed)

start_answers : (record_request start request).1 ≡ ok answer
start_answers = ap (λ p. p.1) start_serves

record_request-IsConsistent_example : IsConsistent (record_request served request).0
record_request-IsConsistent_example = record_request-IsConsistent served request served-IsConsistent

record_request-IsAttributed_example : IsAttributed (record_request served request).0
record_request-IsAttributed_example = record_request-IsAttributed served request served-IsAttributed

restore-snapshot_example : restore config available (snapshot served) ≡ ok served
restore-snapshot_example = restore-snapshot served served-IsConsistent served-IsAttributed

-- A second decision with other values for a decided slot.
decide_valid : validate_decision config (decide 6 2 8) ≡ ok tt
unfolding validate_decision contains_replica has_member binary_search
decide_valid = refl

conflict_reported : inform_decision served (decide 6 2 8) ≡ (served, err (conflicting_decision 6))
unfolding inform_decision validate_decision contains_replica has_member binary_search get
conflict_reported = refl

leader_bound : get 7 served.round_one_leaders ≡ some (some 2)
unfolding get
leader_bound = refl

record_request-recorded_example :
    (get 7 (record_request start request).0.slots
      ≡ (if eqb 7 7 then some (next_register start request) else get 7 start.slots))
    × (answer.summary ≡ summary (next_register start request))
    × (answer.recorder ≡ start.config.id)
    × (answer.cluster ≡ start.config.cluster)
    × (answer.decision ≡ get 7 (record_request start request).0.decisions)
record_request-recorded_example = record_request-recorded start request answer 7 start_answers

-- A sender outside the membership.
stranger_refused :
    (record_request served (record request { sender = 9 })).1 ≡ err (invalid_sender 9)
unfolding record_request admit validate_request contains_replica has_member binary_search
stranger_refused = refl

departs : (install_membership leaving departure).1 ≡ ok tt
unfolding install_membership validate_binding get is_successor_of is_well_formed
    members_are_normalized validate_fault_tolerance sort dedup
departs = refl

departure-IsInstalled : IsInstalled leaving departure
unfolding get is_successor_of is_well_formed members_are_normalized validate_fault_tolerance sort
    dedup
departure-IsInstalled = record {
  follows = refl;
  anchored = refl;
  slots_drained = refl;
  decisions_drained = refl;
}

install_membership-installs_example :
    ((install_membership leaving departure).0
      ≡ record leaving { config = record (leaving.config) { cluster = moved } })
    × ((leaving.config.cluster ≡ moved) ⊎ IsInstalled leaving departure)
install_membership-installs_example = install_membership-installs leaving departure departs

gone : has_member moved 1 ≡ false
unfolding has_member binary_search
gone = refl

install_membership_removes_proposer_example :
    let after = (install_membership leaving departure).0 in
    is_err (restore after.config after.availability (snapshot after)) ≡ true
install_membership_removes_proposer_example =
    install_membership_removes_proposer leaving departure departure-IsInstalled departs gone

-- A store that keeps nothing and reports so.
abbrev broken : RecorderStateStore ℕ (Unit {0})
broken = record {
  load = λ s. (s, ok none);
  save = λ s snapshot. (s, err (storage_error store_failed));
}

abbrev durable : DurableRecorderCore ℕ (InMemoryRecorderStore ℕ)
durable = record { core = start; store = record { saved = none } }

durable_operations-Atomic_example :
    Atomic durable (durable_record durable request)
    × Atomic durable (durable_record_from durable 3 request)
    × Atomic durable (durable_inform_decision durable (decide 6 2 8))
    × Atomic durable (durable_inform_decisions durable (decide 6 2 8 ∷ []))
    × Atomic durable (durable_prune_through durable 3)
    × Atomic durable (durable_install_state_transfer_floor durable 3)
durable_operations-Atomic_example =
    durable_operations-Atomic durable 3 request (decide 6 2 8) (decide 6 2 8 ∷ []) 3

in_memory_loads : LoadsSaved {V = ℕ} in_memory
in_memory_loads s s' saved h = ground (arith, h)

abbrev acknowledged : DurableRecorderCore ℕ (InMemoryRecorderStore ℕ)
unfolding snapshot Isr.snapshot
acknowledged = record { core = served; store = record { saved = some (snapshot served) } }

durable_serves : durable_record durable request ≡ (acknowledged, ok answer)
unfolding durable_record mutate acknowledged new record_request admit accept inform_decisions
    inform_decision validate_request validate_proposal validate_decision contains_replica has_member
    binary_search isr_record get insert contains_key or_insert
durable_serves = refl

durable_record_restart_example : Durable.new config available acknowledged.store ≡ ok acknowledged
unfolding acknowledged
durable_record_restart_example =
    durable_record_restart durable acknowledged request answer in_memory_loads start-IsConsistent
      start-IsAttributed durable_serves

install_membership_unsaved_example :
    ((durable_install_membership ⦃st = broken⦄ (record { core = leaving; store = tt }) departure).1
      ≡ err (storage_error store_failed))
    × ((durable_install_membership ⦃st = broken⦄
          (record { core = leaving; store = tt })
          departure).0.core.config.cluster
        ≡ moved)
install_membership_unsaved_example =
    install_membership_unsaved ⦃st = broken⦄ (record { core = leaving; store = tt }) departure
      (storage_error store_failed) departs refl
