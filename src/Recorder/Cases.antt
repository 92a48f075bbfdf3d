-- ===== src/Recorder/Cases.antt =====
-- src/recorder.rs: what a handler may do to the core, branch by branch.
use rust_quepaxa.Prelude.{
  ◌≤◌, ◌<◌, ◌≡◌, refl, ◌⊎◌, true, false, ◌&&◌, not, List, [], ◌∷◌, Option, none, arith, Eq, nat_eq,
  list_eq, option_eq, eqb, length,
}
use rust_quepaxa.Prelude.Maps.{get, contains_key, insert}
use rust_quepaxa.Error.{ok, err, resource_limit, active_recorder_slots}
use rust_quepaxa.Types.{Decision, RecordRequest, SlotIndex}
use rust_quepaxa.Types.Keys.{ReplicaId}
use rust_quepaxa.Isr.{IntervalSummaryRegister, isr_record, recorded, summary}
use rust_quepaxa.Recorder.{
  RecorderCore, inform_decision, inform_decisions, accept, admit, or_insert, or_default,
  unknown_leader,
}
use rust_quepaxa.Recorder.Validation.{
  validate_decision, validate_proposal, validate_request, contains_replica,
}

module _ {V : Type 0} ⦃e : Eq V⦄ where
  -- A core whose decisions alone have changed.
  abbrev pub with_decision : RecorderCore V → Decision V → RecorderCore V
  with_decision core d = record core { decisions = insert d.slot d core.decisions }

  -- The three things that `inform_decision` may do to the core.
  pub inform_decision-cases :
      (core : RecorderCore V) (d : Decision V)
      → ((inform_decision core d).0 ≡ core)
        ⊎ (((inform_decision core d).0 ≡ with_decision core d)
            × (core.pruned_through < d.slot)
            × (get d.slot core.decisions ≡ none)
            × (eqb (length core.decisions) core.config.limits.max_decisions ≡ false)
            × (validate_decision core.config d ≡ ok tt))
  unfolding inform_decision
  inform_decision-cases core d = ground arith

  -- What the decisions leave alone.
  pub record SameSlots (core told : RecorderCore V) : Type 0 where
    pub same_slots : told.slots ≡ core.slots
    pub same_leaders : told.round_one_leaders ≡ core.round_one_leaders
    pub same_config : told.config ≡ core.config
    pub same_floor : told.pruned_through ≡ core.pruned_through

  pub inform_decision-SameSlots :
      (core : RecorderCore V) (d : Decision V) → SameSlots core (inform_decision core d).0
  inform_decision-SameSlots core d = ground (arith, inform_decision-cases core d)

  pub inform_decisions-SameSlots :
      (core : RecorderCore V) (ds : List (Decision V)) → SameSlots core (inform_decisions core ds).0
  unfolding inform_decisions
  inform_decisions-SameSlots core [] = record {
    same_slots = refl;
    same_leaders = refl;
    same_config = refl;
    same_floor = refl;
  }
  inform_decisions-SameSlots core (d ∷ ds) = ground (
    arith,
    inform_decision-SameSlots core d,
    inform_decisions-SameSlots (inform_decision core d).0 ds,
  )

  -- A core with one active slot written.
  abbrev pub with_register :
      RecorderCore V → SlotIndex → Option ReplicaId → IntervalSummaryRegister V → RecorderCore V
  with_register core slot leader register = record core {
    slots = insert slot register core.slots;
    round_one_leaders = or_insert slot leader core.round_one_leaders;
  }

  -- The register of a slot after the request.
  abbrev pub next_register : RecorderCore V → RecordRequest V → IntervalSummaryRegister V
  next_register core request =
      recorded (or_default (get request.slot core.slots)) request.step request.proposal

  -- `accept` refuses a new slot beyond the limit, or writes the slot and answers.
  pub accept-cases :
      (core : RecorderCore V) (request : RecordRequest V)
      → ((accept core request)
          ≡ (core, err (resource_limit active_recorder_slots core.config.limits.max_active_slots)))
        ⊎ ((accept core request ≡ (
          with_register core request.slot request.round_one_leader (next_register core request),
          ok (record {
            recorder = core.config.id;
            cluster = core.config.cluster;
            summary = summary (next_register core request);
            decision = get request.slot core.decisions;
          }),
        ))
            × ((not (contains_key request.slot core.slots)
                  && eqb (length core.slots) core.config.limits.max_active_slots)
                ≡ false))
  unfolding accept isr_record
  accept-cases core request = ground arith

  pub admit_above :
      (core : RecorderCore V) (request : RecordRequest V)
      → admit core request ≡ ok tt
      → core.pruned_through < request.slot
  unfolding admit
  admit_above core request h = ground arith

  -- What an admitted request has passed.
  pub admit_checked :
      (core : RecorderCore V) (request : RecordRequest V)
      → admit core request ≡ ok tt
      → (validate_proposal core.config request.proposal ≡ ok tt)
        × (4 ≤ request.step)
        × (request.step ≤ core.config.limits.max_step)
        × (unknown_leader core.config request.round_one_leader ≡ false)
        × (contains_replica core.config request.sender ≡ true)
  unfolding admit validate_request
  admit_checked core request h = ground arith
