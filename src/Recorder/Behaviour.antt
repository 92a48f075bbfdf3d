-- ===== src/Recorder/Behaviour.antt =====
-- src/recorder.rs: what callers observe of `RecorderCore` - decisions and leader bindings stay,
-- other slots are left alone, steps only grow, and pruned slots stay closed.
use rust_quepaxa.Prelude.{
  ◌≤◌, ◌<◌, ◌≡◌, refl, sym, ◌⊎◌, inl, inr, true, false, List, [], ◌∷◌, Option, none, some, arith,
  Eq, eqb, ltb, if◌then◌else◌, Option-cases, Bool-cases, subst, list_eq, list_beq_iff, list_beq,
  option_eq, nat_eq, option_beq_iff, length, eqb_iff, ◌≢◌,
}
use rust_quepaxa.Prelude.Maps.{get, get-insert, get-retain, contains_key-get}
use rust_quepaxa.Error.{
  Result, ok, err, is_err, QuePaxaError, resource_limit, retained_decisions, conflicting_decision,
}
use rust_quepaxa.Types.{Decision, RecordRequest, SlotIndex}
use rust_quepaxa.Types.Keys.{ReplicaId}
use rust_quepaxa.Messages.{RecordReply}
use rust_quepaxa.Isr.{summary}
use rust_quepaxa.Recorder.{
  RecorderCore, prune_through, status, inform_decision, inform_decisions, accept, admit,
  record_request, or_insert,
}
use rust_quepaxa.Recorder.Validation.{validate_decision}
use rust_quepaxa.Recorder.Cases.{
  with_decision, inform_decision-cases, SameSlots, inform_decisions-SameSlots, next_register,
  accept-cases,
}

module _ {V : Type 0} ⦃e : Eq V⦄ where
  -- A retained decision is never replaced, whatever is reported.
  pub inform_decision_keeps :
      (core : RecorderCore V) (d : Decision V) (slot : SlotIndex) (c : Decision V)
      → get slot core.decisions ≡ some c
      → get slot (inform_decision core d).0.decisions ≡ some c
  inform_decision_keeps core d slot c h =
      ground (arith, inform_decision-cases core d, get-insert d.slot slot d core.decisions)

  pub inform_decisions_keeps :
      (core : RecorderCore V) (ds : List (Decision V)) (slot : SlotIndex) (c : Decision V)
      → get slot core.decisions ≡ some c
      → get slot (inform_decisions core ds).0.decisions ≡ some c
  unfolding inform_decisions
  inform_decisions_keeps core [] slot c h = h
  inform_decisions_keeps core (d ∷ ds) slot c h = ground (
    arith,
    inform_decision_keeps core d slot c h,
    inform_decisions_keeps (inform_decision core d).0 ds slot c,
  )

  -- What a call of `inform_decision` leaves, by its result.
  abbrev pub Informed : RecorderCore V → Decision V → RecorderCore V × Result (Unit {0}) → Type 0
  Informed core d (after, ok _) =
      (c : Decision V) × (get d.slot after.decisions ≡ some c) × (c.value_ids ≡ d.value_ids)
  Informed core d (after, err error) =
      (after ≡ core)
      × ((c : Decision V)
          → get d.slot core.decisions ≡ some c
          → (c.value_ids ≢ d.value_ids) × (error ≡ conflicting_decision d.slot))

  -- For a valid decision above the pruned floor: success leaves a decision with the same values
  -- retained; an error leaves the core unchanged and, where a decision is retained for the
  -- slot, is the conflict error and the values differ.
  pub inform_decision-Informed :
      (core : RecorderCore V) (d : Decision V)
      → validate_decision core.config d ≡ ok tt
      → core.pruned_through < d.slot
      → Informed core d (inform_decision core d)
  unfolding inform_decision
  inform_decision-Informed core d v above = elim (Option-cases (get d.slot core.decisions)) [
    | inl h ↦ elim (Bool-cases (eqb (length core.decisions) core.config.limits.max_decisions)) [
      | inl full ↦ subst (Informed core d) (sym (outcome_full h full)) (refl, λ c g. absurd (cc))
      | inr room ↦
          subst (Informed core d) (sym (outcome_room h room))
            (d, ground (arith, get-insert d.slot d.slot d core.decisions), refl)
    ]
    | inr (c, h) ↦ elim (Bool-cases (list_beq c.value_ids d.value_ids)) [
      | inl same ↦
          subst (Informed core d) (sym (outcome_same c h same))
            (c, h, (list_beq_iff c.value_ids d.value_ids).0 same)
      | inr differ ↦
          subst (Informed core d) (sym (outcome_conflict c h differ))
            (refl, λ c' g. (ground (arith, g, h, list_beq_iff c.value_ids d.value_ids), refl))
    ]
  ]
    where
      outcome_full :
          get d.slot core.decisions ≡ none
          → eqb (length core.decisions) core.config.limits.max_decisions ≡ true
          → inform_decision core d
            ≡ (core, err (resource_limit retained_decisions core.config.limits.max_decisions))
      outcome_full h full = ground arith

      outcome_room :
          get d.slot core.decisions ≡ none
          → eqb (length core.decisions) core.config.limits.max_decisions ≡ false
          → inform_decision core d ≡ (with_decision core d, ok tt)
      outcome_room h room = ground arith

      outcome_same :
          (c : Decision V)
          → get d.slot core.decisions ≡ some c
          → list_beq c.value_ids d.value_ids ≡ true
          → inform_decision core d ≡ (core, ok tt)
      outcome_same c h same = ground arith

      outcome_conflict :
          (c : Decision V)
          → get d.slot core.decisions ≡ some c
          → list_beq c.value_ids d.value_ids ≡ false
          → inform_decision core d ≡ (core, err (conflicting_decision d.slot))
      outcome_conflict c h differ = ground arith

  get-or_insert :
      (core : RecorderCore V) (k slot : SlotIndex) (leader : Option ReplicaId)
      → get slot (or_insert k leader core.round_one_leaders)
        ≡ elim (get slot core.round_one_leaders) [
          | some bound ↦ some bound
          | none ↦ if eqb slot k then some leader else none
        ]
  unfolding or_insert
  get-or_insert core k slot leader = ground (
    arith,
    get-insert k slot leader core.round_one_leaders,
    contains_key-get k core.round_one_leaders,
    eqb_iff slot k,
  )

  accept_keeps_leader :
      (core : RecorderCore V) (request : RecordRequest V) (slot : SlotIndex)
      (leader : Option ReplicaId)
      → get slot core.round_one_leaders ≡ some leader
      → get slot (accept core request).0.round_one_leaders ≡ some leader
  accept_keeps_leader core request slot leader h = ground (
    arith,
    accept-cases core request,
    get-or_insert core request.slot slot request.round_one_leader,
  )

  admit_bound :
      (core : RecorderCore V) (request : RecordRequest V)
      → admit core request ≡ ok tt
      → (get request.slot core.round_one_leaders ≡ none)
        ⊎ (get request.slot core.round_one_leaders ≡ some request.round_one_leader)
  unfolding admit
  admit_bound core request h = elim (Option-cases (get request.slot core.round_one_leaders)) [
    | inl free ↦ inl free
    | inr (leader, bound) ↦
        inr (ground (arith, bound, h, option_beq_iff leader request.round_one_leader))
  ]

  accept_binds :
      (core : RecorderCore V) (request : RecordRequest V) (reply : RecordReply V)
      → (get request.slot core.round_one_leaders ≡ none)
        ⊎ (get request.slot core.round_one_leaders ≡ some request.round_one_leader)
      → (accept core request).1 ≡ ok reply
      → get request.slot (accept core request).0.round_one_leaders ≡ some request.round_one_leader
  accept_binds core request reply free h = ground (
    arith,
    accept-cases core request,
    get-or_insert core request.slot request.slot request.round_one_leader,
  )

  -- Once a slot is bound to a round-one leader no request changes the binding.
  pub record_request_keeps_leader :
      (core : RecorderCore V) (request : RecordRequest V) (slot : SlotIndex)
      (leader : Option ReplicaId)
      → get slot core.round_one_leaders ≡ some leader
      → get slot (record_request core request).0.round_one_leaders ≡ some leader
  unfolding record_request
  record_request_keeps_leader core request slot leader h = ground (
    arith,
    inform_decisions-SameSlots core request.known_decisions,
    accept_keeps_leader (inform_decisions core request.known_decisions).0 request slot leader,
  )

  -- A request that is answered leaves its slot bound to the round-one leader that the request
  -- names.
  pub record_request_binds :
      (core : RecorderCore V) (request : RecordRequest V) (reply : RecordReply V)
      → (record_request core request).1 ≡ ok reply
      → get request.slot (record_request core request).0.round_one_leaders
        ≡ some request.round_one_leader
  unfolding record_request
  record_request_binds core request reply h = ground (
    arith,
    admit_bound core request,
    inform_decisions-SameSlots core request.known_decisions,
    accept_binds (inform_decisions core request.known_decisions).0 request reply,
  )

  -- Where `record` answers, the register of the requested slot is the old one (or a new one)
  -- after the call, every other slot is unchanged, and the reply carries that register's
  -- summary, the recorder's identity and membership, and the decision retained for the slot.
  pub record_request-recorded :
      (core : RecorderCore V) (request : RecordRequest V) (reply : RecordReply V) (slot : SlotIndex)
      → (record_request core request).1 ≡ ok reply
      → (get slot (record_request core request).0.slots ≡ (
          if eqb slot request.slot then some (next_register core request) else get slot core.slots))
        × (reply.summary ≡ summary (next_register core request))
        × (reply.recorder ≡ core.config.id)
        × (reply.cluster ≡ core.config.cluster)
        × (reply.decision ≡ get request.slot (record_request core request).0.decisions)
  unfolding record_request
  record_request-recorded core request reply slot h = ground (
    arith,
    inform_decisions-SameSlots core request.known_decisions,
    accept-cases (inform_decisions core request.known_decisions).0 request,
    get-insert request.slot slot (next_register core request) core.slots,
  )

  -- A refused request changes no register, no leader binding, no configuration and no floor.
  pub record_request_refused :
      (core : RecorderCore V) (request : RecordRequest V) (error : QuePaxaError)
      → (record_request core request).1 ≡ err error
      → SameSlots core (record_request core request).0
  unfolding record_request
  record_request_refused core request error h = ground (
    arith,
    inform_decisions-SameSlots core request.known_decisions,
    accept-cases (inform_decisions core request.known_decisions).0 request,
  )

  -- After pruning through a floor, a slot at or below it has no state and no decision, and any
  -- request for it is refused and changes nothing.
  pub prune_through_closes :
      (core : RecorderCore V) (floor slot : SlotIndex) (request : RecordRequest V)
      → slot ≤ floor
      → request.slot ≡ slot
      → (status (prune_through core floor) slot ≡ none)
        × (get slot (prune_through core floor).decisions ≡ none)
        × (is_err (record_request (prune_through core floor) request).1 ≡ true)
        × ((record_request (prune_through core floor) request).0 ≡ prune_through core floor)
  unfolding prune_through status record_request admit
  prune_through_closes core floor slot request h k =
      ground
        (arith, get-retain (ltb floor) slot core.slots, get-retain (ltb floor) slot core.decisions)

  -- Slots above the floor are left alone by `prune_through`.
  pub prune_through_keeps :
      (core : RecorderCore V) (floor slot : SlotIndex)
      → floor < slot
      → (get slot (prune_through core floor).slots ≡ get slot core.slots)
        × (get slot (prune_through core floor).round_one_leaders ≡ get slot core.round_one_leaders)
        × (get slot (prune_through core floor).decisions ≡ get slot core.decisions)
  unfolding prune_through
  prune_through_keeps core floor slot h = ground (
    arith,
    get-retain (ltb floor) slot core.slots,
    get-retain (ltb floor) slot core.round_one_leaders,
    get-retain (ltb floor) slot core.decisions,
  )
