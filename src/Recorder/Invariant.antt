-- ===== src/Recorder/Invariant.antt =====
-- src/recorder.rs: the invariant of `RecorderCore`, and that every handler keeps it.
use rust_quepaxa.Prelude.{
  ◌≤◌, ◌<◌, ◌≡◌, refl, sym, ◌∙◌, ap, inl, inr, false, ◌&&◌, not, List, [], ◌∷◌, Option, none, arith,
  Eq, nat_eq, list_eq, option_eq, eqb, ltb, length, keep, subst,
}
use rust_quepaxa.Prelude.Maps.{
  BTreeMap, get, contains_key, insert, keys, IsSorted, Above, Entries, insert-IsSorted,
  retain-IsSorted, length-insert, length-retain, Above-insert, Above-floor, Entries-insert,
  Entries-retain, contains_key-get,
}
use rust_quepaxa.Prelude.MapKeys.{keys-retain, keys-insert, keys-insert_present}
use rust_quepaxa.Error.{Result}
use rust_quepaxa.Types.{Decision, RecordRequest, SlotIndex}
use rust_quepaxa.Types.Keys.{ReplicaId}
use rust_quepaxa.Isr.{IntervalSummaryRegister}
use rust_quepaxa.Recorder.{
  RecorderCore, new, prune_through, inform_decision, inform_decisions, install_membership, accept,
  record_request, record_from, or_insert,
}
use rust_quepaxa.Messages.{MembershipChange}
use rust_quepaxa.Recorder.Validation.{RecorderConfig}
use rust_quepaxa.Recorder.Cases.{
  with_decision, inform_decision-cases, inform_decisions-SameSlots, with_register, next_register,
  accept-cases, admit_above,
}

-- The shape of the maps, whatever membership is installed.
pub record IsConsistent {V : Type 0} (core : RecorderCore V) : Type 0 where
  pub slots_sorted : IsSorted core.slots
  pub leaders_sorted : IsSorted core.round_one_leaders
  pub decisions_sorted : IsSorted core.decisions
  -- A slot is bound to a leader exactly while it is active.
  pub leaders_match : keys core.round_one_leaders ≡ keys core.slots
  pub slots_above : Above core.pruned_through core.slots
  pub decisions_above : Above core.pruned_through core.decisions
  pub slots_within : length core.slots ≤ core.config.limits.max_active_slots
  pub decisions_within : length core.decisions ≤ core.config.limits.max_decisions
  pub decisions_keyed : Entries (λ slot d. d.slot ≡ slot) core.decisions

or_insert-IsSorted :
    (slot : SlotIndex) (leader : Option ReplicaId) (leaders : BTreeMap (Option ReplicaId))
    → IsSorted leaders
    → IsSorted (or_insert slot leader leaders)
unfolding or_insert
or_insert-IsSorted slot leader leaders s = ground (arith, insert-IsSorted slot leader leaders s)

module _ {V : Type 0} where
  pub new-IsConsistent :
      (config : RecorderConfig) (availability : List V → Result (Unit {0}))
      → IsConsistent (new config availability)
  unfolding new
  new-IsConsistent config availability = record {
    slots_sorted = tt;
    leaders_sorted = tt;
    decisions_sorted = tt;
    leaders_match = refl;
    slots_above = tt;
    decisions_above = tt;
    slots_within = omega arith;
    decisions_within = omega arith;
    decisions_keyed = tt;
  }

  pub prune_through-IsConsistent :
      (core : RecorderCore V) (slot : SlotIndex)
      → IsConsistent core
      → IsConsistent (prune_through core slot)
  unfolding prune_through
  prune_through-IsConsistent core slot v = record {
    slots_sorted = retain-IsSorted (ltb slot) core.slots v.slots_sorted;
    leaders_sorted = retain-IsSorted (ltb slot) core.round_one_leaders v.leaders_sorted;
    decisions_sorted = retain-IsSorted (ltb slot) core.decisions v.decisions_sorted;
    leaders_match =
        keys-retain (ltb slot) core.round_one_leaders
        ∙ ap (keep (ltb slot)) v.leaders_match
        ∙ sym (keys-retain (ltb slot) core.slots);
    slots_above = Above-floor core.pruned_through slot core.slots v.slots_above;
    decisions_above = Above-floor core.pruned_through slot core.decisions v.decisions_above;
    slots_within = omega (arith, length-retain (ltb slot) core.slots, v.slots_within);
    decisions_within = omega (arith, length-retain (ltb slot) core.decisions, v.decisions_within);
    decisions_keyed = Entries-retain _ (ltb slot) core.decisions v.decisions_keyed;
  }

module _ {V : Type 0} ⦃e : Eq V⦄ where
  with_decision-IsConsistent :
      (core : RecorderCore V) (d : Decision V)
      → IsConsistent core
      → core.pruned_through < d.slot
      → get d.slot core.decisions ≡ none
      → eqb (length core.decisions) core.config.limits.max_decisions ≡ false
      → IsConsistent (with_decision core d)
  with_decision-IsConsistent core d v above missing room = record {
    slots_sorted = v.slots_sorted;
    leaders_sorted = v.leaders_sorted;
    decisions_sorted = insert-IsSorted d.slot d core.decisions v.decisions_sorted;
    leaders_match = v.leaders_match;
    slots_above = v.slots_above;
    decisions_above =
        Above-insert core.pruned_through d.slot d core.decisions above v.decisions_above;
    slots_within = v.slots_within;
    decisions_within = ground (
      arith,
      length-insert d.slot d core.decisions v.decisions_sorted,
      contains_key-get d.slot core.decisions,
      v.decisions_within,
    );
    decisions_keyed = Entries-insert _ d.slot d core.decisions refl v.decisions_keyed;
  }

  pub inform_decision-IsConsistent :
      (core : RecorderCore V) (d : Decision V)
      → IsConsistent core
      → IsConsistent (inform_decision core d).0
  inform_decision-IsConsistent core d v = elim (inform_decision-cases core d) [
    | inl e ↦ subst IsConsistent (sym e) v
    | inr c ↦ subst IsConsistent (sym c.0) (with_decision-IsConsistent core d v c.1 c.2 c.3)
  ]

  pub inform_decisions-IsConsistent :
      (core : RecorderCore V) (ds : List (Decision V))
      → IsConsistent core
      → IsConsistent (inform_decisions core ds).0
  unfolding inform_decisions
  inform_decisions-IsConsistent core [] v = v
  inform_decisions-IsConsistent core (d ∷ ds) v = ground (
    arith,
    inform_decision-IsConsistent core d v,
    inform_decisions-IsConsistent (inform_decision core d).0 ds,
  )

  pub install_membership-IsConsistent :
      (core : RecorderCore V) (change : MembershipChange V)
      → IsConsistent core
      → IsConsistent (install_membership core change).0
  unfolding install_membership
  install_membership-IsConsistent core change v = ground arith

  -- The slot becomes a key of both maps, or already is one of both.
  leaders_match_insert :
      (slot : SlotIndex) (leader : Option ReplicaId) (leaders : BTreeMap (Option ReplicaId))
      (register : IntervalSummaryRegister V) (slots : BTreeMap (IntervalSummaryRegister V))
      → IsSorted leaders
      → keys leaders ≡ keys slots
      → keys (or_insert slot leader leaders) ≡ keys (insert slot register slots)
  unfolding or_insert
  leaders_match_insert slot leader leaders register slots s h = ground (
    arith,
    keys-insert slot leader leaders,
    keys-insert_present slot leader leaders s,
    keys-insert slot register slots,
  )

  with_register-IsConsistent :
      (core : RecorderCore V) (slot : SlotIndex) (leader : Option ReplicaId)
      (register : IntervalSummaryRegister V)
      → IsConsistent core
      → core.pruned_through < slot
      → (not (contains_key slot core.slots)
          && eqb (length core.slots) core.config.limits.max_active_slots)
        ≡ false
      → IsConsistent (with_register core slot leader register)
  with_register-IsConsistent core slot leader register v above room = record {
    slots_sorted = insert-IsSorted slot register core.slots v.slots_sorted;
    leaders_sorted = or_insert-IsSorted slot leader core.round_one_leaders v.leaders_sorted;
    decisions_sorted = v.decisions_sorted;
    leaders_match =
        leaders_match_insert slot leader core.round_one_leaders register core.slots v.leaders_sorted
          v.leaders_match;
    slots_above = Above-insert core.pruned_through slot register core.slots above v.slots_above;
    decisions_above = v.decisions_above;
    slots_within =
        ground (arith, length-insert slot register core.slots v.slots_sorted, v.slots_within);
    decisions_within = v.decisions_within;
    decisions_keyed = v.decisions_keyed;
  }

  accept-IsConsistent :
      (core : RecorderCore V) (request : RecordRequest V)
      → IsConsistent core
      → core.pruned_through < request.slot
      → IsConsistent (accept core request).0
  accept-IsConsistent core request v above = elim (accept-cases core request) [
    | inl e ↦ subst (λ p. IsConsistent p.0) (sym e) v
    | inr c ↦
        subst (λ p. IsConsistent p.0) (sym c.0)
          (with_register-IsConsistent core request.slot request.round_one_leader
            (next_register core request) v above c.1)
  ]

  -- `record` keeps the recorder's invariant (sorted maps, equal key sets of slots and leader
  -- bindings, everything above the pruned floor, the limits on slots and decisions, decisions
  -- filed under their slot), on success and on every error.
  pub record_request-IsConsistent :
      (core : RecorderCore V) (request : RecordRequest V)
      → IsConsistent core
      → IsConsistent (record_request core request).0
  unfolding record_request
  record_request-IsConsistent core request v = ground (
    arith,
    admit_above core request,
    inform_decisions-IsConsistent core request.known_decisions v,
    inform_decisions-SameSlots core request.known_decisions,
    accept-IsConsistent (inform_decisions core request.known_decisions).0 request,
  )

  pub record_from-IsConsistent :
      (core : RecorderCore V) (sender : ReplicaId) (request : RecordRequest V)
      → IsConsistent core
      → IsConsistent (record_from core sender request).0
  unfolding record_from
  record_from-IsConsistent core sender request v =
      ground (arith, record_request-IsConsistent core request v)
