-- ===== src/Recorder/Restore.antt =====
-- src/recorder.rs: `snapshot` and `restore`. A core whose recorded replicas are all members of the
-- installed membership survives a restart; one that retains a removed replica's decision does not.
use rust_quepaxa.Prelude.{
  ◌≡◌, refl, true, false, [], ◌∷◌, Option, some, arith, Eq, beq_refl, nat_eq, list_eq, option_eq,
  any,
}
use rust_quepaxa.Prelude.Maps.{
  BTreeMap, get, keys, values, map_values, Above, Entries, length-map_values,
}
use rust_quepaxa.Prelude.MapKeys.{keys-map_values, any-keys-Above}
use rust_quepaxa.Error.{ok, for_each, is_err}
use rust_quepaxa.Types.{Decision, SlotIndex}
use rust_quepaxa.Types.Keys.{ReplicaId}
use rust_quepaxa.Cluster.{cluster_eq}
use rust_quepaxa.Isr.{IntervalSummaryRegister, IntervalSummarySnapshot}
use rust_quepaxa.Isr
use rust_quepaxa.Recorder.{
  RecorderCore, new, snapshot, restore, restore_snapshot_state, check_snapshot, check_decisions,
  unknown_leader,
}
use rust_quepaxa.Recorder.Validation.{
  RecorderConfig, validate_decision, validate_isr_snapshot, contains_replica,
}
use rust_quepaxa.Recorder.Invariant.{IsConsistent}

known_leaders_ok :
    (config : RecorderConfig) (m : BTreeMap (Option ReplicaId))
    → Entries (λ slot l. unknown_leader config l ≡ false) m
    → any (unknown_leader config) (values m) ≡ false
known_leaders_ok config [] v = refl
known_leaders_ok config ((slot, l) ∷ m) v = rw v.0 (known_leaders_ok config m v.1)

module _ {V : Type 0} ⦃e : Eq V⦄ where
  -- Every recorded decision, proposal and leader passes the checks under the installed membership.
  pub record IsAttributed (core : RecorderCore V) : Type 0 where
    pub decisions_valid : Entries (λ slot d. validate_decision core.config d ≡ ok tt) core.decisions
    pub registers_valid :
        Entries (λ slot r. validate_isr_snapshot core.config (Isr.snapshot r) ≡ ok tt) core.slots
    pub leaders_known :
        Entries (λ slot l. unknown_leader core.config l ≡ false) core.round_one_leaders

  check_decisions_ok :
      (config : RecorderConfig) (floor : SlotIndex) (m : BTreeMap (Decision V))
      → Above floor m
      → Entries (λ slot d. d.slot ≡ slot) m
      → Entries (λ slot d. validate_decision config d ≡ ok tt) m
      → check_decisions config floor m ≡ ok tt
  unfolding check_decisions
  check_decisions_ok config floor [] a k v = refl
  check_decisions_ok config floor ((slot, d) ∷ m) a k v =
      ground (arith, check_decisions_ok config floor m a.1 k.1 v.1)

  for_each_ok :
      (config : RecorderConfig) (m : BTreeMap (IntervalSummaryRegister V))
      → Entries (λ slot r. validate_isr_snapshot config (Isr.snapshot r) ≡ ok tt) m
      → for_each (validate_isr_snapshot config) (values (map_values Isr.snapshot m)) ≡ ok tt
  for_each_ok config [] v = refl
  for_each_ok config ((slot, r) ∷ m) v = rw v.0 (for_each_ok config m v.1)

  check_snapshot-snapshot :
      (core : RecorderCore V)
      → IsConsistent core
      → IsAttributed core
      → check_snapshot core.config (snapshot core) ≡ ok tt
  unfolding check_snapshot snapshot
  check_snapshot-snapshot core c a = ground (
    arith,
    beq_refl core.config.cluster,
    length-map_values Isr.snapshot core.slots,
    c.slots_within,
    c.decisions_within,
    check_decisions_ok core.config core.pruned_through core.decisions c.decisions_above
        c.decisions_keyed a.decisions_valid,
    keys-map_values Isr.snapshot core.slots,
    any-keys-Above core.pruned_through core.slots c.slots_above,
    c.leaders_match,
    beq_refl (keys core.slots),
    known_leaders_ok core.config core.round_one_leaders a.leaders_known,
    for_each_ok core.config core.slots a.registers_valid,
  )

  restore_registers :
      (m : BTreeMap (IntervalSummaryRegister V))
      → map_values Isr.restore (map_values Isr.snapshot m) ≡ m
  restore_registers [] = refl
  restore_registers ((slot, r) ∷ m) = ground (arith, Isr.restore-snapshot r, restore_registers m)

  -- Rolling back to the snapshot of an earlier core gives that core, but for the configuration and
  -- the availability guard, which stay those of the later one.
  pub restore_snapshot_state-rollback :
      (later earlier : RecorderCore V)
      → restore_snapshot_state later (snapshot earlier)
        ≡ record earlier { config = later.config; availability = later.availability }
  unfolding restore_snapshot_state snapshot
  restore_snapshot_state-rollback later earlier = ground (arith, restore_registers earlier.slots)

  restore_snapshot_state-snapshot :
      (core : RecorderCore V)
      → restore_snapshot_state (new core.config core.availability) (snapshot core) ≡ core
  unfolding restore_snapshot_state snapshot new
  restore_snapshot_state-snapshot core = ground (arith, restore_registers core.slots)

  -- Restoring the snapshot of a consistent core whose recorded replicas are all members gives
  -- back that core.
  pub restore-snapshot :
      (core : RecorderCore V)
      → IsConsistent core
      → IsAttributed core
      → restore core.config core.availability (snapshot core) ≡ ok core
  unfolding restore
  restore-snapshot core c a =
      rw (check_snapshot-snapshot core c a, restore_snapshot_state-snapshot core)

  -- A retained decision of a replica outside the installed membership makes `restore` fail.
  check_decisions_removed :
      (config : RecorderConfig) (floor slot : SlotIndex) (d : Decision V)
      (m : BTreeMap (Decision V))
      → get slot m ≡ some d
      → contains_replica config d.proposer ≡ false
      → is_err (check_decisions config floor m) ≡ true
  unfolding check_decisions get validate_decision
  check_decisions_removed config floor slot d [] g n = absurd (cc)
  check_decisions_removed config floor slot d ((j, c) ∷ m) g n =
      ground (arith, check_decisions_removed config floor slot d m)

  -- A core that retains a decision of a replica that is not in its membership cannot be restored
  -- from its own snapshot.
  pub restore-snapshot_removed :
      (core : RecorderCore V) (slot : SlotIndex) (d : Decision V)
      → get slot core.decisions ≡ some d
      → contains_replica core.config d.proposer ≡ false
      → is_err (restore core.config core.availability (snapshot core)) ≡ true
  unfolding restore check_snapshot snapshot
  restore-snapshot_removed core slot d g n =
      ground
        (arith, check_decisions_removed core.config core.pruned_through slot d core.decisions g n)
