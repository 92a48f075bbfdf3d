-- ===== src/Replica/Restore.antt =====
-- src/replica.rs: `restore`.
use rust_quepaxa.Prelude.{
  ◌≤◌, ◌<◌, sym, subst, inl, inr, Bool-cases, arith, ℕ, zero, suc, ◌+◌, ◌-◌, ◌≡◌, Bool, true, false,
  ◌&&◌, ◌||◌, not, List, [], ◌∷◌, ◌++◌, Option, none, some, Eq, ◌!=◌, nat_eq, list_eq, eqb, ltb,
  leb, length, any, contains,
}
use rust_quepaxa.Prelude.Maps.{BTreeMap, get, values}
use rust_quepaxa.Error.{
  Result, ok, err, ◌>>=◌, ◌>>◌, reject_if, ok_or, invalid_proposal, slot_overflow, resource_limit,
  pending_value_ids, retained_log_slots, tracked_value_ids, untracked_value_id, missing_genesis,
  skipped_committed_slot, future_slot_committed,
}
use rust_quepaxa.Types.{SlotIndex}
use rust_quepaxa.Types.Clock.{checked_next}
use rust_quepaxa.Replica.{
  LogSlot, ReplicaConfig, ReplicaSnapshot, ReplicaCore, is_some, is_committed, retained_slots,
  genesis, snapshot,
}

module _ {V : Type 0} where
  -- `entry.committed && entry.decision.is_some()`
  abbrev pub is_settled : Option (LogSlot V) → Bool
  is_settled none = false
  is_settled (some entry) = entry.committed && is_some entry.decision

  -- The loop of `restore` over the slots between the checkpoint and the commit frontier; `count` is
  -- the distance between them.
  unfoldable pub check_committed : ℕ → BTreeMap (LogSlot V) → SlotIndex → Result (Unit {0})
  check_committed zero log slot = ok tt
  check_committed (suc count) log slot = elim (is_settled (get slot log)) [
    | false ↦ err (invalid_proposal skipped_committed_slot)
    | true ↦ elim (checked_next slot) [
      | none ↦ err slot_overflow
      | some following ↦ check_committed count log following
    ]
  ]

  -- Every value in the queue and the log is tracked.
  abbrev pub log_values : List (LogSlot V) → List V
  log_values [] = []
  log_values (entry ∷ entries) =
      (entry.proposed ++ elim entry.decision [ none ↦ [] | some d ↦ d.value_ids ])
      ++ log_values entries

  unfoldable pub is_ahead : SlotIndex → BTreeMap (LogSlot V) → Bool
  is_ahead next_commit [] = false
  is_ahead next_commit ((slot, entry) ∷ log) =
      (slot != genesis && leb next_commit slot && entry.committed) || is_ahead next_commit log

module _ {V : Type 0} ⦃e : Eq V⦄ where
  unfoldable pub restore : ReplicaConfig → ReplicaSnapshot V → Result (ReplicaCore V)
  restore config snapshot = do
    reject_if (ltb config.max_pending_values (length snapshot.pending))
        (resource_limit pending_value_ids config.max_pending_values)
    reject_if (ltb config.max_log_slots (retained_slots snapshot.log))
        (resource_limit retained_log_slots config.max_log_slots)
    reject_if (ltb config.max_tracked_value_ids (length snapshot.seen_value_ids))
        (resource_limit tracked_value_ids config.max_tracked_value_ids)
    reject_if
        (any (λ v. not (contains snapshot.seen_value_ids v))
          (snapshot.pending ++ log_values (values snapshot.log)))
        (invalid_proposal untracked_value_id)
    reject_if
        (not (is_committed (get genesis snapshot.log))
          || leb snapshot.next_commit snapshot.checkpointed_through)
        (invalid_proposal missing_genesis)
    first ← ok_or (checked_next snapshot.checkpointed_through) slot_overflow
    check_committed (snapshot.next_commit - first) snapshot.log first
    reject_if (is_ahead snapshot.next_commit snapshot.log) (invalid_proposal future_slot_committed)
    ok (record {
      config = config;
      log = snapshot.log;
      pending = snapshot.pending;
      last_proposed = snapshot.last_proposed;
      next_commit = snapshot.next_commit;
      checkpointed_through = snapshot.checkpointed_through;
      seen_value_ids = snapshot.seen_value_ids;
    })

module _ {V : Type 0} where
  -- Every slot from `slot` on, before `end`, is committed with a decision.
  abbrev pub Settled : BTreeMap (LogSlot V) → SlotIndex → SlotIndex → Type 0
  Settled log slot end = (q : SlotIndex) → slot ≤ q → q < end → is_settled (get q log) ≡ true

  check_committed-Settled :
      (count : ℕ) (log : BTreeMap (LogSlot V)) (slot : SlotIndex)
      → check_committed count log slot ≡ ok tt
      → Settled log slot (slot + count)
  unfolding check_committed checked_next
  check_committed-Settled zero log slot h q l m = absurd (omega (arith, l, m))
  check_committed-Settled (suc count) log slot h q l m =
      elim (Bool-cases (is_settled (get slot log))) [
        | inr k ↦ absurd (ground (arith, k, h))
        | inl k ↦ elim (Bool-cases (eqb q slot)) [
          | inl t ↦
              let p : q ≡ slot = ground (arith, t) in
              subst (λ x. is_settled (get x log) ≡ true) (sym p) k
          | inr t ↦
              check_committed-Settled count log (slot + 1) (ground (arith, k, h)) q
                (ground (arith, t, l)) (omega (arith, m))
        ]
      ]

  -- No slot but genesis is committed from the frontier on.
  abbrev pub NoneAhead : SlotIndex → BTreeMap (LogSlot V) → Type 0
  NoneAhead frontier log =
      (q : SlotIndex) (entry : LogSlot V)
      → get q log ≡ some entry
      → (q != genesis && leb frontier q && entry.committed) ≡ false

  is_ahead-NoneAhead :
      (frontier : SlotIndex) (log : BTreeMap (LogSlot V))
      → is_ahead frontier log ≡ false
      → NoneAhead frontier log
  unfolding is_ahead get
  is_ahead-NoneAhead frontier [] h q entry g = absurd (ground (arith, g))
  is_ahead-NoneAhead frontier ((slot, x) ∷ log) h q entry g = elim (Bool-cases (eqb q slot)) [
    | inl m ↦ ground (arith, m, g, h)
    | inr m ↦ is_ahead-NoneAhead frontier log (ground (arith, h)) q entry (ground (arith, m, g))
  ]

module _ {V : Type 0} ⦃e : Eq V⦄ where
  -- A snapshot that `restore` accepts is kept as it is, its checkpoint is below the commit
  -- frontier, every slot between them is committed with a decision, none from the frontier on
  -- is committed, and the queue, the log and the tracked IDs are within their limits.
  pub restore_sound :
      (config : ReplicaConfig) (s : ReplicaSnapshot V) (core : ReplicaCore V)
      → restore config s ≡ ok core
      → (snapshot core ≡ s)
        × (core.checkpointed_through < core.next_commit)
        × Settled core.log (core.checkpointed_through + 1) core.next_commit
        × NoneAhead core.next_commit core.log
        × (length core.pending ≤ config.max_pending_values)
        × (retained_slots core.log ≤ config.max_log_slots)
        × (length core.seen_value_ids ≤ config.max_tracked_value_ids)
  unfolding restore snapshot checked_next
  restore_sound config s core h =
      let facts : (core.log ≡ s.log)
          × (core.next_commit ≡ s.next_commit)
          × (core.checkpointed_through ≡ s.checkpointed_through)
          × (snapshot core ≡ s)
          × (core.checkpointed_through < core.next_commit)
          × (check_committed (core.next_commit - (core.checkpointed_through + 1)) core.log
                (core.checkpointed_through + 1)
              ≡ ok tt)
          × (is_ahead core.next_commit core.log ≡ false)
          × (length core.pending ≤ config.max_pending_values)
          × (retained_slots core.log ≤ config.max_log_slots)
          × (length core.seen_value_ids ≤ config.max_tracked_value_ids) =
        ground (arith, h) in
      (
        facts.3,
        facts.4,
        λ q l m.
            check_committed-Settled (core.next_commit - (core.checkpointed_through + 1)) core.log
              (core.checkpointed_through + 1) facts.5 q l (omega (arith, m, facts.4)),
        is_ahead-NoneAhead core.next_commit core.log facts.6,
        facts.7,
        facts.8,
        facts.9,
      )
