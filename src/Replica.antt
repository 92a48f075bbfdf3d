-- ===== src/Replica.antt =====
-- src/replica.rs: `ReplicaCore`, the pipeline of proposals and the replicated log of one replica.
pub mod Values
pub mod Open
pub mod Commit
pub mod Apply
pub mod Queue
pub mod Tracking
pub mod Prune
pub mod Enqueue
pub mod Restore
use rust_quepaxa.Prelude.{
  take, drop, take-drop, ℕ, zero, suc, ◌+◌, ◌-◌, ◌≡◌, min, max, Bool, true, false, ◌&&◌, ◌||◌, not,
  List, [], ◌∷◌, ◌++◌, Option, none, some, Eq, ◌==◌, ◌!=◌, nat_eq, list_eq, eqb, ltb, leb,
  if◌then◌else◌, length, any, all, tally, contains, has_duplicates, is_empty,
}
use rust_quepaxa.Prelude.Maps.{BTreeMap, get, contains_key, insert, retain, keys, values}
use rust_quepaxa.Error.{
  Result, ok, err, ◌>>=◌, ◌>>◌, reject_if, ok_or, empty_proposal, empty_decision, invalid_proposal,
  slot_overflow, resource_limit, conflicting_decision, pending_value_ids, retained_log_slots,
  tracked_value_ids, untracked_value_id, missing_genesis, skipped_committed_slot,
  future_slot_committed, duplicate_decision_values, duplicate_proposal_values,
}
use rust_quepaxa.Types.{Decision, SlotIndex}
use rust_quepaxa.Types.Clock.{checked_next, u64_mod}
use Values.{fresh_values, unseen, extend}

pub record ReplicaConfig : Type 0 where
  pub batch_size : ℕ
  pub pipeline_len : ℕ
  pub max_pending_values : ℕ
  pub max_log_slots : ℕ
  pub max_tracked_value_ids : ℕ

abbrev pub default_replica_config : ReplicaConfig
default_replica_config = record {
  batch_size = 64;
  pipeline_len = 1;
  max_pending_values = 65536;
  max_log_slots = 4096;
  max_tracked_value_ids = 1048576;
}

abbrev pub genesis : SlotIndex
genesis = 0

pub record LogSlot (V : Type 0) : Type 0 where
  pub proposed : List V
  pub decision : Option (Decision V)
  pub committed : Bool

pub record ReplicaSnapshot (V : Type 0) : Type 0 where
  pub log : BTreeMap (LogSlot V)
  pub pending : List V
  pub last_proposed : SlotIndex
  pub next_commit : SlotIndex
  pub checkpointed_through : SlotIndex
  pub seen_value_ids : List V

pub record ReplicaCore (V : Type 0) : Type 0 where
  pub config : ReplicaConfig
  pub log : BTreeMap (LogSlot V)
  pub pending : List V
  pub last_proposed : SlotIndex
  pub next_commit : SlotIndex
  pub checkpointed_through : SlotIndex
  pub seen_value_ids : List V

module _ {V : Type 0} where
  -- `LogSlot::default` and `entry(slot).or_default()`
  abbrev pub empty_slot : LogSlot V
  empty_slot = record { proposed = []; decision = none; committed = false }

  abbrev pub slot_or_default : Option (LogSlot V) → LogSlot V
  slot_or_default none = empty_slot
  slot_or_default (some entry) = entry

  unfoldable pub new : ReplicaConfig → ReplicaCore V
  new config = record {
    config = config;
    log = (genesis, record { proposed = []; decision = none; committed = true }) ∷ [];
    pending = [];
    last_proposed = genesis;
    next_commit = 1;
    checkpointed_through = genesis;
    seen_value_ids = [];
  }

  unfoldable pub snapshot : ReplicaCore V → ReplicaSnapshot V
  snapshot self = record {
    log = self.log;
    pending = self.pending;
    last_proposed = self.last_proposed;
    next_commit = self.next_commit;
    checkpointed_through = self.checkpointed_through;
    seen_value_ids = self.seen_value_ids;
  }

  -- The slots but genesis.
  abbrev pub retained_slots : BTreeMap (LogSlot V) → ℕ
  retained_slots log = tally (λ k. k != genesis) (keys log)

  unfoldable pub committed_through : ReplicaCore V → SlotIndex
  committed_through self = self.next_commit - 1

  abbrev pub is_some : Option (Decision V) → Bool
  is_some none = false
  is_some (some d) = true

  abbrev pub is_committed : Option (LogSlot V) → Bool
  is_committed none = false
  is_committed (some entry) = entry.committed

  -- A slot that is decided or proposed into.
  unfoldable pub is_claimed : Option (LogSlot V) → Bool
  is_claimed none = false
  is_claimed (some entry) = is_some entry.decision || not (is_empty entry.proposed)

  -- The loop of `next_open_slot`; its fuel is 2^64 less the slot.
  unfoldable pub next_open_from : ℕ → BTreeMap (LogSlot V) → SlotIndex → Result SlotIndex
  next_open_from zero log slot = err slot_overflow
  next_open_from (suc fuel) log slot = elim (is_claimed (get slot log)) [
    | false ↦ ok slot
    | true ↦ elim (checked_next slot) [
      | none ↦ err slot_overflow
      | some following ↦ next_open_from fuel log following
    ]
  ]

  unfoldable pub next_open_slot : ReplicaCore V → Result SlotIndex
  next_open_slot self = next_open_from (u64_mod - self.next_commit) self.log self.next_commit

  abbrev pub is_inflight : SlotIndex → LogSlot V → Bool
  is_inflight slot entry = not entry.committed && not (is_empty entry.proposed)

  unfoldable pub count_inflight : SlotIndex → BTreeMap (LogSlot V) → ℕ
  count_inflight next_commit [] = 0
  count_inflight next_commit ((slot, entry) ∷ log) =
      let rest = count_inflight next_commit log in
      if leb next_commit slot && is_inflight slot entry then suc rest else rest

  abbrev pub inflight_count : ReplicaCore V → ℕ
  inflight_count self = count_inflight self.next_commit self.log

  unfoldable pub ensure_log_capacity : ReplicaCore V → SlotIndex → Result (Unit {0})
  ensure_log_capacity self slot =
      reject_if
        (not (contains_key slot self.log)
          && leb self.config.max_log_slots (retained_slots self.log))
        (resource_limit retained_log_slots self.config.max_log_slots)

  -- The loop of `commit_ready`, with the decisions committed so far; its fuel is 2^64 less the slot.
  unfoldable pub commit_from :
      ℕ → ReplicaCore V → List (Decision V) → ReplicaCore V × Result (List (Decision V))
  commit_from zero self committed = (self, err slot_overflow)
  commit_from (suc fuel) self committed = elim (get self.next_commit self.log) [
    | none ↦ (self, ok committed)
    | some entry ↦ elim entry.committed [
      | true ↦ elim (checked_next self.next_commit) [
        | none ↦ (self, err slot_overflow)
        | some following ↦ commit_from fuel (record self { next_commit = following }) committed
      ]
      | false ↦ elim entry.decision [
        | none ↦ (self, ok committed)
        | some decision ↦
            let log' =
              insert self.next_commit (record entry { committed = true; proposed = [] }) self.log in
            elim (checked_next self.next_commit) [
              | none ↦ (record self { log = log' }, err slot_overflow)
              | some following ↦
                  commit_from fuel (record self { log = log'; next_commit = following })
                    (committed ++ decision ∷ [])
            ]
      ]
    ]
  ]

  unfoldable pub commit_ready : ReplicaCore V → ReplicaCore V × Result (List (Decision V))
  commit_ready self = commit_from (u64_mod - self.next_commit) self []

  -- The test of `prune_through` on one slot.
  abbrev pub is_kept : SlotIndex → SlotIndex → LogSlot V → Bool
  is_kept through slot entry = slot == genesis || ltb through slot || not entry.committed

  unfoldable pub retain_log : SlotIndex → BTreeMap (LogSlot V) → BTreeMap (LogSlot V)
  retain_log through [] = []
  retain_log through ((slot, entry) ∷ log) =
      let rest = retain_log through log in
      if is_kept through slot entry then (slot, entry) ∷ rest else rest

  unfoldable pub prune_through : ReplicaCore V → SlotIndex → ReplicaCore V
  prune_through self slot =
      let through = max (min slot (committed_through self)) self.checkpointed_through in
      record self { log = retain_log through self.log; checkpointed_through = through }

module _ {V : Type 0} ⦃e : Eq V⦄ where
  unfoldable pub enqueue : ReplicaCore V → List V → ReplicaCore V × Result (Unit {0})
  enqueue self value_ids =
      let fresh = fresh_values self.seen_value_ids [] value_ids in
      if ltb self.config.max_pending_values (length self.pending + length fresh)
      then (self, err (resource_limit pending_value_ids self.config.max_pending_values))
      else if ltb self.config.max_tracked_value_ids (length self.seen_value_ids + length fresh)
      then (self, err (resource_limit tracked_value_ids self.config.max_tracked_value_ids))
      else (
        record self {
          seen_value_ids = extend self.seen_value_ids fresh;
          pending = self.pending ++ fresh;
        },
        ok tt,
      )

  unfoldable pub note_proposed :
      ReplicaCore V → SlotIndex → List V → ReplicaCore V × Result (Unit {0})
  note_proposed self slot value_ids =
      let fresh = unseen self.seen_value_ids value_ids in
      if is_empty value_ids
      then (self, err empty_proposal)
      else if has_duplicates value_ids
      then (self, err (invalid_proposal duplicate_proposal_values))
      else if ltb self.config.max_tracked_value_ids (length self.seen_value_ids + length fresh)
      then (self, err (resource_limit tracked_value_ids self.config.max_tracked_value_ids))
      else elim (ensure_log_capacity self slot) [
        | err error ↦ (self, err error)
        | ok _ ↦ (
          record self {
            seen_value_ids = extend self.seen_value_ids fresh;
            last_proposed = max self.last_proposed slot;
            log =
                insert slot (record (slot_or_default (get slot self.log)) { proposed = value_ids })
                  self.log;
          },
          ok tt,
        )
      ]

  unfoldable pub next_proposal :
      ReplicaCore V → ReplicaCore V × Result (Option (SlotIndex × List V))
  next_proposal self =
      if leb self.config.pipeline_len (inflight_count self) || is_empty self.pending
      then (self, ok none)
      else elim (next_open_slot self) [
        | err error ↦ (self, err error)
        | ok slot ↦
            let count = max (min self.config.batch_size (length self.pending)) 1 in
            let batch = take count self.pending in
            let (self', noted) =
              note_proposed (record self { pending = drop count self.pending }) slot batch in
            elim noted [ err error ↦ (self', err error) | ok _ ↦ (self', ok (some (slot, batch))) ]
      ]

  -- `!slot.proposed.is_empty() && slot.proposed != decision.value_ids`
  abbrev pub loses : LogSlot V → Decision V → Bool
  loses entry decision = not (is_empty entry.proposed) && entry.proposed != decision.value_ids

  -- The values of a losing proposal that were not decided.
  abbrev pub requeued : LogSlot V → Decision V → List V
  requeued entry decision =
      if loses entry decision then unseen decision.value_ids entry.proposed else []

  -- `apply_decision` behind its checks.
  unfoldable pub settle :
      ReplicaCore V → Decision V → List V → ReplicaCore V × Result (List (Decision V))
  settle self decision fresh =
      let entry = slot_or_default (get decision.slot self.log) in
      let opened = record self { log = insert decision.slot entry self.log } in
      elim entry.decision [
        | some existing ↦
            if existing.value_ids != decision.value_ids
            then (opened, err (conflicting_decision decision.slot))
            else (opened, ok [])
        | none ↦
            if loses entry decision
              && ltb self.config.max_pending_values
                  (length self.pending + length (requeued entry decision))
            then (opened, err (resource_limit pending_value_ids self.config.max_pending_values))
            else commit_ready (record self {
              pending = requeued entry decision ++ self.pending;
              log = insert decision.slot (record entry { decision = some decision }) self.log;
              seen_value_ids = extend self.seen_value_ids fresh;
            })
      ]

  unfoldable pub apply_decision :
      ReplicaCore V → Decision V → ReplicaCore V × Result (List (Decision V))
  apply_decision self decision =
      let fresh = unseen self.seen_value_ids decision.value_ids in
      if is_empty decision.value_ids
      then (self, err empty_decision)
      else if has_duplicates decision.value_ids
      then (self, err (invalid_proposal duplicate_decision_values))
      else if ltb self.config.max_tracked_value_ids (length self.seen_value_ids + length fresh)
      then (self, err (resource_limit tracked_value_ids self.config.max_tracked_value_ids))
      else elim (ensure_log_capacity self decision.slot) [
        | err error ↦ (self, err error)
        | ok _ ↦ settle self decision fresh
      ]
