-- ===== src/Policy/Adaptive.antt =====
-- src/policy.rs: `AdaptivePolicy`, which ranks leaders by the durations of their epochs.
use rust_quepaxa.Prelude.{
  ℕ, ◌+◌, ◌*◌, ◌-◌, ◌/◌, ◌%◌, Bool, ◌&&◌, ◌||◌, List, [], ◌∷◌, ◌++◌, Option, none, some, ◌==◌,
  nat_eq, eqb, ltb, leb, if◌then◌else◌, length, max, nth, remove_at, position,
}
use rust_quepaxa.Prelude.Sorting.{sort_by}
use rust_quepaxa.Prelude.Maps.{BTreeMap, get, insert}
use rust_quepaxa.Error.{Result, ok, ◌>>◌}
use rust_quepaxa.Types.{SlotIndex}
use rust_quepaxa.Types.Clock.{u64_mod, u64_max}
use rust_quepaxa.Types.Keys.{ReplicaId}
use rust_quepaxa.Policy.{
  Duration, one_second, HedgingPolicy, validate_replicas, rotated, delay_by_position,
}

pub record AdaptivePolicy : Type 0 where
  pub epoch_size : ℕ
  pub samples : BTreeMap (List Duration)
  pub sample_window : ℕ
  pub reexplore_every_epochs : ℕ

-- `AdaptivePolicy::new`
unfoldable pub new_adaptive : ℕ → AdaptivePolicy
new_adaptive epoch_size = record {
  epoch_size = max epoch_size 1;
  samples = [];
  sample_window = 16;
  reexplore_every_epochs = 32;
}

unfoldable pub with_sample_window : AdaptivePolicy → ℕ → AdaptivePolicy
with_sample_window self epochs_per_leader = record self { sample_window = max epochs_per_leader 1 }

unfoldable pub with_reexploration_interval : AdaptivePolicy → ℕ → AdaptivePolicy
with_reexploration_interval self epochs = record self { reexplore_every_epochs = max epochs 1 }

-- `while samples.len() > window { samples.pop_front() }`
unfoldable pub keep_last : {A : Type 0} → ℕ → List A → List A
keep_last window [] = []
keep_last window (sample ∷ samples) =
    if ltb window (length (sample ∷ samples)) then keep_last window samples else sample ∷ samples

abbrev samples_of : Option (List Duration) → List Duration
samples_of none = []
samples_of (some samples) = samples

unfoldable pub record_epoch : AdaptivePolicy → ReplicaId → Duration → AdaptivePolicy
record_epoch self leader duration = record self {
  samples =
      insert leader
        (keep_last self.sample_window (samples_of (get leader self.samples) ++ duration ∷ []))
        self.samples;
}

abbrev pub total : List Duration → ℕ
total [] = 0
total (sample ∷ samples) = sample + total samples

-- The average, in whole nanoseconds as a `u64`.
unfoldable pub average_duration : AdaptivePolicy → ReplicaId → Option Duration
average_duration self replica = elim (get replica self.samples) [
  | none ↦ none
  | some samples ↦ some ((total samples / length samples) % u64_mod)
]

-- `unwrap_or(Duration::from_secs(u64::MAX / 2))`
abbrev rank_of : AdaptivePolicy → ReplicaId → Duration
rank_of self replica = elim (average_duration self replica) [
  | none ↦ (u64_max / 2) * one_second
  | some average ↦ average
]

-- The key `(average, replica)` of the sort.
unfoldable pub ranks_at_most : AdaptivePolicy → ReplicaId → ReplicaId → Bool
ranks_at_most self a b =
    ltb (rank_of self a) (rank_of self b) || (eqb (rank_of self a) (rank_of self b) && leb a b)

-- `ranked.remove(position)` and `ranked.insert(0, ..)`; every caller names a listed replica.
unfoldable pub promote : ReplicaId → List ReplicaId → List ReplicaId
promote replica ranked = elim (position (λ candidate. candidate == replica) ranked) [
  | none ↦ ranked
  | some place ↦ replica ∷ remove_at place ranked
]

-- The member that re-exploration puts first in an epoch after warm-up, if it is its turn.
unfoldable pub reexplored : ℕ → ℕ → List ReplicaId → Option ReplicaId
reexplored interval exploitation_epoch replicas =
    if ltb 0 exploitation_epoch && exploitation_epoch % interval == 0
    then nth ((exploitation_epoch / interval) % length replicas) replicas
    else none

unfoldable pub adaptive_sequence :
    AdaptivePolicy → SlotIndex → List ReplicaId → Option ReplicaId → Result (List ReplicaId)
adaptive_sequence self slot replicas previous_winner =
    let epoch = slot / self.epoch_size in
    let warmup_epochs = 2 * length replicas + 1 in
    let ranked = sort_by (ranks_at_most self) replicas in
    validate_replicas replicas
    >> (if ltb epoch warmup_epochs
        then ok (rotated replicas (epoch % length replicas))
        else elim (reexplored self.reexplore_every_epochs (epoch - warmup_epochs) replicas) [
          | none ↦ ok ranked
          | some replica ↦ ok (promote replica ranked)
        ])

instance abbrev pub adaptive_policy : HedgingPolicy AdaptivePolicy
adaptive_policy = record {
  leader_sequence = adaptive_sequence;
  delay_for = λ self. delay_by_position;
}
