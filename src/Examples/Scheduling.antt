-- ===== src/Examples/Scheduling.antt =====
-- The policies, the schedules and the tuners at concrete inputs.
use mathlib.Core.List.{Perm}
use mathlib.Core.List.Perm
use rust_quepaxa.Prelude.{
  ℕ, ◌+◌, ◌≡◌, ◌≢◌, refl, true, false, List, [], ◌∷◌, Option, none, some, arith, Bool,
}
use rust_quepaxa.Prelude.Sorting.{sort_by}
use rust_quepaxa.Prelude.Maps.{get, insert, retain}
use rust_quepaxa.Error.{Result, ok}
use rust_quepaxa.Types.Keys.{ReplicaId}
use rust_quepaxa.Types.Clock.{checked_next}
use rust_quepaxa.Cluster.Sorting.{to_set}
use rust_quepaxa.Policy.{
  round_robin_policy, round_robin, validate_replicas, rotated, fixed_sequence, round_robin_sequence,
  leaderless_sequence, last_winner_sequence,
}
use rust_quepaxa.Policy.Adaptive.{keep_last, new_adaptive, adaptive_sequence, reexplored}
use rust_quepaxa.Policy.Order.{Orders, sequences-Orders}
use rust_quepaxa.Schedule.{EpochSchedule, ReplicaRuntimeConfig, from_policy, new_schedule, leader}
use rust_quepaxa.Schedule.Hedging.{
  AdaptiveHedgingConfig, HedgeDelayTuner, observe, percentile_index, clamp,
}
use rust_quepaxa.Schedule.Percentile.{Tunes, observe-Tunes}
use rust_quepaxa.Schedule.Tuner.{
  EpochTuner, derive, ensure_schedule, note_committed, note_led, prune_epochs, required_history,
  ranking, rank_members, total_through, is_fitter, compare_leader_fitness,
}
use rust_quepaxa.Schedule.Tuner.Invariant.{IsTuned, ensure_schedule-Orders}
use rust_quepaxa.Schedule.Tuner.Noting.{note_committed-IsTuned}
use rust_quepaxa.Schedule.Tuner.Window.{derive_settled}
use rust_quepaxa.Schedule.Tuner.Derive.{derive-round_robin}
use rust_quepaxa.Replica.{default_replica_config}
use rust_quepaxa.Samples.{three}

abbrev members : List ReplicaId
members = 1 ∷ 2 ∷ 3 ∷ []

sequences-Orders_example :
    Orders members (fixed_sequence record {} 70 members (some 2))
    × Orders members (round_robin_sequence (round_robin 10) 70 members (some 2))
    × Orders members (leaderless_sequence record {} 70 members (some 2))
    × Orders members (last_winner_sequence record {} 70 members (some 2))
    × Orders members (adaptive_sequence (new_adaptive 10) 70 members (some 2))
sequences-Orders_example = sequences-Orders (round_robin 10) (new_adaptive 10) 70 members (some 2)

-- A tuner with epochs of two slots, before its first slot.
abbrev fresh : EpochTuner
fresh = record {
  epoch_size = 2;
  members = members;
  auto = true;
  schedules = [];
  stats = [];
  stats_through = 0;
}

fresh-IsTuned : IsTuned fresh
fresh-IsTuned = record { sized = omega arith; manned = refl; recent = tt; filed = tt }

note_committed-IsTuned_example :
    (u : EpochTuner) × ((r : Result Bool) × (note_committed fresh 1 4 ≡ some (u, r))
      × IsTuned u
      × (r ≡ ok true → (1 ≡ fresh.stats_through + 1) × (u.stats_through ≡ 1))
      × (r ≢ ok true → (u.stats ≡ fresh.stats) × (u.stats_through ≡ fresh.stats_through)))
note_committed-IsTuned_example = note_committed-IsTuned fresh 1 4 fresh-IsTuned

ensure_schedule-Orders_example : (◌≡◌ {A = ℕ} 4 4) × Perm (2 ∷ 3 ∷ 1 ∷ []) members
unfolding ensure_schedule derive new_schedule rotated to_set get
ensure_schedule-Orders_example =
    ensure_schedule-Orders fresh 4 (record { epoch = 4; proposers = 2 ∷ 3 ∷ 1 ∷ [] }) fresh-IsTuned
      refl refl

-- Epoch seven is past the warm-up, and slots 12 and 13 are those of epoch six.
abbrev ranked : EpochTuner
ranked = record {
  epoch_size = 2;
  members = members;
  auto = true;
  schedules = (6, record { epoch = 6; proposers = members }) ∷ [];
  stats =
      (4, record { leader = 2; slots = 2; decided_step_total = 8 })
      ∷ (5, record { leader = 3; slots = 2; decided_step_total = 12 })
      ∷ (6, record { leader = 1; slots = 1; decided_step_total = 8 })
      ∷ [];
  stats_through = 12;
}

ranked-IsTuned : IsTuned ranked
ranked-IsTuned = record {
  sized = omega arith;
  manned = refl;
  recent = (
    (refl, omega arith, omega arith, omega arith),
    (
      (refl, omega arith, omega arith, omega arith),
      ((refl, omega arith, omega arith, omega arith), tt),
    ),
  );
  filed = ((refl, λ a. Perm.refl members), tt);
}

-- The state in which slot 13 has been noted.
abbrev ranked_next : EpochTuner
ranked_next = record ranked {
  stats =
      (4, record { leader = 2; slots = 2; decided_step_total = 8 })
      ∷ (5, record { leader = 3; slots = 2; decided_step_total = 12 })
      ∷ (6, record { leader = 1; slots = 2; decided_step_total = 12 })
      ∷ [];
  stats_through = 13;
}

derive_settled_example : derive ranked_next 7 ≡ derive ranked 7
unfolding note_committed note_led prune_epochs ensure_schedule leader get insert retain checked_next
derive_settled_example =
    derive_settled ranked ranked_next 13 4 7 (ok true) ranked-IsTuned refl refl refl

abbrev runtime : ReplicaRuntimeConfig
runtime = record {
  replica_id = 1;
  lane_id = 0;
  cluster = three;
  replica = default_replica_config;
  epoch_size = 2;
  base_hedge_delay = 1000000;
  transport_timeout = 30000000000;
  auto_schedules = false;
  adaptive_hedging = none;
}

derive-round_robin_example : from_policy runtime 4 (round_robin 2) none ≡ derive fresh 4
unfolding validate_replicas to_set
derive-round_robin_example =
    derive-round_robin fresh runtime 4 none refl refl refl (omega arith) (omega arith) (omega arith)

abbrev hedging : AdaptiveHedgingConfig
hedging = record { min_delay = 10; max_delay = 90; sample_window = 4; percentile = 75 }

abbrev tuner : HedgeDelayTuner
tuner = record { current = 50; config = some hedging; samples = 99 ∷ 30 ∷ 20 ∷ 60 ∷ [] }

-- The third of the four samples 20, 30, 40 and 60.
chosen_delay : (observe tuner 40).current ≡ 40
unfolding observe percentile_index clamp keep_last sort_by
chosen_delay = refl

observe-Tunes_example : Tunes hedging tuner 40 (observe tuner 40)
observe-Tunes_example =
    observe-Tunes tuner hedging 40 refl (omega arith, omega arith, omega arith, omega arith)

-- A tuner with epochs of one slot, the replicas 1 and 2 and the slots through 68 in its statistics.
abbrev aged : EpochTuner
aged = record {
  epoch_size = 1;
  members = 1 ∷ 2 ∷ [];
  auto = true;
  schedules = (69, record { epoch = 69; proposers = 1 ∷ 2 ∷ [] }) ∷ [];
  stats = (4, record { leader = 2; slots = 1; decided_step_total = 4 }) ∷ [];
  stats_through = 68;
}

abbrev after_noting : Option (EpochTuner × Result Bool)
unfolding note_committed note_led prune_epochs ensure_schedule leader get insert retain checked_next
after_noting = note_committed aged 69 4

abbrev derived_after : Option (EpochTuner × Result Bool) → Option (Result EpochSchedule)
derived_after none = none
derived_after (some (t, r)) = some (derive t 70)

-- The schedule of epoch 70 has one proposer order before slot 69 is noted and another after it.
derived_before : derive aged 70 ≡ ok (record { epoch = 70; proposers = 2 ∷ 1 ∷ [] })
unfolding derive ranking rank_members new_schedule required_history reexplored sort_by is_fitter
    compare_leader_fitness get total_through insert to_set
derived_before = refl

derived_later :
    derived_after after_noting ≡ some (ok (record { epoch = 70; proposers = 1 ∷ 2 ∷ [] }))
unfolding derive ranking rank_members new_schedule after_noting required_history reexplored sort_by
    is_fitter compare_leader_fitness total_through to_set
derived_later = refl
