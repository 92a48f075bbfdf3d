-- ===== src/Schedule/Tuner.antt =====
-- src/runtime/schedule.rs: `EpochTuner`, which derives the schedules from the committed log.
--
-- The members are those of a cluster identity, so there is at least one.
pub mod Invariant
pub mod Derive
pub mod Noting
pub mod Restoring
pub mod Window
use Prim.Native.Nat.{compare, Ordering}
use rust_quepaxa.Prelude.{
  ℕ, zero, suc, ◌+◌, ◌*◌, ◌-◌, ◌/◌, ◌%◌, ◌^◌, Bool, true, false, not, ◌||◌, ◌&&◌, List, [], ◌∷◌,
  Option, none, some, ◌==◌, ◌!=◌, nat_eq, option_eq, eqb, ltb, leb, if◌then◌else◌, length, contains,
  max, min,
}
use rust_quepaxa.Prelude.Sorting.{sort_by}
use rust_quepaxa.Prelude.Maps.{BTreeMap, get, insert, retain}
use rust_quepaxa.Error.{
  Result, ok, err, ◌>>=◌, ◌>>◌, reject_if, ok_or, for_each, slot_overflow, policy_error,
  inconsistent_statistics, schedule_key_mismatch, schedules_are_derived, different_schedule,
  no_schedule, statistics_not_contiguous, history_required,
}
use rust_quepaxa.Types.{SlotIndex}
use rust_quepaxa.Types.Clock.{Step, u64_max, checked_add, checked_mul, checked_next}
use rust_quepaxa.Types.Keys.{ReplicaId}
use rust_quepaxa.Policy.{rotated}
use rust_quepaxa.Policy.Adaptive.{promote, reexplored}
use rust_quepaxa.Schedule.{EpochSchedule, schedule_eq, new_schedule, leader}

pub record EpochStat : Type 0 where
  pub leader : ReplicaId
  pub slots : ℕ
  pub decided_step_total : ℕ

abbrev pub retained_stat_epochs : ℕ
retained_stat_epochs = 64

abbrev pub auto_reexplore_epochs : ℕ
auto_reexplore_epochs = 32

pub record EpochTuner : Type 0 where
  pub epoch_size : ℕ
  pub members : List ReplicaId
  pub auto : Bool
  pub schedules : BTreeMap EpochSchedule
  pub stats : BTreeMap EpochStat
  pub stats_through : SlotIndex

unfoldable pub new : ℕ → List ReplicaId → Bool → EpochTuner
new epoch_size members auto = record {
  epoch_size = max epoch_size 1;
  members = members;
  auto = auto;
  schedules = [];
  stats = [];
  stats_through = 0;
}

-- A restored statistic that the committed log cannot have.
abbrev is_inconsistent : EpochTuner → SlotIndex → ℕ × EpochStat → Bool
is_inconsistent tuner stats_through (epoch, stat) =
    not (contains tuner.members stat.leader)
    || stat.slots == 0
    || ltb (stats_through / tuner.epoch_size) epoch

unfoldable pub restore :
    ℕ
    → List ReplicaId
    → Bool
    → BTreeMap EpochSchedule
    → BTreeMap EpochStat
    → SlotIndex
    → Result EpochTuner
unfolding new
restore epoch_size members auto schedules stats stats_through =
    let tuner = new epoch_size members auto in
    for_each
      (λ entry.
        reject_if (is_inconsistent tuner stats_through entry)
          (policy_error inconsistent_statistics))
      stats
    >> for_each (λ entry. reject_if (entry.0 != entry.1.epoch) (policy_error schedule_key_mismatch))
        schedules
    >> ok (record tuner { schedules = schedules; stats = stats; stats_through = stats_through })

unfoldable pub reconfigure : EpochTuner → List ReplicaId → SlotIndex → EpochTuner
reconfigure self members committed_through = record self {
  members = members;
  schedules = [];
  stats = [];
  stats_through = committed_through;
}

unfoldable pub install : EpochTuner → EpochSchedule → EpochTuner × Result Bool
install self schedule =
    if self.auto
    then (self, err (policy_error schedules_are_derived))
    else elim (get schedule.epoch self.schedules) [
      | some existing ↦
          if existing != schedule
          then (self, err (policy_error (different_schedule schedule.epoch)))
          else (self, ok false)
      | none ↦ (record self { schedules = insert schedule.epoch schedule self.schedules }, ok true)
    ]

-- `compare_leader_fitness`, over slots and total steps; the `u128` products wrap.
unfoldable pub compare_leader_fitness : Option (ℕ × ℕ) → Option (ℕ × ℕ) → Ordering
compare_leader_fitness (some (slots_a, total_a)) (some (slots_b, total_b)) =
    compare ((total_a * slots_b) % 2 ^ 128) ((total_b * slots_a) % 2 ^ 128)
compare_leader_fitness (some a) none = Ordering.lt
compare_leader_fitness none (some b) = Ordering.gt
compare_leader_fitness none none = Ordering.eq

abbrev entry_of : Option (ℕ × ℕ) → ℕ × ℕ
entry_of none = (0, 0)
entry_of (some entry) = entry

abbrev add_stat : EpochStat → BTreeMap (ℕ × ℕ) → BTreeMap (ℕ × ℕ)
add_stat stat totals =
    let entry = entry_of (get stat.leader totals) in
    insert stat.leader (entry.0 + stat.slots, entry.1 + stat.decided_step_total) totals

-- The loop over `stats.range(..=window_end)`.
unfoldable pub total_through : ℕ → BTreeMap EpochStat → BTreeMap (ℕ × ℕ) → BTreeMap (ℕ × ℕ)
total_through window_end [] totals = totals
total_through window_end ((epoch, stat) ∷ stats) totals =
    total_through window_end stats (if leb epoch window_end then add_stat stat totals else totals)

-- The comparison of the sort: the fitter leader first, then the smaller identifier.
unfoldable pub is_fitter : BTreeMap (ℕ × ℕ) → ReplicaId → ReplicaId → Bool
is_fitter totals left right = elim (compare_leader_fitness (get left totals) (get right totals)) [
  | Ordering.lt ↦ true
  | Ordering.eq ↦ leb left right
  | Ordering.gt ↦ false
]

-- The number of epochs that rotate the leader.
abbrev pub warmup_epochs : List ReplicaId → ℕ
warmup_epochs members = 2 * length members + 1

-- The last committed slot that a schedule of the epoch needs, for a size of epochs.
unfoldable pub required_history : ℕ → ℕ → Result SlotIndex
required_history epoch_size epoch = do
  start ← elim (checked_add (epoch - 2) 1) [
    | none ↦ err slot_overflow
    | some following ↦ ok_or (checked_mul following epoch_size) slot_overflow
  ]
  ok (start - 1)

-- The members in the order of their totals, or with another one first.
unfoldable pub rank_members : List ReplicaId → BTreeMap (ℕ × ℕ) → ℕ → List ReplicaId
rank_members members totals epoch =
    let ranked = sort_by (is_fitter totals) members in
    elim (reexplored auto_reexplore_epochs (epoch - warmup_epochs members) members) [
      | none ↦ ranked
      | some candidate ↦ promote candidate ranked
    ]

-- The ranking of the members by the statistics through two epochs before.
unfoldable pub ranking : EpochTuner → ℕ → List ReplicaId
ranking self epoch = rank_members self.members (total_through (epoch - 2) self.stats []) epoch

unfoldable pub derive : EpochTuner → ℕ → Result EpochSchedule
derive self epoch =
    if ltb epoch (warmup_epochs self.members)
    then new_schedule epoch (rotated self.members (epoch % length self.members))
    else elim (required_history self.epoch_size epoch) [
      | err error ↦ err error
      | ok required ↦
          if ltb self.stats_through required
          then err (policy_error (history_required epoch required))
          else new_schedule epoch (ranking self epoch)
    ]

unfoldable pub ensure_schedule : EpochTuner → ℕ → EpochTuner × Result EpochSchedule
ensure_schedule self epoch = elim (get epoch self.schedules) [
  | some schedule ↦ (self, ok schedule)
  | none ↦
      if not self.auto
      then (self, err (policy_error (no_schedule epoch)))
      else elim (derive self epoch) [
        | err error ↦ (self, err error)
        | ok schedule ↦
            (record self { schedules = insert epoch schedule self.schedules }, ok schedule)
      ]
]

abbrev stat_of : ReplicaId → Option EpochStat → EpochStat
stat_of leader none = record { leader = leader; slots = 0; decided_step_total = 0 }
stat_of leader (some stat) = stat

-- `u64::saturating_add`
abbrev saturating_add : ℕ → ℕ → ℕ
saturating_add a b = min (a + b) u64_max

abbrev count_step : Step → EpochStat → EpochStat
count_step decided_step stat = record stat {
  slots = saturating_add stat.slots 1;
  decided_step_total = saturating_add stat.decided_step_total decided_step;
}

-- The retention behind `epoch.checked_sub(RETAINED_STAT_EPOCHS)`.
unfoldable pub prune_epochs : EpochTuner → ℕ → EpochTuner
prune_epochs self epoch = if ltb epoch retained_stat_epochs then self else record self {
  stats = retain (leb (epoch - retained_stat_epochs)) self.stats;
  schedules = retain (leb (epoch - retained_stat_epochs)) self.schedules;
}

-- A slot of an epoch whose leader is known.
unfoldable pub note_led : EpochTuner → SlotIndex → Step → ReplicaId → EpochTuner
note_led self slot decided_step leader =
    let epoch = slot / self.epoch_size in
    let stat = count_step decided_step (stat_of leader (get epoch self.stats)) in
    prune_epochs (record self { stats = insert epoch stat self.stats; stats_through = slot }) epoch

-- `note_committed`, which panics (`none`) where the schedule of the epoch has no proposer.
unfoldable pub note_committed : EpochTuner → SlotIndex → Step → Option (EpochTuner × Result Bool)
note_committed self slot decided_step =
    if not self.auto || leb slot self.stats_through
    then some (self, ok false)
    else if some slot != checked_next self.stats_through
    then some (self, err (policy_error statistics_not_contiguous))
    else let (ensured, found) = ensure_schedule self (slot / self.epoch_size) in
      elim found [
        | err error ↦ some (ensured, err error)
        | ok schedule ↦ elim (leader schedule) [
          | none ↦ none
          | some leader ↦ some (note_led ensured slot decided_step leader, ok true)
        ]
      ]
