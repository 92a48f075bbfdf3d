-- ===== src/Schedule/Tuner/Restoring.antt =====
-- src/runtime/schedule.rs: `EpochTuner::restore`.
use rust_quepaxa.Prelude.{◌/◌, ◌≡◌, refl, Bool, List, [], ◌∷◌, arith, nat_eq, ◌!=◌, max}
use rust_quepaxa.Prelude.Maps.{BTreeMap, Entries}
use rust_quepaxa.Error.{
  ok, for_each, reject_if, policy_error, inconsistent_statistics, schedule_key_mismatch,
}
use rust_quepaxa.Types.{SlotIndex}
use rust_quepaxa.Types.Keys.{ReplicaId}
use rust_quepaxa.Schedule.{EpochSchedule}
use rust_quepaxa.Schedule.Tuner.{EpochTuner, EpochStat, new, restore, is_inconsistent}
use rust_quepaxa.Schedule.Tuner.Invariant.{IsTuned, IsRecent, IsFiled}

stats_accepted :
    (tuner : EpochTuner) (through : SlotIndex) (stats : BTreeMap EpochStat)
    → Entries (IsRecent tuner.members (through / tuner.epoch_size)) stats
    → for_each
        (λ entry.
          reject_if (is_inconsistent tuner through entry) (policy_error inconsistent_statistics))
        stats
      ≡ ok tt
stats_accepted tuner through [] a = refl
stats_accepted tuner through ((epoch, stat) ∷ stats) a =
    ground (arith, a.0, stats_accepted tuner through stats a.1)

schedules_accepted :
    (auto : Bool) (members : List ReplicaId) (schedules : BTreeMap EpochSchedule)
    → Entries (IsFiled auto members) schedules
    → for_each
        (λ entry. reject_if (entry.0 != entry.1.epoch) (policy_error schedule_key_mismatch))
        schedules
      ≡ ok tt
schedules_accepted auto members [] a = refl
schedules_accepted auto members ((epoch, s) ∷ schedules) a =
    let filed : epoch ≡ s.epoch = a.0.0 in
    ground (arith, filed, schedules_accepted auto members schedules a.1)

-- `restore` accepts the state of a tuner in the invariant and gives that tuner back.
pub restore-IsTuned :
    (t : EpochTuner)
    → IsTuned t
    → restore t.epoch_size t.members t.auto t.schedules t.stats t.stats_through ≡ ok t
unfolding restore new
restore-IsTuned t i =
    let size : max t.epoch_size 1 ≡ t.epoch_size = omega (arith, i.sized) in
    rw
      (
        size,
        stats_accepted t t.stats_through t.stats i.recent,
        schedules_accepted t.auto t.members t.schedules i.filed,
      )
      refl
