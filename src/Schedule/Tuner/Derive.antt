-- ===== src/Schedule/Tuner/Derive.antt =====
-- src/runtime/schedule.rs: the schedules that `EpochTuner` derives.
use native.Mathlib.Nat.{mul-div_cancel}
use mathlib.Core.Logic.{∥∥₁_elim}
use mathlib.Core.Bool.{Bool-set}
use mathlib.Core.List.{Perm, Permᴰ}
use mathlib.Core.List.Perm
use rust_quepaxa.Prelude.{
  ℕ, ◌*◌, ◌-◌, ◌%◌, ◌<◌, ◌≡◌, refl, sym, subst, ◌∙◌, ap, true, List, [], Option, arith, Eq, nat_eq,
  ltb, length, contains, Bool-cases, Option-cases, inl, inr, max, lt→ltb,
}
use rust_quepaxa.Prelude.Sorting.{sort_by, sort_by-Perm}
use rust_quepaxa.Prelude.Maps.{BTreeMap}
use rust_quepaxa.Error.{ok, Result-cases}
use rust_quepaxa.Types.Clock.{u64_mod}
use rust_quepaxa.Types.Keys.{ReplicaId}
use rust_quepaxa.Policy.{
  validate_replicas, rotated, round_robin, round_robin_sequence, round_robin_policy,
}
use rust_quepaxa.Policy.Order.{rotated-Perm, promote-Perm}
use rust_quepaxa.Policy.Adaptive.{reexplored}
use rust_quepaxa.Schedule.{EpochSchedule, new_schedule, from_policy, ReplicaRuntimeConfig}
use rust_quepaxa.Schedule.Tuner.{
  EpochTuner, derive, ranking, rank_members, required_history, is_fitter, total_through,
  warmup_epochs, auto_reexplore_epochs,
}

module _ {A : Type 0} ⦃e : Eq A⦄ where
  contains-Permᴰ : (a : A) {xs ys : List A} → Permᴰ xs ys → contains xs a ≡ contains ys a
  contains-Permᴰ a Permᴰ.nil = refl
  contains-Permᴰ a (Permᴰ.cons h p) = ground (arith, h, contains-Permᴰ a p)
  contains-Permᴰ a (Permᴰ.swap h k) = ground (arith, h, k)
  contains-Permᴰ a (Permᴰ.trans p q) = contains-Permᴰ a p ∙ contains-Permᴰ a q

  pub contains-Perm : (a : A) {xs ys : List A} → Perm xs ys → contains xs a ≡ contains ys a
  contains-Perm a p = ∥∥₁_elim p (Bool-set _ _) (contains-Permᴰ a)

pub new_schedule-is :
    (epoch : ℕ) (proposers : List ReplicaId) (s : EpochSchedule)
    → new_schedule epoch proposers ≡ ok s
    → s ≡ record { epoch = epoch; proposers = proposers }
unfolding new_schedule
new_schedule-is epoch proposers s h = ground (arith, h)

pub rank_members-Perm :
    (members : List ReplicaId) (totals : BTreeMap (ℕ × ℕ)) (epoch : ℕ)
    → Perm (rank_members members totals epoch) members
unfolding rank_members
rank_members-Perm members totals epoch =
    let sorted = sort_by-Perm (is_fitter totals) members in
    elim (Option-cases (reexplored auto_reexplore_epochs (epoch - warmup_epochs members) members)) [
      | inl e ↦ rw (e, rank_members) sorted
      | inr (a, e) ↦
          rw (e, rank_members)
            (Perm.trans (promote-Perm a (sort_by (is_fitter totals) members)) sorted)
    ]

pub ranking-Perm : (t : EpochTuner) (epoch : ℕ) → Perm (ranking t epoch) t.members
unfolding ranking
ranking-Perm t epoch = rank_members-Perm t.members (total_through (epoch - 2) t.stats []) epoch

-- A schedule that `derive` gives is for the epoch, and lists each member exactly once.
pub derive-Orders :
    (t : EpochTuner) (epoch : ℕ) (s : EpochSchedule)
    → derive t epoch ≡ ok s
    → (s.epoch ≡ epoch) × Perm s.proposers t.members
unfolding derive
derive-Orders t epoch s h = elim (Bool-cases (ltb epoch (warmup_epochs t.members))) [
  | inl k ↦
      let is =
        new_schedule-is epoch (rotated t.members (epoch % length t.members)) s
          (ground (arith, k, h)) in
      (
        ap (λ z. z.epoch) is,
        subst (λ z. Perm z.proposers t.members) (sym is)
            (rotated-Perm t.members (epoch % length t.members)),
      )
  | inr k ↦ elim (Result-cases (required_history t.epoch_size epoch)) [
    | inr (error, m) ↦ absurd (ground (arith, k, m, h))
    | inl (required, m) ↦ elim (Bool-cases (ltb t.stats_through required)) [
      | inl n ↦ absurd (ground (arith, k, m, n, h))
      | inr n ↦
          let is = new_schedule-is epoch (ranking t epoch) s (ground (arith, k, m, n, h)) in
          (
            ap (λ z. z.epoch) is,
            subst (λ z. Perm z.proposers t.members) (sym is) (ranking-Perm t epoch),
          )
    ]
  ]
]

pub warmup_derive :
    (t : EpochTuner) (epoch : ℕ)
    → epoch < warmup_epochs t.members
    → derive t epoch ≡ new_schedule epoch (rotated t.members (epoch % length t.members))
unfolding derive
warmup_derive t epoch l = ground (arith, l)

warmup_sequence :
    (size epoch : ℕ) (members : List ReplicaId) (winner : Option ReplicaId)
    → validate_replicas members ≡ ok tt
    → 0 < size
    → round_robin_sequence (round_robin size) (epoch * size) members winner
      ≡ ok (rotated members (epoch % length members))
unfolding round_robin_sequence round_robin
warmup_sequence size epoch members winner v p =
    let same : max size 1 ≡ size = omega (arith, p) in rw (same, mul-div_cancel epoch p, v) refl

-- In the epochs of the warm-up, the schedule that a tuner derives is the one that the round-robin
-- policy gives for a runtime with the same members, which pass the check of the replicas, and the
-- same epoch size, as long as the epoch's first slot is a `u64`.
pub derive-round_robin :
    (t : EpochTuner) (config : ReplicaRuntimeConfig) (epoch : ℕ) (winner : Option ReplicaId)
    → config.cluster.members ≡ t.members
    → config.epoch_size ≡ t.epoch_size
    → validate_replicas t.members ≡ ok tt
    → 0 < t.epoch_size
    → epoch * t.epoch_size < u64_mod
    → epoch < warmup_epochs t.members
    → from_policy config epoch (round_robin t.epoch_size) winner ≡ derive t epoch
unfolding from_policy
derive-round_robin t config epoch winner m s v p b l =
    let small : ltb (epoch * t.epoch_size) u64_mod ≡ true =
      lt→ltb (epoch * t.epoch_size) u64_mod b in
    rw (m, s, small, warmup_sequence t.epoch_size epoch t.members winner v p)
      (sym (warmup_derive t epoch l))
