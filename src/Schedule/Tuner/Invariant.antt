-- ===== src/Schedule/Tuner/Invariant.antt =====
-- src/runtime/schedule.rs: the invariant of `EpochTuner`.
use native.Mathlib.Nat.{le-div_iff_mul-le, div-mul-le_self}
use mathlib.Core.List.{Perm}
use rust_quepaxa.Prelude.{
  ℕ, ◌+◌, ◌-◌, ◌/◌, ◌≤◌, ◌<◌, ◌≡◌, refl, sym, subst, ap, Bool, true, false, List, none, arith,
  nat_eq, ltb, leb, contains, is_empty, Bool-cases, Option-cases, inl, inr, ◌⊎◌,
}
use rust_quepaxa.Prelude.Maps.{
  get, insert, Entries, Entries-insert, Entries-get, Entries-imp, Entries-retain, Entries-kept,
}
use rust_quepaxa.Error.{ok, Result-cases}
use rust_quepaxa.Types.{SlotIndex}
use rust_quepaxa.Types.Clock.{Step}
use rust_quepaxa.Types.Keys.{ReplicaId}
use rust_quepaxa.Schedule.{EpochSchedule}
use rust_quepaxa.Schedule.Tuner.{
  EpochTuner, EpochStat, new, reconfigure, install, derive, ensure_schedule, note_led, prune_epochs,
  stat_of, count_step,
}
use rust_quepaxa.Schedule.Tuner.Derive.{derive-Orders}

-- A statistic of an epoch that is not in the future and not too far in the past.
abbrev pub IsRecent : List ReplicaId → ℕ → ℕ → EpochStat → Type 0
IsRecent members frontier epoch stat =
    (contains members stat.leader ≡ true)
    × (0 < stat.slots)
    × (epoch ≤ frontier)
    × (frontier ≤ epoch + 64)

-- A schedule that is filed under its epoch; a derived one lists every member once.
abbrev pub IsFiled : Bool → List ReplicaId → ℕ → EpochSchedule → Type 0
IsFiled auto members epoch schedule =
    (epoch ≡ schedule.epoch) × (auto ≡ true → Perm schedule.proposers members)

-- The epoch of the last committed slot.
abbrev pub frontier : EpochTuner → ℕ
frontier t = t.stats_through / t.epoch_size

pub record IsTuned (t : EpochTuner) : Type 0 where
  pub sized : 0 < t.epoch_size
  pub manned : is_empty t.members ≡ false
  pub recent : Entries (IsRecent t.members (frontier t)) t.stats
  pub filed : Entries (IsFiled t.auto t.members) t.schedules

pub new-IsTuned :
    (epoch_size : ℕ) (members : List ReplicaId) (auto : Bool)
    → is_empty members ≡ false
    → IsTuned (new epoch_size members auto)
unfolding new
new-IsTuned epoch_size members auto m = record {
  sized = omega arith;
  manned = m;
  recent = tt;
  filed = tt;
}

pub reconfigure-IsTuned :
    (t : EpochTuner) (members : List ReplicaId) (through : SlotIndex)
    → IsTuned t
    → is_empty members ≡ false
    → IsTuned (reconfigure t members through)
unfolding reconfigure
reconfigure-IsTuned t members through i m = record {
  sized = i.sized;
  manned = m;
  recent = tt;
  filed = tt;
}

-- A schedule that is filed keeps the invariant.
file-IsTuned :
    (t : EpochTuner) (epoch : ℕ) (s : EpochSchedule)
    → IsTuned t
    → IsFiled t.auto t.members epoch s
    → IsTuned (record t { schedules = insert epoch s t.schedules })
file-IsTuned t epoch s i f = record {
  sized = i.sized;
  manned = i.manned;
  recent = i.recent;
  filed = Entries-insert (IsFiled t.auto t.members) epoch s t.schedules f i.filed;
}

install-cases :
    (t : EpochTuner) (s : EpochSchedule)
    → ((install t s).0 ≡ t)
      ⊎ (((install t s).0 ≡ record t { schedules = insert s.epoch s t.schedules })
          × (t.auto ≡ false))
unfolding install
install-cases t s = ground arith

pub install-IsTuned : (t : EpochTuner) (s : EpochSchedule) → IsTuned t → IsTuned (install t s).0
install-IsTuned t s i = elim (install-cases t s) [
  | inl e ↦ subst IsTuned (sym e) i
  | inr (e, m) ↦ subst IsTuned (sym e) (file-IsTuned t s.epoch s i (refl, λ a. absurd (cc (m, a))))
]

-- `ensure_schedule` returns a schedule that is filed already, or derives one and files it.
pub ensure_schedule-cases :
    (t : EpochTuner) (epoch : ℕ)
    → ((ensure_schedule t epoch).0 ≡ t)
      ⊎ ((s : EpochSchedule) × (ensure_schedule t epoch
            ≡ (record t { schedules = insert epoch s t.schedules }, ok s))
          × (derive t epoch ≡ ok s)
          × (get epoch t.schedules ≡ none)
          × (t.auto ≡ true))
unfolding ensure_schedule
ensure_schedule-cases t epoch = elim (Option-cases (get epoch t.schedules)) [
  | inr (s, e) ↦ inl (ground (arith, e))
  | inl e ↦ elim (Result-cases (derive t epoch)) [
    | inr (error, k) ↦ inl (ground (arith, e, k))
    | inl (s, k) ↦ elim (Bool-cases t.auto) [
      | inl m ↦ inr (s, ground (arith, e, k, m), k, e, m)
      | inr m ↦ inl (ground (arith, e, m))
    ]
  ]
]

pub ensure_schedule-IsTuned :
    (t : EpochTuner) (epoch : ℕ) → IsTuned t → IsTuned (ensure_schedule t epoch).0
ensure_schedule-IsTuned t epoch i = elim (ensure_schedule-cases t epoch) [
  | inl e ↦ subst IsTuned (sym e) i
  | inr (s, e, d, n, a) ↦
      let orders = derive-Orders t epoch s d in
      subst IsTuned (sym (ap (λ x. x.0) e)) (file-IsTuned t epoch s i (sym orders.0, λ z. orders.1))
]

-- For a tuner in the invariant and in automatic mode, a schedule that `ensure_schedule` returns is
-- for the requested epoch and its proposers are the members in some order.
pub ensure_schedule-Orders :
    (t : EpochTuner) (epoch : ℕ) (s : EpochSchedule)
    → IsTuned t
    → t.auto ≡ true
    → (ensure_schedule t epoch).1 ≡ ok s
    → (s.epoch ≡ epoch) × Perm s.proposers t.members
unfolding ensure_schedule
ensure_schedule-Orders t epoch s i a h = elim (Option-cases (get epoch t.schedules)) [
  | inr (found, e) ↦
      let same : found ≡ s = ground (arith, e, h) in
      let filed = Entries-get (IsFiled t.auto t.members) epoch found t.schedules i.filed e in
      subst (λ x. (x.epoch ≡ epoch) × Perm x.proposers t.members) same (sym filed.0, filed.1 a)
  | inl e ↦ derive-Orders t epoch s (ground (arith, e, a, h))
]

div_mono : (a b k : ℕ) → 0 < k → a ≤ b → a / k ≤ b / k
div_mono a b k p l = (le-div_iff_mul-le p).1 (omega (arith, l, div-mul-le_self a k))

-- A statistic that is not in the future.
abbrev IsPast : List ReplicaId → ℕ → ℕ → EpochStat → Type 0
IsPast members epoch k stat = (contains members stat.leader ≡ true) × (0 < stat.slots) × (k ≤ epoch)

prune_epochs-IsTuned :
    (t : EpochTuner) (epoch : ℕ)
    → frontier t ≡ epoch
    → 0 < t.epoch_size
    → is_empty t.members ≡ false
    → Entries (IsPast t.members epoch) t.stats
    → Entries (IsFiled t.auto t.members) t.schedules
    → IsTuned (prune_epochs t epoch)
unfolding prune_epochs
prune_epochs-IsTuned t epoch f p m r s = elim (Bool-cases (ltb epoch 64)) [
  | inl e ↦
      rw (e, prune_epochs)
        (record {
          sized = p;
          manned = m;
          recent =
              Entries-imp (IsPast t.members epoch) (IsRecent t.members (frontier t)) t.stats
                (λ k x y. (y.0, y.1, omega (arith, f, y.2), ground (arith, e, f, y.2))) r;
          filed = s;
        })
  | inr e ↦
      rw (e, prune_epochs)
        (record {
          sized = p;
          manned = m;
          recent =
              Entries-kept (IsPast t.members epoch) (IsRecent t.members (frontier t))
                (leb (epoch - 64)) t.stats
                (λ k x y z. (y.0, y.1, omega (arith, f, y.2), ground (arith, z, f))) r;
          filed = Entries-retain (IsFiled t.auto t.members) (leb (epoch - 64)) t.schedules s;
        })
]

stat_of-IsPast :
    (t : EpochTuner) (slot : SlotIndex) (step : Step) (led : ReplicaId)
    → IsTuned t
    → contains t.members led ≡ true
    → IsPast t.members
        (slot / t.epoch_size)
        (slot / t.epoch_size)
        (count_step step (stat_of led (get (slot / t.epoch_size) t.stats)))
stat_of-IsPast t slot step led i c = elim (Option-cases (get (slot / t.epoch_size) t.stats)) [
  | inl e ↦ rw e (c, omega arith, omega arith)
  | inr (stat, e) ↦
      let held =
        Entries-get (IsRecent t.members (frontier t)) (slot / t.epoch_size) stat t.stats i.recent
          e in
      rw e (held.0, omega (arith, held.1), omega arith)
]

pub note_led-IsTuned :
    (t : EpochTuner) (slot : SlotIndex) (step : Step) (led : ReplicaId)
    → IsTuned t
    → t.stats_through ≤ slot
    → contains t.members led ≡ true
    → IsTuned (note_led t slot step led)
unfolding note_led
note_led-IsTuned t slot step led i l c =
    prune_epochs-IsTuned (record t { stats = insert epoch stat t.stats; stats_through = slot })
      epoch refl i.sized i.manned
      (Entries-insert (IsPast t.members epoch) epoch stat t.stats
        (stat_of-IsPast t slot step led i c)
        (Entries-imp (IsRecent t.members (frontier t)) (IsPast t.members epoch) t.stats
          (λ k x y. (y.0, y.1, omega (arith, y.2, later))) i.recent))
      i.filed
  where
    epoch : ℕ
    epoch = slot / t.epoch_size

    stat : EpochStat
    stat = count_step step (stat_of led (get epoch t.stats))

    later : frontier t ≤ epoch
    later = div_mono t.stats_through slot t.epoch_size i.sized l
