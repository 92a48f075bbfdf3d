-- ===== src/Schedule/Tuner/Noting.antt =====
-- src/runtime/schedule.rs: `EpochTuner::note_committed`.
use mathlib.Core.List.{Perm}
use rust_quepaxa.Prelude.{
  ℕ, ◌+◌, ◌/◌, ◌≡◌, ◌≢◌, refl, sym, subst, ◌∙◌, ap, Bool, true, false, List, [], ◌∷◌, none, some,
  arith, nat_eq, option_eq, option_beq_iff, ◌==◌, leb, contains, is_empty, nth, Bool-cases,
  Option-cases, inl, inr, ◌⊎◌,
}
use rust_quepaxa.Error.{Result, ok, err, Result-cases, policy_error, statistics_not_contiguous}
use rust_quepaxa.Types.{SlotIndex}
use rust_quepaxa.Types.Clock.{Step, checked_next}
use rust_quepaxa.Types.Keys.{ReplicaId}
use rust_quepaxa.Schedule.{EpochSchedule, leader}
use rust_quepaxa.Schedule.Tuner.{
  EpochTuner, ensure_schedule, note_committed, note_led, prune_epochs,
}
use rust_quepaxa.Schedule.Tuner.Derive.{contains-Perm}
use rust_quepaxa.Schedule.Tuner.Invariant.{
  IsTuned, ensure_schedule-cases, ensure_schedule-IsTuned, ensure_schedule-Orders, note_led-IsTuned,
}

-- An order of the members has a first one.
led_by_member :
    (s : EpochSchedule) (members : List ReplicaId)
    → is_empty members ≡ false
    → Perm s.proposers members
    → (l : ReplicaId) × (leader s ≡ some l) × (contains members l ≡ true)
unfolding leader
led_by_member s [] m p = absurd cc
led_by_member s (a ∷ ms) m p = elim (Option-cases (nth 0 s.proposers)) [
  | inl e ↦ absurd (ground (arith, contains-Perm a p, nth_empty s.proposers e))
  | inr (l, e) ↦ (l, e, sym (contains-Perm l p) ∙ nth_contains s.proposers l e)
]
  where
    nth_empty : (xs : List ReplicaId) → nth 0 xs ≡ none → xs ≡ []
    nth_empty [] h = refl
    nth_empty (x ∷ xs) h = absurd cc

    nth_contains : (xs : List ReplicaId) (l : ReplicaId) → nth 0 xs ≡ some l → contains xs l ≡ true
    nth_contains [] l h = absurd cc
    nth_contains (x ∷ xs) l h = ground (arith, h)

-- Ensuring a schedule changes the schedules alone.
pub ensure_schedule_same :
    (t : EpochTuner) (epoch : ℕ)
    → ((ensure_schedule t epoch).0.members ≡ t.members)
      × ((ensure_schedule t epoch).0.auto ≡ t.auto)
      × ((ensure_schedule t epoch).0.epoch_size ≡ t.epoch_size)
      × ((ensure_schedule t epoch).0.stats ≡ t.stats)
      × ((ensure_schedule t epoch).0.stats_through ≡ t.stats_through)
ensure_schedule_same t epoch = elim (ensure_schedule-cases t epoch) [
  | inl e ↦ ground (arith, e)
  | inr (s, e, d, n, a) ↦ ground (arith, e)
]

-- The slot that follows the last noted one.
note_next :
    (t : EpochTuner) (slot : SlotIndex) (step : Step)
    → t.auto ≡ true
    → leb slot t.stats_through ≡ false
    → some slot ≡ checked_next t.stats_through
    → (((e : _) × ((ensure_schedule t (slot / t.epoch_size)).1 ≡ err e)
        × (note_committed t slot step ≡ some ((ensure_schedule t (slot / t.epoch_size)).0, err e))))
      ⊎ ((s : EpochSchedule) × ((ensure_schedule t (slot / t.epoch_size)).1 ≡ ok s)
          × ((l : ReplicaId)
              → leader s ≡ some l
              → note_committed t slot step
                ≡ some (note_led (ensure_schedule t (slot / t.epoch_size)).0 slot step l, ok true)))
unfolding note_committed
note_next t slot step a l n = elim (Result-cases (ensure_schedule t (slot / t.epoch_size)).1) [
  | inr (error, k) ↦ inl (
    error,
    k,
    ground (arith, a, l, n, k, option_beq_iff (some slot) (checked_next t.stats_through)),
  )
  | inl (s, k) ↦ inr (
    s,
    k,
    λ led m.
        ground (arith, a, l, n, k, m, option_beq_iff (some slot) (checked_next t.stats_through)),
  )
]

-- The outcomes that leave the statistics alone.
note_idle :
    (t : EpochTuner) (slot : SlotIndex) (step : Step)
    → ((t.auto ≡ true)
        × (leb slot t.stats_through ≡ false)
        × (some slot ≡ checked_next t.stats_through))
      ⊎ ((r : Result Bool) × (note_committed t slot step ≡ some (t, r)) × (r ≢ ok true))
unfolding note_committed
note_idle t slot step = elim (Bool-cases t.auto) [
  | inr a ↦ inr (ok false, ground (arith, a), λ h. cc h)
  | inl a ↦ elim (Bool-cases (leb slot t.stats_through)) [
    | inl l ↦ inr (ok false, ground (arith, a, l), λ h. cc h)
    | inr l ↦ elim (Bool-cases (some slot == checked_next t.stats_through)) [
      | inl n ↦
          inl (a, l, ground (arith, n, option_beq_iff (some slot) (checked_next t.stats_through)))
      | inr n ↦
          inr (err (policy_error statistics_not_contiguous), ground (arith, a, l, n), λ h. cc h)
    ]
  ]
]

-- The branches of `note_committed` on a tuner in the invariant, which never panics: nothing but a
-- schedule changes, or the next slot has been noted under its leader, a member.
pub data Noted (t : EpochTuner) (slot : SlotIndex) (step : Step) : Type 0 where
  idle :
      (u : EpochTuner) (r : Result Bool)
      → note_committed t slot step ≡ some (u, r)
      → r ≢ ok true
      → (u ≡ t) ⊎ (u ≡ (ensure_schedule t (slot / t.epoch_size)).0)
      → Noted t slot step
  led :
      (l : ReplicaId)
      → contains t.members l ≡ true
      → slot ≡ t.stats_through + 1
      → note_committed t slot step
        ≡ some (note_led (ensure_schedule t (slot / t.epoch_size)).0 slot step l, ok true)
      → Noted t slot step

pub note_committed-Noted :
    (t : EpochTuner) (slot : SlotIndex) (step : Step) → IsTuned t → Noted t slot step
unfolding checked_next
note_committed-Noted t slot step i = elim (note_idle t slot step) [
  | inr (r, e, f) ↦ idle t r e f (inl refl)
  | inl (a, l, n) ↦ elim (note_next t slot step a l n) [
    | inl (error, k, e) ↦
        idle (ensure_schedule t (slot / t.epoch_size)).0 (err error) e (λ h. cc h) (inr refl)
    | inr (s, k, e) ↦
        let orders = ensure_schedule-Orders t (slot / t.epoch_size) s i a k in
        let first = led_by_member s t.members i.manned orders.1 in
        led first.0 first.2 (ground (arith, n)) (e first.0 first.1)
  ]
]

-- `note_committed` on a tuner in the invariant does not panic, keeps the invariant, and where it
-- notes the slot, this is the one after the last noted slot, and the last noted slot afterwards.
-- Otherwise the statistics stay.
pub note_committed-IsTuned :
    (t : EpochTuner) (slot : SlotIndex) (step : Step)
    → IsTuned t
    → (u : EpochTuner) × ((r : Result Bool) × (note_committed t slot step ≡ some (u, r))
        × IsTuned u
        × (r ≡ ok true → (slot ≡ t.stats_through + 1) × (u.stats_through ≡ slot))
        × (r ≢ ok true → (u.stats ≡ t.stats) × (u.stats_through ≡ t.stats_through)))
unfolding note_led prune_epochs
note_committed-IsTuned t slot step i = elim (note_committed-Noted t slot step i) [
  | idle u r e f w ↦ (u, (r, e, kept u w, λ h. absurd (f h), λ h. still u w))
  | led l c n e ↦
      let ensured = (ensure_schedule t (slot / t.epoch_size)).0 in
      let same = ensure_schedule_same t (slot / t.epoch_size) in
      (
        note_led ensured slot step l,
        (
          ok true,
          e,
          note_led-IsTuned ensured slot step l (ensure_schedule-IsTuned t (slot / t.epoch_size) i)
              (omega (arith, n, same.4)) (subst (λ ms. contains ms l ≡ true) (sym same.0) c),
          λ h. (n, ground arith),
          λ h. absurd (h refl),
        ),
      )
]
  where
    kept :
        (u : EpochTuner) → (u ≡ t) ⊎ (u ≡ (ensure_schedule t (slot / t.epoch_size)).0) → IsTuned u
    kept u (inl h) = subst IsTuned (sym h) i
    kept u (inr h) = subst IsTuned (sym h) (ensure_schedule-IsTuned t (slot / t.epoch_size) i)

    still :
        (u : EpochTuner)
        → (u ≡ t) ⊎ (u ≡ (ensure_schedule t (slot / t.epoch_size)).0)
        → (u.stats ≡ t.stats) × (u.stats_through ≡ t.stats_through)
    still u (inl h) = (ap (λ x. x.stats) h, ap (λ x. x.stats_through) h)
    still u (inr h) =
        let same = ensure_schedule_same t (slot / t.epoch_size) in
        (ap (λ x. x.stats) h ∙ same.3, ap (λ x. x.stats_through) h ∙ same.4)
