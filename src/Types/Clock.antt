-- ===== src/Types/Clock.antt =====
-- src/types.rs: `Step` and the `u64` operations on it and on `SlotIndex`.
use rust_quepaxa.Prelude.{
  ℕ, suc, ◌+◌, ◌*◌, ◌/◌, ◌%◌, ◌^◌, ◌-◌, ◌≤◌, ◌<◌, ◌≡◌, ◌↔◌, Bool, true, Option, none, some, arith,
  ltb, eqb, if◌then◌else◌, ◌==◌, nat_eq, option_eq,
}

abbrev pub u64_mod : ℕ
u64_mod = 2 ^ 64

abbrev pub u64_max : ℕ
u64_max = 2 ^ 64 - 1

-- `u64::checked_add` and `u64::checked_mul`
abbrev pub checked_add : ℕ → ℕ → Option ℕ
checked_add a b = if ltb (a + b) u64_mod then some (a + b) else none

abbrev pub checked_mul : ℕ → ℕ → Option ℕ
checked_mul a b = if ltb (a * b) u64_mod then some (a * b) else none

abbrev pub Step : Type 0
Step = ℕ

abbrev pub initial : Step
initial = 0

abbrev pub round_one_phase_zero : Step
round_one_phase_zero = 4

unfoldable pub checked_from_round_phase : ℕ → ℕ → Option Step
checked_from_round_phase round phase_number = elim (checked_mul round 4) [
  | none ↦ none
  | some step ↦ checked_add step phase_number
]

unfoldable pub phase : Step → ℕ
phase step = step % 4

-- `Step::next` and `SlotIndex::next` saturate.
unfoldable pub next : ℕ → ℕ
next n = if ltb n u64_max then n + 1 else u64_max

-- `Step::checked_next` and `SlotIndex::checked_next`
unfoldable pub checked_next : ℕ → Option ℕ
checked_next n = checked_add n 1

unfoldable pub is_next_after : Step → Step → Bool
is_next_after step previous = checked_add previous 1 == some step

-- For a phase below 4, a round and phase give a step exactly when the step is a u64 that
-- divides into that round and phase.
pub checked_from_round_phase_iff :
    (round phase_number step : ℕ)
    → phase_number < 4
    → (checked_from_round_phase round phase_number ≡ some step)
      ↔ ((step < u64_mod) × (step / 4 ≡ round) × (phase step ≡ phase_number))
unfolding checked_from_round_phase phase
checked_from_round_phase_iff round phase_number step h = (λ e. ground arith, λ e. ground arith)

-- The three successors agree: `is_next_after` tests for the value of `checked_next`, which is that
-- of `next` below the largest step.
pub is_next_after_iff :
    (step previous : Step)
    → (is_next_after step previous ≡ true) ↔ (checked_next previous ≡ some step)
unfolding is_next_after checked_next
is_next_after_iff step previous = ground arith

pub is_next_after-suc :
    (step previous : Step) → step < u64_mod → is_next_after step previous ≡ eqb step (suc previous)
unfolding is_next_after
is_next_after-suc step previous h = ground arith

pub next-bound : (n : ℕ) → n < u64_mod → (n ≤ next n) × (next n < u64_mod)
unfolding next
next-bound n h = ground arith
