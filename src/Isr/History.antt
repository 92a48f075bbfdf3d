-- ===== src/Isr/History.antt =====
-- The register of src/isr.rs against the whole history of calls that it summarises.
use rust_quepaxa.Prelude.{
  suc, ◌-◌, ◌<◌, ◌≡◌, refl, inl, inr, List, [], ◌∷◌, Option, none, some, arith, eqb, ltb,
  if◌then◌else◌, All, Bool-cases, eqb_iff, compare_cases,
}
use rust_quepaxa.Types.{Proposal}
use rust_quepaxa.Types.Clock.{Step, u64_mod, is_next_after-suc}
use rust_quepaxa.Types.Selection.{best_proposal}
use rust_quepaxa.Isr.{IntervalSummaryRegister, new, recorded}

-- A call of `record`.
pub record Call (V : Type 0) : Type 0 where
  pub at : Step
  pub proposal : Proposal V

module _ {V : Type 0} where
  -- The register after a history of calls, the newest call first.
  unfoldable pub after : List (Call V) → IntervalSummaryRegister V
  after [] = new
  after (c ∷ older) = recorded (after older) c.at c.proposal

  -- The largest step of a history.
  pub last_step : List (Call V) → Step
  last_step [] = 0
  last_step (c ∷ older) = if ltb (last_step older) c.at then c.at else last_step older

  -- The proposal that came first at a step.
  pub first_at : Step → List (Call V) → Option (Proposal V)
  first_at s [] = none
  first_at s (c ∷ older) = elim (first_at s older) [
    | none ↦ if eqb c.at s then some c.proposal else none
    | some p ↦ some p
  ]

  -- The best proposal at a step, the earlier one on a tie.
  pub best_at : Step → List (Call V) → Option (Proposal V)
  best_at s [] = none
  best_at s (c ∷ older) =
      if eqb c.at s then some (best_proposal (best_at s older) c.proposal) else best_at s older

  -- The calls before the first one that reaches step `s`.
  pub before : Step → List (Call V) → List (Call V)
  before s [] = []
  before s (c ∷ older) = if ltb (last_step (c ∷ older)) s then c ∷ older else before s older

  -- The best proposal of the step before `s`, among the calls that came before step `s`.
  pub best_before : Step → List (Call V) → Option (Proposal V)
  best_before s h = if eqb s 0 then none else best_at (s - 1) (before s h)

  -- What the register should hold after a history.
  pub summarise : List (Call V) → IntervalSummaryRegister V
  summarise h = record {
    step = last_step h;
    first = first_at (last_step h) h;
    current_aggregate = best_at (last_step h) h;
    prior_aggregate = best_before (last_step h) h;
  }

  first_at_above : (s : Step) (h : List (Call V)) → last_step h < s → first_at s h ≡ none
  unfolding first_at last_step
  first_at_above s [] l = refl
  first_at_above s (c ∷ older) l = ground (arith, first_at_above s older)

  best_at_above : (s : Step) (h : List (Call V)) → last_step h < s → best_at s h ≡ none
  unfolding best_at last_step
  best_at_above s [] l = refl
  best_at_above s (c ∷ older) l = ground (arith, best_at_above s older)

  before_above : (s : Step) (h : List (Call V)) → last_step h < s → before s h ≡ h
  unfolding before
  before_above s [] l = refl
  before_above s (c ∷ older) l = ground arith

  -- A call at a stale step.
  recorded_stale :
      (c : Call V) (older : List (Call V))
      → c.at < last_step older
      → recorded (summarise older) c.at c.proposal ≡ summarise (c ∷ older)
  unfolding recorded summarise last_step first_at best_at before best_before
  recorded_stale c older l = ground arith

  recorded_same :
      (c : Call V) (older : List (Call V))
      → c.at ≡ last_step older
      → recorded (summarise older) c.at c.proposal ≡ summarise (c ∷ older)
  unfolding recorded summarise last_step first_at best_at before best_before
  recorded_same c older l = ground arith

  best_before_adjacent :
      (c : Call V) (older : List (Call V))
      → last_step older < c.at
      → best_before c.at (c ∷ older)
        ≡ (if eqb c.at (suc (last_step older)) then best_at (last_step older) older else none)
  unfolding best_before before last_step
  best_before_adjacent c older l = elim (Bool-cases (eqb c.at (suc (last_step older)))) [
    | inl e ↦ rw (e, before_above c.at older l, (eqb_iff _ _).0 e) (ground arith)
    | inr e ↦ rw (e, before_above c.at older l) (ground (arith, best_at_above (c.at - 1) older))
  ]

  last_step_later :
      (c : Call V) (older : List (Call V)) → last_step older < c.at → last_step (c ∷ older) ≡ c.at
  unfolding last_step
  last_step_later c older l = ground arith

  first_at_later :
      (c : Call V) (older : List (Call V))
      → last_step older < c.at
      → first_at c.at (c ∷ older) ≡ some c.proposal
  unfolding first_at
  first_at_later c older l = ground (arith, first_at_above c.at older l)

  best_at_later :
      (c : Call V) (older : List (Call V))
      → last_step older < c.at
      → best_at c.at (c ∷ older) ≡ some c.proposal
  unfolding best_at best_proposal
  best_at_later c older l = ground (arith, best_at_above c.at older l)

  recorded_later :
      (c : Call V) (older : List (Call V))
      → c.at < u64_mod
      → last_step older < c.at
      → recorded (summarise older) c.at c.proposal ≡ summarise (c ∷ older)
  unfolding recorded summarise
  recorded_later c older b l =
      rw
        (
          last_step_later c older l,
          best_before_adjacent c older l,
          first_at_later c older l,
          best_at_later c older l,
          ← is_next_after-suc c.at (last_step older) b,
        )
        (ground arith)

  recorded-summarise :
      (c : Call V) (older : List (Call V))
      → c.at < u64_mod
      → recorded (summarise older) c.at c.proposal ≡ summarise (c ∷ older)
  recorded-summarise c older b = elim (compare_cases c.at (last_step older)) [
    | inl l ↦ recorded_stale c older l
    | inr (inl e) ↦ recorded_same c older e
    | inr (inr l) ↦ recorded_later c older b l
  ]

  new-summarise : new ≡ summarise []
  unfolding new summarise last_step first_at best_at best_before
  new-summarise = refl

  -- After any history of calls with u64 steps the interval summary register holds the largest
  -- step, the first proposal that came at it, the best proposal at it, and the best proposal of
  -- the step just before it among the calls that came before the largest step was reached.
  pub after-summarise : (h : List (Call V)) → All (λ c. c.at < u64_mod) h → after h ≡ summarise h
  unfolding after
  after-summarise [] b = new-summarise
  after-summarise (c ∷ older) b = rw (after-summarise older b.1) (recorded-summarise c older b.0)
