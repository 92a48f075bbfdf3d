-- ===== src/Protocol/Trace.antt =====
-- src/isr.rs: what a register holds has come in a call, at its step or at the step before.
use rust_quepaxa.Prelude.{
  ◌+◌, ◌<◌, ◌≡◌, refl, sym, ◌∙◌, ◌⊎◌, inl, inr, List, [], ◌∷◌, Option, none, some, arith,
  Option-cases, Bool-cases, compare_cases, subst,
}
use rust_quepaxa.Types.{Proposal}
use rust_quepaxa.Types.Clock.{Step, is_next_after}
use rust_quepaxa.Types.Keys.{key_leb}
use rust_quepaxa.Types.Selection.{best_proposal}
use rust_quepaxa.Isr.{IntervalSummaryRegister, new, recorded}
use rust_quepaxa.Isr.History.{Call, after}
use rust_quepaxa.Protocol.History.{Entry, Entry-older, whole}

module _ {V : Type 0} where
  -- What a register holds has come in a call, at its step or at the step before.
  abbrev Traced : List (Call V) → IntervalSummaryRegister V → Type 0
  Traced h r =
      ((f : Proposal V) → r.first ≡ some f → Entry h r.step f)
      × ((a : Proposal V) → r.current_aggregate ≡ some a → Entry h r.step a)
      × ((a : Proposal V)
          → r.prior_aggregate ≡ some a
          → (s : Step) × (r.step ≡ s + 1) × Entry h s a)

  Entry-at :
      {h : List (Call V)} {s t : Step} {p q : Proposal V}
      → s ≡ t
      → p ≡ q
      → Entry h s p
      → Entry h t q
  Entry-at {h} {s} {t} {p} {q} e f x = subst (λ u. Entry h u q) e (subst (λ v. Entry h s v) f x)

  Traced-older :
      (c : Call V) (h : List (Call V)) (r : IntervalSummaryRegister V)
      → Traced h r
      → Traced (c ∷ h) r
  Traced-older c h r t = (
    λ f k. Entry-older c h r.step f (t.0 f k),
    λ a k. Entry-older c h r.step a (t.1 a k),
    λ a k. (let x = t.2 a k in (x.0, x.1, Entry-older c h x.0 a x.2)),
  )

  newest : (c : Call V) (h : List (Call V)) → Entry (c ∷ h) c.at c.proposal
  newest c h = (h, whole)

  best_proposal-cases :
      (o : Option (Proposal V)) (p : Proposal V)
      → (best_proposal o p ≡ p) ⊎ ((a : Proposal V) × (o ≡ some a) × (best_proposal o p ≡ a))
  unfolding best_proposal
  best_proposal-cases none p = inl refl
  best_proposal-cases (some a) p = elim (Bool-cases (key_leb p.key a.key)) [
    | inl k ↦ inr (a, refl, ground (arith, k))
    | inr k ↦ inl (ground (arith, k))
  ]

  -- A call at the step of the register.
  recorded-Traced_same :
      (c : Call V) (h : List (Call V)) (r : IntervalSummaryRegister V)
      → c.at ≡ r.step
      → Traced h r
      → Traced (c ∷ h) (recorded r c.at c.proposal)
  unfolding recorded
  recorded-Traced_same c h r e t =
      let same : (recorded r c.at c.proposal).step ≡ r.step = ground (arith, e) in
      (
        λ f k. elim (Option-cases r.first) [
          | inl m ↦
              let is : c.proposal ≡ f = ground (arith, e, k, m) in
              Entry-at (e ∙ sym same) is (newest c h)
          | inr (f0, m) ↦
              let is : f0 ≡ f = ground (arith, e, k, m) in
              Entry-at (sym same) is (Entry-older c h r.step f0 (t.0 f0 m))
        ],
        λ a k. elim (best_proposal-cases r.current_aggregate c.proposal) [
          | inl m ↦
              let is : c.proposal ≡ a = ground (arith, e, k, m) in
              Entry-at (e ∙ sym same) is (newest c h)
          | inr (a0, m, n) ↦
              let is : a0 ≡ a = ground (arith, e, k, n) in
              Entry-at (sym same) is (Entry-older c h r.step a0 (t.1 a0 m))
        ],
        λ a k.
            (let x = t.2 a (ground (arith, e, k)) in (x.0, same ∙ x.1, Entry-older c h x.0 a x.2)),
      )

  -- A call at a later step.
  recorded-Traced_later :
      (c : Call V) (h : List (Call V)) (r : IntervalSummaryRegister V)
      → r.step < c.at
      → Traced h r
      → Traced (c ∷ h) (recorded r c.at c.proposal)
  unfolding recorded is_next_after
  recorded-Traced_later c h r l t =
      let at : (recorded r c.at c.proposal).step ≡ c.at = ground (arith, l) in
      (
        λ f k.
            (let is : c.proposal ≡ f = ground (arith, l, k) in Entry-at (sym at) is (newest c h)),
        λ a k.
            (let is : c.proposal ≡ a = ground (arith, l, k) in Entry-at (sym at) is (newest c h)),
        λ a k.
            (let facts : (r.current_aggregate ≡ some a) × (c.at ≡ r.step + 1) =
                ground (arith, l, k) in
              (r.step, at ∙ facts.1, Entry-older c h r.step a (t.1 a facts.0))),
      )

  recorded_stays :
      (c : Call V) (r : IntervalSummaryRegister V) → c.at < r.step → r ≡ recorded r c.at c.proposal
  unfolding recorded
  recorded_stays c r l = ground (arith, l)

  after-Traced : (h : List (Call V)) → Traced h (after h)
  unfolding after new
  after-Traced [] = (λ f k. absurd cc, λ f k. absurd cc, λ f k. absurd cc)
  after-Traced (c ∷ h) = elim (compare_cases c.at (after h).step) [
    | inl l ↦
        subst (Traced (c ∷ h)) (recorded_stays c (after h) l)
          (Traced-older c h (after h) (after-Traced h))
    | inr (inl e) ↦ recorded-Traced_same c h (after h) e (after-Traced h)
    | inr (inr l) ↦ recorded-Traced_later c h (after h) l (after-Traced h)
  ]

  pub first-Entry :
      (h : List (Call V)) (f : Proposal V) → (after h).first ≡ some f → Entry h (after h).step f
  first-Entry h = (after-Traced h).0

  pub prior-Entry :
      (h : List (Call V)) (a : Proposal V)
      → (after h).prior_aggregate ≡ some a
      → (s : Step) × ((after h).step ≡ s + 1) × Entry h s a
  prior-Entry h = (after-Traced h).2
