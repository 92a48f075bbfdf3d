-- ===== src/Protocol/Uniform.antt =====
-- src/proposer.rs: later steps keep the value of an earlier one, so two decisions agree.
use rust_quepaxa.Prelude.{
  ℕ, zero, suc, ◌+◌, ◌-◌, ◌≤◌, ◌<◌, ◌≡◌, ◌≢◌, sym, ◌∙◌, subst, inl, inr, true, List, some, arith,
  compare_cases,
}
use rust_quepaxa.Types.{Proposal, Decision}
use rust_quepaxa.Types.Clock.{Step, phase, round_one_phase_zero}
use rust_quepaxa.Types.Keys.{key_leb_antisymm, priority_max}
use rust_quepaxa.Cluster.{is_well_formed}
use rust_quepaxa.Protocol.{Setting, World}
use rust_quepaxa.Protocol.Evidence.{
  QuorumOf, TookBest, FirstIs, HasTicket, Owned, chosen_first, spread, kept, chosen_prior, unchosen,
  Decreed, settles, takes_first, Somewhere,
}
use rust_quepaxa.Protocol.Provenance.{Inv, entry-values, ticket-Owned, Took-Somewhere}
use rust_quepaxa.Protocol.Dominance.{same_key, ticket-Backed, settled_bounds, settled_values}
use rust_quepaxa.Protocol.FastPath.{fast_values, fast_unique}

module _ {V : Type 0} (σ : Setting V) (w : World V) (inv : Inv σ w)
    (f : is_well_formed σ.cluster ≡ true) where
  -- Every ticket at the step has the values.
  abbrev Agreed : Step → List V → Type 0
  Agreed s v = (q : Proposal V) → HasTicket w.tickets s q → q.value_ids ≡ v

  entry-Agreed :
      (s : Step) (v : List V) (p : Proposal V)
      → Agreed s v
      → Somewhere w.history s p
      → p.value_ids ≡ v
  entry-Agreed s v p a n = let x = entry-values σ w inv s p n in x.2 ∙ a x.0 x.1

  -- The values of a step come from the step before, or in phase zero from the one before that.
  step-Agreed :
      (s : Step) (v : List V)
      → round_one_phase_zero < s + 1
      → Agreed s v
      → (phase (s + 1) ≡ 0 → Agreed (s - 1) v)
      → Agreed (s + 1) v
  step-Agreed s v l now past q t = elim (ticket-Backed σ w inv f (s + 1) q l t) [
    | chosen_first s0 a c d n ↦
        entry-Agreed s v q now (subst (λ x. Somewhere w.history x q) (omega (arith, a)) n)
    | spread s0 a c d ↦
        entry-Agreed s v q now (
          subst (λ x. Somewhere w.history x q) (omega (arith, a)) (Took-Somewhere σ w inv s0 q f d))
    | kept s0 a c n ↦ now q (subst (λ x. HasTicket w.tickets x q) (omega (arith, a)) n)
    | chosen_prior s0 p0 a c e d n ↦
        e
        ∙ entry-Agreed (s - 1) v p0 (past c)
            (subst (λ x. Somewhere w.history x p0) (omega (arith, a)) n)
    | unchosen s0 p0 a c e d n ↦
        e ∙ now p0 (subst (λ x. HasTicket w.tickets x p0) (omega (arith, a)) n)
  ]

  -- From a step on whose tickets agree, unless the step is in phase three.
  later-Agreed :
      (s : Step) (v : List V) (n : ℕ)
      → round_one_phase_zero < s
      → phase s ≢ 3
      → Agreed s v
      → (m : Step) → s ≤ m
      → m ≤ s + n
      → Agreed m v
  unfolding phase
  later-Agreed s v zero l h a m b c = subst (λ x. Agreed x v) (omega (arith, b, c)) a
  later-Agreed s v (suc n) l h a m b c = elim (compare_cases m (s + suc n)) [
    | inl d ↦ later-Agreed s v n l h a m b (omega (arith, d))
    | inr (inr d) ↦ absurd (omega (arith, c, d))
    | inr (inl d) ↦
        let before = later-Agreed s v n l h a in
        let at : s + n + 1 ≡ m = omega (arith, d) in
        subst (λ x. Agreed x v) at
          (step-Agreed (s + n) v (omega (arith, l)) (before (s + n) (omega arith) (omega arith))
            (λ e. before (s + n - 1) (omega (arith, h, e)) (omega arith)))
  ]

  -- Whatever is a ticket two steps after a settled one, or later, has its values.
  after_settled :
      (s m : Step) (p q : Proposal V)
      → phase s ≡ 2
      → round_one_phase_zero < s
      → HasTicket w.tickets s p
      → QuorumOf σ (TookBest w.history s p)
      → s + 2 ≤ m
      → HasTicket w.tickets m q
      → q.value_ids ≡ p.value_ids
  unfolding phase
  after_settled s m p q e l t best d u =
      later-Agreed (s + 2) p.value_ids (m - (s + 2)) (omega (arith, l)) (omega (arith, e))
        (λ r k. settled_values σ w inv f s p r e l t best k) m d (omega (arith, d)) q u

  settled_unique :
      (s m : Step) (p q : Proposal V)
      → phase s ≡ 2
      → phase m ≡ 2
      → round_one_phase_zero < s
      → round_one_phase_zero < m
      → HasTicket w.tickets s p
      → HasTicket w.tickets m q
      → QuorumOf σ (TookBest w.history s p)
      → QuorumOf σ (TookBest w.history m q)
      → p.value_ids ≡ q.value_ids
  unfolding phase
  settled_unique s m p q e g l k t u x y = elim (compare_cases s m) [
    | inl d ↦ sym (after_settled s m p q e l t x (omega (arith, d, e, g)) u)
    | inr (inr d) ↦ after_settled m s q p g k u y (omega (arith, d, e, g)) t
    | inr (inl d) ↦
        let u' = subst (λ z. HasTicket w.tickets z q) (sym d) u in
        let y' = subst (λ z. QuorumOf σ (TookBest w.history z q)) (sym d) y in
        same_key σ w inv f p q (ticket-Owned σ w inv s p t) (ticket-Owned σ w inv s q u') (
          key_leb_antisymm p.key q.key (settled_bounds σ w inv f s q p e l y' t)
            (settled_bounds σ w inv f s p q e l x u'))
  ]

  -- What the fast path decides is what a later step may settle.
  fast_settled :
      (l : Proposal V) (m : Step) (q : Proposal V)
      → Owned σ l
      → l.key.priority ≡ priority_max
      → σ.leader ≡ some l.key.proposer_id
      → QuorumOf σ (FirstIs w.history round_one_phase_zero l.key)
      → round_one_phase_zero < m
      → HasTicket w.tickets m q
      → q.value_ids ≡ l.value_ids
  unfolding phase
  fast_settled l m q o p a first g u =
      later-Agreed (round_one_phase_zero + 1) l.value_ids (m - (round_one_phase_zero + 1))
        (omega arith) (λ e. absurd (omega (arith, e)))
        (λ r k. fast_values σ w inv f l r o p a first k) m (omega (arith, g)) (omega (arith, g)) q u

  pub Decreed-agree :
      (d e : Decision V)
      → Decreed σ w.history w.tickets d
      → Decreed σ w.history w.tickets e
      → d.value_ids ≡ e.value_ids
  Decreed-agree d e (settles s p g l v t x) (settles m q h k z u y) =
      v ∙ (settled_unique s m p q g h l k t u x y ∙ sym z)
  Decreed-agree d e (settles s p g l v t x) (takes_first c z o m a y) =
      v ∙ (fast_settled c s p o m a y l t ∙ sym z)
  Decreed-agree d e (takes_first c z o m a y) (settles s p g l v t x) =
      z ∙ (sym (fast_settled c s p o m a y l t) ∙ sym v)
  Decreed-agree d e (takes_first b v o m a x) (takes_first c z r n k y) =
      v ∙ (fast_unique σ w inv f b c o r x y ∙ sym z)
