-- ===== src/Protocol/Dominance.antt =====
-- src/proposer.rs: what the evidence of a decision forces on the tickets of the next steps.
use rust_quepaxa.Prelude.{
  ◌+◌, ◌<◌, ◌≡◌, sym, ap, ◌∙◌, subst, inl, inr, true, List, ◌∷◌, some, arith, nat_eq, option_eq,
}
use rust_quepaxa.Types.{Proposal}
use rust_quepaxa.Types.Clock.{Step, phase, u64_mod, round_one_phase_zero}
use rust_quepaxa.Types.Keys.{ReplicaId, ProposalKey, key_leb, key_leb_trans, key_leb_antisymm}
use rust_quepaxa.Cluster.{is_well_formed}
use rust_quepaxa.Isr.History.{Call, after}
use rust_quepaxa.Protocol.{Setting, World}
use rust_quepaxa.Protocol.History.{Suffix, Suffix-total, call, after-step, prior_covers}
use rust_quepaxa.Protocol.Evidence.{
  QuorumOf, QuorumOf-meet, below, Took, TookBest, PriorBelow, NoPrior, Somewhere, HasTicket, Owned,
  Backed, chosen_first, spread, kept, chosen_prior, unchosen,
}
use rust_quepaxa.Protocol.Provenance.{Inv, All-Suffix, entry-Owned, entry-HasTicket, ticket-Owned}

module _ {V : Type 0} (σ : Setting V) (w : World V) (inv : Inv σ w)
    (f : is_well_formed σ.cluster ≡ true) where
  -- Proposals with one key have the same values.
  pub same_key :
      (p q : Proposal V) → Owned σ p → Owned σ q → p.key ≡ q.key → p.value_ids ≡ q.value_ids
  same_key p q a b e = a.0 ∙ (ap (λ k. σ.values k.proposer_id k.lane_id) e ∙ sym b.0)

  -- A recorder took `q` in at step `s`; later, at the next step, its prior aggregate is not below.
  prior_of_Took :
      (s : Step) (q : Proposal V) (i : ReplicaId) (h : List (Call V))
      → Took w.history s q i
      → Suffix h (w.history i)
      → (after h).step ≡ s + 1
      → (a : Proposal V) × ((after h).prior_aggregate ≡ some a) × (key_leb q.key a.key ≡ true)
  prior_of_Took s q i h (h0, t, e) x m = elim (Suffix-total t x) [
    | inl k ↦ prior_covers s q h0 (All-Suffix (λ c. c.at < u64_mod) x (inv.bounded i)) k e m
    | inr k ↦ absurd (omega (arith, after-step k, e, m))
  ]

  below_prior :
      (s : Step) (q : Proposal V) (k : ProposalKey) (i : ReplicaId) (h : List (Call V))
      → Took w.history s q i
      → Suffix h (w.history i)
      → (after h).step ≡ s + 1
      → below (after h).prior_aggregate k ≡ true
      → key_leb q.key k ≡ true
  below_prior s q k i h t x m b =
      let a = prior_of_Took s q i h t x m in
      key_leb_trans q.key a.0.key k a.2 (ground (arith, a.1, b))

  -- After the first step every ticket has evidence.
  pub ticket-Backed :
      (s : Step) (q : Proposal V)
      → round_one_phase_zero < s
      → HasTicket w.tickets s q
      → Backed σ w.history w.tickets s q
  ticket-Backed s q l t = elim ((inv.valid _ t.1).2) [
    | inl o ↦ absurd (omega (arith, l, o.0))
    | inr (g, b) ↦ b
  ]

  -- In phase two, no ticket of a step is above one that settles at the step.
  pub settled_bounds :
      (s : Step) (p q : Proposal V)
      → phase s ≡ 2
      → round_one_phase_zero < s
      → QuorumOf σ (TookBest w.history s p)
      → HasTicket w.tickets s q
      → key_leb q.key p.key ≡ true
  unfolding phase
  settled_bounds s p q e l best t = elim (ticket-Backed s q l t) [
    | chosen_first s0 a c d n ↦ absurd (omega (arith, e, c))
    | kept s0 a c n ↦ absurd (omega (arith, e, c))
    | chosen_prior s0 p0 a c v d n ↦ absurd (omega (arith, e, c))
    | unchosen s0 p0 a c v d n ↦ absurd (omega (arith, e, c))
    | spread s0 a c d ↦
        let shared = QuorumOf-meet σ (Took w.history s0 q) (TookBest w.history s p) f d best in
        let at = shared.2 in
        below_prior s0 q p.key shared.0 (call s p ∷ at.0) shared.1 at.1 (at.2 ∙ a) at.3
  ]

  -- The step after it.
  settled_bounds_kept :
      (s : Step) (p q : Proposal V)
      → phase s ≡ 2
      → round_one_phase_zero < s
      → QuorumOf σ (TookBest w.history s p)
      → HasTicket w.tickets (s + 1) q
      → key_leb q.key p.key ≡ true
  unfolding phase
  settled_bounds_kept s p q e l best t = elim (ticket-Backed (s + 1) q (omega (arith, l)) t) [
    | chosen_first s0 a c d n ↦ absurd (omega (arith, e, c))
    | spread s0 a c d ↦ absurd (omega (arith, e, c))
    | chosen_prior s0 p0 a c v d n ↦ absurd (omega (arith, e, c))
    | unchosen s0 p0 a c v d n ↦ absurd (omega (arith, e, c))
    | kept s0 a c n ↦
        settled_bounds s p q e l best (subst (λ x. HasTicket w.tickets x q) (omega (arith, a)) n)
  ]

  -- Two steps after a settled proposal, every ticket has its values.
  pub settled_values :
      (s : Step) (p q : Proposal V)
      → phase s ≡ 2
      → round_one_phase_zero < s
      → HasTicket w.tickets s p
      → QuorumOf σ (TookBest w.history s p)
      → HasTicket w.tickets (s + 2) q
      → q.value_ids ≡ p.value_ids
  unfolding phase
  settled_values s p q e l own best t = elim (ticket-Backed (s + 2) q (omega (arith, l)) t) [
    | chosen_first s0 a c d n ↦ absurd (omega (arith, e, c))
    | spread s0 a c d ↦ absurd (omega (arith, e, c))
    | kept s0 a c n ↦ absurd (omega (arith, e, c))
    | unchosen s0 p0 a c v d n ↦
        let same : s0 ≡ s = omega (arith, a) in
        let shared =
          QuorumOf-meet σ (TookBest w.history s p) (NoPrior w.history (s0 + 1)) f best d in
        let took = shared.1 in
        let empty = shared.2 in
        let prior =
          prior_of_Took s p shared.0 empty.0 (took.0, took.1, took.2) empty.1
            (omega (arith, empty.2, same)) in
        absurd (cc (prior.1, empty.3))
    | chosen_prior s0 p0 a c v d n ↦
        let same : s0 ≡ s = omega (arith, a) in
        let n' : Somewhere w.history s p0 = subst (λ x. Somewhere w.history x p0) same n in
        let shared =
          QuorumOf-meet σ (TookBest w.history s p) (PriorBelow w.history (s0 + 1) p0.key) f best
            d in
        let took = shared.1 in
        let prior = shared.2 in
        let up =
          below_prior s p p0.key shared.0 prior.0 (took.0, took.1, took.2) prior.1
            (omega (arith, prior.2, same)) prior.3 in
        let down =
          settled_bounds s p p0 e l best (entry-HasTicket σ w inv s p0 (omega (arith, e)) n') in
        v
        ∙ same_key p0 p (entry-Owned σ w inv s p0 n') (ticket-Owned σ w inv s p own)
            (key_leb_antisymm p0.key p.key down up)
  ]
