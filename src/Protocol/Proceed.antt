-- ===== src/Protocol/Proceed.antt =====
-- src/proposer.rs: a pass of the loop that goes on leaves evidence for the next ticket.
use rust_quepaxa.Prelude.{
  ◌+◌, ◌-◌, ◌<◌, ◌≡◌, refl, sym, ap, ◌∙◌, subst, ◌⊎◌, inl, inr, true, List, arith, Eq, All-In, In,
}
use rust_quepaxa.Types.{Proposal, with_priority}
use rust_quepaxa.Types.Clock.{Step, phase, u64_mod, round_one_phase_zero}
use rust_quepaxa.Types.Keys.{ReplicaId}
use rust_quepaxa.Messages.{RecordReply}
use rust_quepaxa.Proposer.Advance.{all_at}
use rust_quepaxa.Proposer.Continue.{
  Continues, stays, catches_up, chooses_first, holds, chooses_prior, finds_none,
}
use rust_quepaxa.Protocol.{Setting, Ticket, World, Requests, Answers, Collected}
use rust_quepaxa.Protocol.Evidence.{
  QuorumOf, Took, PriorBelow, NoPrior, Somewhere, HasTicket, Owned, IsValid, Backed, chosen_first,
  spread, kept, chosen_prior, unchosen,
}
use rust_quepaxa.Protocol.Provenance.{Inv, entry-Owned}
use rust_quepaxa.Protocol.Replies.{all_at-All, replies-QuorumOf, reply-first}
use rust_quepaxa.Protocol.Gather.{
  now, ticket_step, own_ticket, reply-Took, quorum_firsts, quorum_priors, quorum_NoPrior,
  first_source, prior_source,
}

module _ {V : Type 0} ⦃e : Eq V⦄ (σ : Setting V) (w : World V) (inv : Inv σ w) where
  -- In phase zero only the values of the proposal matter to its evidence.
  Backed-values :
      (s : Step) (p q : Proposal V)
      → phase s ≡ 0
      → q.value_ids ≡ p.value_ids
      → Backed σ w.history w.tickets s p
      → Backed σ w.history w.tickets s q
  Backed-values s p q o v (chosen_first s0 a c d n) = absurd (omega (arith, o, c))
  Backed-values s p q o v (spread s0 a c d) = absurd (omega (arith, o, c))
  Backed-values s p q o v (kept s0 a c n) = absurd (omega (arith, o, c))
  Backed-values s p q o v (chosen_prior s0 p0 a c x d n) = chosen_prior s0 p0 a c (v ∙ x) d n
  Backed-values s p q o v (unchosen s0 p0 a c x d n) = unchosen s0 p0 a c (v ∙ x) d n

  Backed-Requests :
      (t : Ticket V) (p : Proposal V)
      → Requests σ t p
      → Backed σ w.history w.tickets t.at t.proposal
      → Backed σ w.history w.tickets t.at p
  unfolding with_priority
  Backed-Requests t p (inl (n, x)) b = subst (Backed σ w.history w.tickets t.at) (sym x) b
  Backed-Requests t p (inr (n, (k, l, x))) b =
      Backed-values t.at t.proposal p (ground (arith, n)) (ap (λ z. z.value_ids) x) b

  -- What is recorded at a step after the first is a valid ticket of that step.
  recorded-IsValid :
      (j : ReplicaId) (s : Step) (p : Proposal V)
      → round_one_phase_zero < s
      → Somewhere w.history s p
      → IsValid σ w.history w.tickets (record { sender = j; at = s; proposal = p })
  recorded-IsValid j s p l n =
      let from = inv.origin s p n in
      let t = from.0 in
      let is : t.at ≡ s = from.2 in
      let valid = inv.valid t from.1 in
      let bound : s < u64_mod = omega (arith, is, valid.1) in
      elim valid.2 [
        | inl o ↦ absurd (omega (arith, l, is, o.0))
        | inr (g, b) ↦ (
          entry-Owned σ w inv s p n,
          bound,
          inr (l, subst (λ x. Backed σ w.history w.tickets x p) is (Backed-Requests t p from.3 b)),
        )
      ]

  module _ (t : Ticket V) (replies : List (RecordReply V)) (held : In t w.tickets)
      (c : Collected σ w t replies) where
    holds-Backed :
        (s : Step) (p : Proposal V)
        → all_at t.at replies ≡ true
        → s ≡ t.at + 1
        → (phase t.at ≡ 1) ⊎ (phase t.at ≡ 2)
        → p ≡ t.proposal
        → Backed σ w.history w.tickets s p
    unfolding phase
    holds-Backed s p a b (inl o) m = spread t.at b (omega (arith, b, o)) (
        subst (λ z. QuorumOf σ (Took w.history t.at z)) (sym m)
          (replies-QuorumOf σ w t (Took w.history t.at t.proposal) (λ r. r.summary.step ≡ t.at)
            replies c (reply-Took σ w inv t replies held c (λ z. omega (arith, z, o)))
            (all_at-All t.at replies a)))
    holds-Backed s p a b (inr o) m =
        kept t.at b (omega (arith, b, o))
          (subst (HasTicket w.tickets t.at) (sym m) (own_ticket σ w inv t replies held c))

    pub continue-IsValid :
        (s : Step) (p : Proposal V)
        → Continues t.at t.proposal replies s p
        → IsValid σ w.history w.tickets (record { sender = t.sender; at = s; proposal = p })
    unfolding phase
    continue-IsValid s p (stays a b) =
        subst
          (λ z. IsValid σ w.history w.tickets (record { sender = t.sender; at = z; proposal = p }))
          (sym a)
          (subst
            (λ z.
              IsValid σ w.history w.tickets (record { sender = t.sender; at = t.at; proposal = z }))
            (sym b) (now σ w inv t replies held c))
    continue-IsValid s p (catches_up r i l k a) =
        subst
          (λ z. IsValid σ w.history w.tickets (record { sender = t.sender; at = z; proposal = p }))
          (sym a)
          (recorded-IsValid t.sender r.summary.step p
            (omega (arith, l, (ticket_step σ w inv t replies held c)))
            (reply-first σ w t p r (All-In (Answers σ w t) r replies c.1 i) k))
    continue-IsValid s p (chooses_first a b g o m) =
        let source = first_source σ w inv t replies held c p a m in
        (
          entry-Owned σ w inv t.at p source,
          g,
          inr (
            omega (arith, b, (ticket_step σ w inv t replies held c)),
            chosen_first t.at b (omega (arith, b, o)) (quorum_firsts σ w inv t replies held c p a m)
                source,
          ),
        )
    continue-IsValid s p (holds a b g o m) = (
      subst (Owned σ) (sym m) (now σ w inv t replies held c).0,
      g,
      inr (omega (arith, b, (ticket_step σ w inv t replies held c)), holds-Backed s p a b o m),
    )
    continue-IsValid s p (chooses_prior a b g o m) =
        let s0 = t.at - 1 in
        let before : t.at ≡ s0 + 1 = omega (arith, (ticket_step σ w inv t replies held c)) in
        let source = prior_source σ w inv t replies held c s0 p before a m in
        (
          entry-Owned σ w inv s0 p source,
          g,
          inr (
            omega (arith, b, (ticket_step σ w inv t replies held c)),
            chosen_prior s0 p (omega (arith, b, (ticket_step σ w inv t replies held c)))
                (omega (arith, b, o)) refl
                (subst (λ z. QuorumOf σ (PriorBelow w.history z p.key)) before
                  (quorum_priors σ w inv t replies held c p a m))
                source,
          ),
        )
    continue-IsValid s p (finds_none a b g o m n) =
        let s0 = t.at - 1 in
        let before : t.at ≡ s0 + 1 = omega (arith, (ticket_step σ w inv t replies held c)) in
        (
          subst (Owned σ) (sym n) (now σ w inv t replies held c).0,
          g,
          inr (
            omega (arith, b, (ticket_step σ w inv t replies held c)),
            unchosen s0 t.proposal (omega (arith, b, (ticket_step σ w inv t replies held c)))
                (omega (arith, b, o)) (ap (λ z. z.value_ids) n)
                (subst (λ z. QuorumOf σ (NoPrior w.history z)) before
                  (quorum_NoPrior σ w inv t replies held c a m))
                (subst (λ z. HasTicket w.tickets z t.proposal) before
                  (own_ticket σ w inv t replies held c)),
          ),
        )
