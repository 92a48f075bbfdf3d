-- ===== src/Protocol/Gather.antt =====
-- src/proposer.rs: what the replies of a quorum to a ticket's requests are evidence of.
use rust_quepaxa.Prelude.{
  ◌+◌, ◌≤◌, ◌≡◌, ◌≢◌, sym, ap, ◌∙◌, subst, inl, inr, true, List, ◌∷◌, none, some, arith, Eq, All,
  All-In, In,
}
use rust_quepaxa.Types.{Proposal}
use rust_quepaxa.Types.Clock.{Step, phase, round_one_phase_zero}
use rust_quepaxa.Types.Selection.{max_proposal_by_key, Dominates}
use rust_quepaxa.Messages.{RecordReply}
use rust_quepaxa.Isr.{summary}
use rust_quepaxa.Isr.History.{Call, after}
use rust_quepaxa.Proposer.{firsts, priors}
use rust_quepaxa.Proposer.Advance.{all_at, HasFirst}
use rust_quepaxa.Protocol.{Setting, Ticket, World, Answers, Collected}
use rust_quepaxa.Protocol.History.{Suffix, call}
use rust_quepaxa.Protocol.Evidence.{
  QuorumOf, below, Took, TookBest, FirstBelow, FirstIs, PriorBelow, NoPrior, Somewhere, HasTicket,
  IsValid,
}
use rust_quepaxa.Protocol.Provenance.{Inv, Requests-same}
use rust_quepaxa.Protocol.Replies.{
  all_at-All, All-both, firsts-held, priors-held, held-below, held-source, held_empty, max_selected,
  max_of_none, replies-QuorumOf, reply-first, reply-prior,
}

module _ {V : Type 0} ⦃e : Eq V⦄ (σ : Setting V) (w : World V) (inv : Inv σ w) (t : Ticket V)
    (replies : List (RecordReply V)) (held : In t w.tickets) (c : Collected σ w t replies) where
  pub now : IsValid σ w.history w.tickets t
  now = inv.valid t held

  pub ticket_step : round_one_phase_zero ≤ t.at
  ticket_step = elim now.2 [ inl o ↦ omega (arith, o.0) | inr (g, b) ↦ omega (arith, g) ]

  pub own_ticket : HasTicket w.tickets t.at t.proposal
  own_ticket = (t.sender, held)

  -- The recorder of a reply at the step of the request took the request in at that step.
  pub reply-Took :
      phase t.at ≢ 0
      → (r : RecordReply V) → Answers σ w t r
      → r.summary.step ≡ t.at
      → Took w.history t.at t.proposal r.recorder
  unfolding summary
  reply-Took f r (q, h0, n, x, m, d) k =
      let same = Requests-same σ t q f n in
      subst (λ z. Took w.history t.at z r.recorder) same (h0, x, sym (ap (λ z. z.step) m) ∙ k)

  -- The register behind a reply.
  pub answered :
      (r : RecordReply V)
      → Answers σ w t r
      → (h : List (Call V)) × Suffix h (w.history r.recorder)
        × ((after h).step ≡ r.summary.step)
        × ((after h).first ≡ r.summary.first)
        × ((after h).prior_aggregate ≡ r.summary.prior_aggregate)
  unfolding summary
  answered r (q, h0, n, x, m, d) = (
    call t.at q ∷ h0,
    x,
    sym (ap (λ z. z.step) m),
    sym (ap (λ z. z.first) m),
    sym (ap (λ z. z.prior_aggregate) m),
  )

  pub quorum_firsts :
      (p : Proposal V)
      → all_at t.at replies ≡ true
      → max_proposal_by_key (firsts replies) ≡ some p
      → QuorumOf σ (FirstBelow w.history t.at p.key)
  quorum_firsts p a m =
      let best = (max_selected (firsts replies) p m).1 in
      let low =
        held-below (λ r. r.summary.first) p replies
          (subst (Dominates p) (firsts-held replies) best) in
      replies-QuorumOf σ w t (FirstBelow w.history t.at p.key)
        (λ r. (r.summary.step ≡ t.at) × (below r.summary.first p.key ≡ true)) replies c
        (λ r x y.
          (let h = answered r x in
            (h.0, h.1, h.2 ∙ y.0, subst (λ z. below z p.key ≡ true) (sym h.3) y.1)))
        (All-both (λ r. r.summary.step ≡ t.at) (λ r. below r.summary.first p.key ≡ true) replies
          (all_at-All t.at replies a) low)

  pub quorum_priors :
      (p : Proposal V)
      → all_at t.at replies ≡ true
      → max_proposal_by_key (priors replies) ≡ some p
      → QuorumOf σ (PriorBelow w.history t.at p.key)
  quorum_priors p a m =
      let best = (max_selected (priors replies) p m).1 in
      let low =
        held-below (λ r. r.summary.prior_aggregate) p replies
          (subst (Dominates p) (priors-held replies) best) in
      replies-QuorumOf σ w t (PriorBelow w.history t.at p.key)
        (λ r. (r.summary.step ≡ t.at) × (below r.summary.prior_aggregate p.key ≡ true)) replies c
        (λ r x y.
          (let h = answered r x in
            (h.0, h.1, h.2 ∙ y.0, subst (λ z. below z p.key ≡ true) (sym h.4) y.1)))
        (All-both (λ r. r.summary.step ≡ t.at) (λ r. below r.summary.prior_aggregate p.key ≡ true)
          replies (all_at-All t.at replies a) low)

  pub quorum_NoPrior :
      all_at t.at replies ≡ true
      → max_proposal_by_key (priors replies) ≡ none
      → QuorumOf σ (NoPrior w.history t.at)
  quorum_NoPrior a m =
      let empty =
        held_empty (λ r. r.summary.prior_aggregate) replies
          (sym (priors-held replies) ∙ max_of_none (priors replies) m) in
      replies-QuorumOf σ w t (NoPrior w.history t.at)
        (λ r. (r.summary.step ≡ t.at) × (r.summary.prior_aggregate ≡ none)) replies c
        (λ r x y. (let h = answered r x in (h.0, h.1, h.2 ∙ y.0, h.4 ∙ y.1)))
        (All-both (λ r. r.summary.step ≡ t.at) (λ r. r.summary.prior_aggregate ≡ none) replies
          (all_at-All t.at replies a) empty)

  pub first_source :
      (p : Proposal V)
      → all_at t.at replies ≡ true
      → max_proposal_by_key (firsts replies) ≡ some p
      → Somewhere w.history t.at p
  first_source p a m =
      let best = (max_selected (firsts replies) p m).0 in
      let source =
        held-source (λ r. r.summary.first) p replies (subst (In p) (firsts-held replies) best) in
      subst (λ z. Somewhere w.history z p)
        (All-In (λ r. r.summary.step ≡ t.at) source.0 replies (all_at-All t.at replies a) source.1)
        (reply-first σ w t p source.0 (All-In (Answers σ w t) source.0 replies c.1 source.1)
          source.2)

  pub prior_source :
      (s0 : Step) (p : Proposal V)
      → t.at ≡ s0 + 1
      → all_at t.at replies ≡ true
      → max_proposal_by_key (priors replies) ≡ some p
      → Somewhere w.history s0 p
  prior_source s0 p l a m =
      let best = (max_selected (priors replies) p m).0 in
      let source =
        held-source (λ r. r.summary.prior_aggregate) p replies
          (subst (In p) (priors-held replies) best) in
      reply-prior σ w t s0 p source.0 (All-In (Answers σ w t) source.0 replies c.1 source.1)
        source.2
        (All-In (λ r. r.summary.step ≡ t.at) source.0 replies (all_at-All t.at replies a) source.1
          ∙ l)

  pub quorum_TookBest :
      phase t.at ≢ 0
      → all_at t.at replies ≡ true
      → max_proposal_by_key (priors replies) ≡ some t.proposal
      → QuorumOf σ (TookBest w.history t.at t.proposal)
  unfolding summary
  quorum_TookBest f a m =
      let best = (max_selected (priors replies) t.proposal m).1 in
      let low =
        held-below (λ r. r.summary.prior_aggregate) t.proposal replies
          (subst (Dominates t.proposal) (priors-held replies) best) in
      replies-QuorumOf σ w t (TookBest w.history t.at t.proposal)
        (λ r. (r.summary.step ≡ t.at) × (below r.summary.prior_aggregate t.proposal.key ≡ true))
        replies c (λ r x y. reply-TookBest f r x y.0 y.1)
        (All-both (λ r. r.summary.step ≡ t.at)
          (λ r. below r.summary.prior_aggregate t.proposal.key ≡ true) replies
          (all_at-All t.at replies a) low)
    where
      reply-TookBest :
          phase t.at ≢ 0
          → (r : RecordReply V) → Answers σ w t r
          → r.summary.step ≡ t.at
          → below r.summary.prior_aggregate t.proposal.key ≡ true
          → TookBest w.history t.at t.proposal r.recorder
      reply-TookBest f r (q, h0, n, x, m, d) k b =
          let same = Requests-same σ t q f n in
          subst (λ z. TookBest w.history t.at z r.recorder) same
            (
              h0,
              x,
              sym (ap (λ z. z.step) m) ∙ k,
              subst (λ z. below z q.key ≡ true) (ap (λ z. z.prior_aggregate) m)
                  (subst (λ z. below r.summary.prior_aggregate z.key ≡ true) (sym same) b),
            )

  pub quorum_FirstIs :
      (l : Proposal V)
      → all_at t.at replies ≡ true
      → All (HasFirst l.key) replies
      → QuorumOf σ (FirstIs w.history t.at l.key)
  quorum_FirstIs l a m =
      replies-QuorumOf σ w t (FirstIs w.history t.at l.key)
        (λ r. (r.summary.step ≡ t.at) × HasFirst l.key r) replies c
        (λ r x y. (let h = answered r x in (h.0, h.1, h.2 ∙ y.0, (y.1.0, h.3 ∙ y.1.1, y.1.2))))
        (All-both (λ r. r.summary.step ≡ t.at) (HasFirst l.key) replies (all_at-All t.at replies a)
          m)
