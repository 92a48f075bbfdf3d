-- ===== src/Protocol/Decide.antt =====
-- src/proposer.rs: a pass of the loop that decides leaves evidence for the decision.
use rust_quepaxa.Prelude.{
  ◌≡◌, refl, ap, ◌∙◌, subst, ◌⊎◌, inl, inr, List, [], ◌∷◌, some, arith, Eq, All-In, In, here, there,
  Option-cases,
}
use rust_quepaxa.Error.{ok}
use rust_quepaxa.Types.{Decision}
use rust_quepaxa.Types.Clock.{phase}
use rust_quepaxa.Messages.{RecordReply}
use rust_quepaxa.Proposer.{decided, advance, reported_decision}
use rust_quepaxa.Proposer.Advance.{advance-Grounds, reported, fast, settled}
use rust_quepaxa.Protocol.{Setting, Ticket, World, Answers, Collected}
use rust_quepaxa.Protocol.Evidence.{QuorumOf, FirstIs, Decreed, settles, takes_first}
use rust_quepaxa.Protocol.Provenance.{Inv, entry-Owned}
use rust_quepaxa.Protocol.Replies.{reply-first}
use rust_quepaxa.Protocol.Gather.{ticket_step, own_ticket, quorum_TookBest, quorum_FirstIs}

module _ {V : Type 0} ⦃e : Eq V⦄ (σ : Setting V) (w : World V) (inv : Inv σ w) (t : Ticket V)
    (replies : List (RecordReply V)) (held : In t w.tickets) (c : Collected σ w t replies) where
  reported_source :
      (d : Decision V) (rs : List (RecordReply V))
      → reported_decision rs ≡ some d
      → (r : RecordReply V) × In r rs × (r.decision ≡ some d)
  reported_source d [] h = absurd cc
  reported_source d (r ∷ rs) h = elim (Option-cases r.decision) [
    | inr (q, k) ↦ (r, here refl, ground (arith, k, h))
    | inl k ↦ (let x = reported_source d rs (ground (arith, k, h)) in (x.0, there x.1, x.2))
  ]

  reported-In : (d : Decision V) → reported_decision replies ≡ some d → In d w.decisions
  reported-In d h =
      let source = reported_source d replies h in
      elim ((All-In (Answers σ w t) source.0 replies c.1 source.1).5) [
        | inl n ↦ absurd (cc (source.2, n))
        | inr (q, n, i) ↦ subst (λ z. In z w.decisions) (cc (source.2, n)) i
      ]

  -- The evidence of a decision, unless a reply reports one that has been made.
  pub decide-Decreed :
      (d : Decision V)
      → advance σ.slot σ.leader t.at t.proposal replies ≡ ok (decided d)
      → Decreed σ w.history w.tickets d ⊎ In d w.decisions
  unfolding phase
  decide-Decreed d h = elim (advance-Grounds σ.slot σ.leader t.at t.proposal replies d h) [
    | reported k a b ↦ inr (reported-In d k)
    | settled f k m b a ↦ inl (
        settles t.at t.proposal f (omega (arith, f, (ticket_step σ w inv t replies held c)))
          (ap (λ z. z.value_ids) k) (own_ticket σ w inv t replies held c)
          (quorum_TookBest σ w inv t replies held c (λ z. omega (arith, z, f)) a m))
    | fast l x k g m n o b a ↦
        let source = reply-first σ w t l o.0 (All-In (Answers σ w t) o.0 replies c.1 o.1) o.2 in
        inl (
          takes_first l (ap (λ z. z.value_ids) k) (entry-Owned σ w inv o.0.summary.step l source) m
            (g ∙ ap (λ z. some z.proposer) k)
            (subst (λ z. QuorumOf σ (FirstIs w.history z l.key)) x
              (quorum_FirstIs σ w inv t replies held c l a n)))
  ]
