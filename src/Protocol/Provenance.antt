-- ===== src/Protocol/Provenance.antt =====
-- src/proposer.rs: the invariant of a world, and where a recorded proposal comes from.
use rust_quepaxa.Prelude.{ℕ, ◌<◌, ◌≡◌, ◌≢◌, sym, ap, subst, inl, inr, true, List, arith, All, In}
use rust_quepaxa.Types.{Proposal, Decision, with_priority}
use rust_quepaxa.Types.Clock.{Step, phase, u64_mod}
use rust_quepaxa.Types.Keys.{ReplicaId}
use rust_quepaxa.Cluster.{is_well_formed}
use rust_quepaxa.Protocol.{Setting, Ticket, World, Requests}
use rust_quepaxa.Protocol.History.{Suffix, whole, older}
use rust_quepaxa.Protocol.Evidence.{
  QuorumOf, QuorumOf-meet, Took, Somewhere, HasTicket, Owned, IsValid, Decreed,
}

pub All-Suffix : {A : Type 0} (P : A → Type 0) {g h : List A} → Suffix g h → All P h → All P g
All-Suffix P whole a = a
All-Suffix P (older s) a = All-Suffix P s a.1

module _ {V : Type 0} where
  -- A ticket whose requests may carry the proposal at the step.
  abbrev pub Origin : Setting V → List (Ticket V) → Step → Proposal V → Type 0
  Origin σ T s p = (t : Ticket V) × In t T × (t.at ≡ s) × Requests σ t p

  pub record Inv (σ : Setting V) (w : World V) : Type 0 where
    pub valid : (t : Ticket V) → In t w.tickets → IsValid σ w.history w.tickets t
    pub origin : (s : Step) (p : Proposal V) → Somewhere w.history s p → Origin σ w.tickets s p
    pub bounded : (i : ReplicaId) → All (λ c. c.at < u64_mod) (w.history i)
    pub decreed : (d : Decision V) → In d w.decisions → Decreed σ w.history w.tickets d

  Owned-with_priority :
      (σ : Setting V) (p : Proposal V) (k : ℕ) → Owned σ p → Owned σ (with_priority p k)
  unfolding with_priority
  Owned-with_priority σ p k o = o

  -- A request carries the values of the ticket, under its proposer and lane.
  pub Requests-Owned :
      (σ : Setting V) (t : Ticket V) (q : Proposal V)
      → Requests σ t q
      → Owned σ t.proposal
      → Owned σ q × (q.value_ids ≡ t.proposal.value_ids)
  unfolding with_priority
  Requests-Owned σ t q (inl (n, e)) o = (subst (Owned σ) (sym e) o, ap (λ x. x.value_ids) e)
  Requests-Owned σ t q (inr (n, (k, l, e))) o =
      (subst (Owned σ) (sym e) (Owned-with_priority σ t.proposal k o), ap (λ x. x.value_ids) e)

  -- Outside phase zero nothing is drawn.
  pub Requests-same :
      (σ : Setting V) (t : Ticket V) (q : Proposal V)
      → phase t.at ≢ 0
      → Requests σ t q
      → q ≡ t.proposal
  Requests-same σ t q f (inl (n, e)) = e
  Requests-same σ t q f (inr (n, x)) = absurd (ground (arith, f, n))

  module _ (σ : Setting V) (w : World V) (inv : Inv σ w) where
    pub entry-Owned : (s : Step) (p : Proposal V) → Somewhere w.history s p → Owned σ p
    entry-Owned s p h =
        let o = inv.origin s p h in (Requests-Owned σ o.0 p o.3 (inv.valid o.0 o.1).0).0

    -- Some ticket at the step has the values of what is recorded there.
    pub entry-values :
        (s : Step) (p : Proposal V)
        → Somewhere w.history s p
        → (q : Proposal V) × HasTicket w.tickets s q × (p.value_ids ≡ q.value_ids)
    entry-values s p h =
        let o = inv.origin s p h in
        (
          o.0.proposal,
          (
            o.0.sender,
            subst
                (λ x.
                  In (record { sender = o.0.sender; at = x; proposal = o.0.proposal }) w.tickets)
                o.2 o.1,
          ),
          (Requests-Owned σ o.0 p o.3 (inv.valid o.0 o.1).0).1,
        )

    -- Outside phase zero, what is recorded at a step is a ticket's own proposal.
    pub entry-HasTicket :
        (s : Step) (p : Proposal V)
        → phase s ≢ 0
        → Somewhere w.history s p
        → HasTicket w.tickets s p
    entry-HasTicket s p f h =
        let o = inv.origin s p h in
        let same = Requests-same σ o.0 p (subst (λ x. phase x ≢ 0) (sym o.2) f) o.3 in
        (
          o.0.sender,
          subst (λ q. In (record { sender = o.0.sender; at = s; proposal = q }) w.tickets)
              (sym same)
              (subst
                (λ x.
                  In (record { sender = o.0.sender; at = x; proposal = o.0.proposal }) w.tickets)
                o.2 o.1),
        )

    pub ticket-Owned : (s : Step) (p : Proposal V) → HasTicket w.tickets s p → Owned σ p
    ticket-Owned s p t = (inv.valid _ t.1).0

    -- What a quorum took was recorded somewhere.
    pub Took-Somewhere :
        (s : Step) (p : Proposal V)
        → is_well_formed σ.cluster ≡ true
        → QuorumOf σ (Took w.history s p)
        → Somewhere w.history s p
    Took-Somewhere s p f q =
        let shared = QuorumOf-meet σ (Took w.history s p) (Took w.history s p) f q q in
        (shared.0, (shared.1.0, shared.1.1))
