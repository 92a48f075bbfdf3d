-- ===== src/Protocol/Sending.antt =====
-- src/proposer.rs: the requests that a proposer makes are those of its ticket.
use rust_quepaxa.Prelude.{
  ◌≡◌, inl, inr, List, arith, Eq, All, In, Bool-cases, nat_eq, option_eq, subst, sym,
}
use rust_quepaxa.Error.{ok, Result-cases}
use rust_quepaxa.Types.{Decision, RecordRequest}
use rust_quepaxa.Types.Keys.{priority_max}
use rust_quepaxa.Proposer.{ProposerCore, make_request}
use rust_quepaxa.Proposer.Random.{PrioritySource, InRange}
use rust_quepaxa.Protocol.{Setting, World, Ticket, Requests, draws}
use rust_quepaxa.Protocol.Recording.{Carries}

module _ {V R : Type 0} ⦃e : Eq V⦄ ⦃source : PrioritySource R⦄ where
  make_request_proposal :
      (self : ProposerCore R) (σ : Setting V) (t : Ticket V) (known : List (Decision V)) (rng : R)
      (request : RecordRequest V)
      → InRange priority_max (source.next_below rng priority_max).1
      → self.replica_id ≡ t.sender
      → (make_request self σ.slot σ.leader t.at t.proposal known rng).1 ≡ ok request
      → Requests σ t request.proposal
  unfolding make_request
  make_request_proposal self σ t known rng request l s h = elim (Bool-cases (draws σ t)) [
    | inl d ↦ elim (Result-cases (source.next_below rng priority_max).1) [
      | inr (error, k) ↦ absurd (ground (arith, d, k, s, h))
      | inl (priority, k) ↦
          let range = subst (InRange priority_max) k l in
          inr (d, (priority, range.1, ground (arith, d, k, s, h)))
    ]
    | inr d ↦ inl (d, ground (arith, d, s, h))
  ]

  -- A request that `make_request` makes for a ticket, whatever the generator draws in its range, is
  -- one that the ticket may send, where the known decisions of the slot are ones that have been
  -- made.
  pub make_request-Carries :
      (self : ProposerCore R) (σ : Setting V) (w : World V) (t : Ticket V)
      (known : List (Decision V)) (rng : R) (request : RecordRequest V)
      → InRange priority_max (source.next_below rng priority_max).1
      → self.replica_id ≡ t.sender
      → All (λ d. d.slot ≡ σ.slot → In d w.decisions) known
      → (make_request self σ.slot σ.leader t.at t.proposal known rng).1 ≡ ok request
      → Carries σ w t request
  unfolding make_request
  make_request-Carries self σ w t known rng request l s k h =
      let parts : (request.slot ≡ σ.slot)
          × (request.step ≡ t.at)
          × (request.known_decisions ≡ known) =
        ground (arith, h) in
      record {
        slot = parts.0;
        at = parts.1;
        proposal = make_request_proposal self σ t known rng request l s h;
        known = subst (All (λ d. d.slot ≡ σ.slot → In d w.decisions)) (sym parts.2) k;
      }
