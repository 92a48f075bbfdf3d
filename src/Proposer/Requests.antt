-- ===== src/Proposer/Requests.antt =====
-- src/proposer.rs: the requests of one round.
use rust_quepaxa.Prelude.{◌≡◌, nat_eq, List, [], ◌∷◌, Option, arith, Eq, All, inl, inr, subst}
use rust_quepaxa.Error.{ok, Result-cases}
use rust_quepaxa.Types.{Proposal, Decision, SlotIndex, RecordRequest, with_priority}
use rust_quepaxa.Types.Clock.{Step}
use rust_quepaxa.Types.Keys.{ReplicaId}
use rust_quepaxa.Proposer.{ProposerCore, make_request, make_requests}
use rust_quepaxa.Proposer.Random.{PrioritySource}

module _ {V : Type 0} where
  -- The requests of a round that satisfy a predicate.
  abbrev pub AllRequests : (RecordRequest V → Type 0) → List (ReplicaId × RecordRequest V) → Type 0
  AllRequests P requests = All (λ r. P r.1) requests

  -- A request of the round at `step`: it asks for the slot and carries the proposal's values.
  abbrev pub Asks : SlotIndex → Option ReplicaId → Step → Proposal V → RecordRequest V → Type 0
  Asks slot leader step p request =
      (request.slot ≡ slot)
      × (request.step ≡ step)
      × (request.round_one_leader ≡ leader)
      × (request.proposal.value_ids ≡ p.value_ids)
      × (request.proposal.key.proposer_id ≡ p.key.proposer_id)
      × (request.proposal.key.lane_id ≡ p.key.lane_id)

module _ {V R : Type 0} ⦃e : Eq V⦄ ⦃source : PrioritySource R⦄ where
  make_request-Asks :
      (self : ProposerCore R) (slot : SlotIndex) (leader : Option ReplicaId) (step : Step)
      (p : Proposal V) (known : List (Decision V)) (rng : R) (request : RecordRequest V)
      → (make_request self slot leader step p known rng).1 ≡ ok request
      → Asks slot leader step p request
  unfolding make_request with_priority
  make_request-Asks self slot leader step p known rng request h = ground (arith, h)

  pub make_requests-Asks :
      (self : ProposerCore R) (slot : SlotIndex) (leader : Option ReplicaId) (step : Step)
      (p : Proposal V) (known : List (Decision V)) (recorders : List ReplicaId) (rng : R)
      (requests : List (ReplicaId × RecordRequest V))
      → (make_requests self slot leader step p known recorders rng).1 ≡ ok requests
      → AllRequests (Asks slot leader step p) requests
  unfolding make_requests
  make_requests-Asks self slot leader step p known [] rng requests h =
      let q : [] ≡ requests = ground (arith, h) in
      subst (AllRequests (Asks slot leader step p)) q tt
  make_requests-Asks self slot leader step p known (recorder ∷ recorders) rng requests h =
      let made = make_request self slot leader step p known rng in
      let rest = make_requests self slot leader step p known recorders made.0 in
      elim (Result-cases made.1) [
        | inr (error, k) ↦ absurd (ground (arith, k, h))
        | inl (request, k) ↦ elim (Result-cases rest.1) [
          | inr (error, m) ↦ absurd (ground (arith, k, m, h))
          | inl (others, m) ↦
              let q : (recorder, request) ∷ others ≡ requests = ground (arith, k, m, h) in
              subst (AllRequests (Asks slot leader step p)) q (
                make_request-Asks self slot leader step p known rng request k,
                make_requests-Asks self slot leader step p known recorders made.0 others m,
              )
        ]
      ]
