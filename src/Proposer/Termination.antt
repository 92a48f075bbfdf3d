-- ===== src/Proposer/Termination.antt =====
-- src/proposer.rs: the loop of `propose` ends.
use rust_quepaxa.Prelude.{
  ℕ, zero, suc, ◌+◌, ◌≤◌, ◌<◌, ◌≡◌, refl, nat_eq, List, [], ◌∷◌, Option, none, arith, Eq, ltb, All,
  Bool-cases, ◌≢◌, inl, inr, ◌⊎◌, ◌∙◌, ap,
}
use rust_quepaxa.Error.{ok, ok_of_sequence, Result-cases}
use rust_quepaxa.Types.{Proposal, Decision, SlotIndex, RecordRequest}
use rust_quepaxa.Types.Clock.{Step, round_one_phase_zero}
use rust_quepaxa.Types.Keys.{ReplicaId}
use rust_quepaxa.Cluster.{ClusterIdentity}
use rust_quepaxa.Proposer.{
  ProposerCore, Outcome, decided, again, pass, make_requests, propose_loop, propose, prepare,
}
use rust_quepaxa.Proposer.Random.{PrioritySource}
use rust_quepaxa.Proposer.Collect.{Arrivals, collect_quorum}
use rust_quepaxa.Proposer.Requests.{AllRequests, Asks, make_requests-Asks}
use rust_quepaxa.Proposer.Progress.{IsForwardArrival, collect_replies-Forward, advance-Progresses}

module _ {V : Type 0} where
  -- The requests of a round are all at the round's step.
  abbrev pub AtStep : Step → List (ReplicaId × RecordRequest V) → Type 0
  AtStep step requests = All (λ r. r.1.step ≡ step) requests

  -- What the recorders promise: a reply reports the step of its request or a later one. The
  -- network may lose, delay and reorder replies, and answer with any error.
  abbrev pub Forward : (ℕ → List (ReplicaId × RecordRequest V) → Arrivals V) → Type 0
  Forward network =
      (n step : ℕ) (requests : List (ReplicaId × RecordRequest V))
      → AtStep step requests
      → All (IsForwardArrival step) (network n requests).events

  All-step :
      (slot : SlotIndex) (leader : Option ReplicaId) (step : Step) (p : Proposal V)
      (requests : List (ReplicaId × RecordRequest V))
      → AllRequests (Asks slot leader step p) requests
      → AtStep step requests
  All-step slot leader step p [] a = tt
  All-step slot leader step p (r ∷ rs) a = (a.0.1, All-step slot leader step p rs a.1)

  pub Outcome-cases :
      (o : Outcome V)
      → ((d : Decision V) × (o ≡ decided d)) ⊎ ((n : Step × Proposal V) × (o ≡ again n.0 n.1))
  Outcome-cases (decided d) = inl (d, refl)
  Outcome-cases (again step p) = inr ((step, p), refl)

module _ {V : Type 0} ⦃e : Eq V⦄ where
  pass-Progresses :
      (quorum : ℕ) (cluster : Option ClusterIdentity) (slot : SlotIndex) (leader : Option ReplicaId)
      (step step' : Step) (p p' : Proposal V) (arrivals : Arrivals V)
      → All (IsForwardArrival step) arrivals.events
      → pass quorum cluster slot leader step p arrivals ≡ ok (again step' p')
      → step < step'
  unfolding collect_quorum
  pass-Progresses quorum cluster slot leader step step' p p' arrivals f h =
      let collected = ok_of_sequence (collect_quorum quorum cluster arrivals) _ h in
      advance-Progresses slot leader step step' p p' collected.0
        (collect_replies-Forward step quorum cluster arrivals.launched [] arrivals.events
          collected.0 tt f (ground (arith, collected.1)))
        collected.2

module _ {V R : Type 0} ⦃e : Eq V⦄ ⦃source : PrioritySource R⦄ where
  propose_loop_ends :
      (fuel : ℕ) (self : ProposerCore R) (slot : SlotIndex) (leader : Option ReplicaId)
      (recorders : List ReplicaId) (quorum : ℕ)
      (network : ℕ → List (ReplicaId × RecordRequest V) → Arrivals V) (step : Step) (p : Proposal V)
      (known : List (Decision V))
      → Forward network
      → 0 < fuel
      → self.config.max_steps + 1 < step + fuel
      → propose_loop fuel self slot leader recorders quorum network step p known ≢ none
  unfolding propose_loop
  propose_loop_ends zero self slot leader recorders quorum network step p known f b h =
      absurd (omega arith)
  propose_loop_ends (suc fuel) self slot leader recorders quorum network step p known f b h =
      elim (Bool-cases (ltb self.config.max_steps step)) [
        | inl k ↦ λ n. ground (arith, k, n)
        | inr k ↦
            elim (Result-cases (make_requests self slot leader step p known recorders self.rng).1) [
              | inr (error, m) ↦ λ n. ground (arith, k, m, n)
              | inl (requests, m) ↦
                  elim (Result-cases
                    (pass quorum self.config.cluster slot leader step p (network fuel requests))) [
                      | inr (error, o) ↦ λ n. ground (arith, k, m, o, n)
                      | inl (outcome, o) ↦ elim (Outcome-cases outcome) [
                        | inl (d, q) ↦ λ n. ground (arith, k, m, o, q, n)
                        | inr (next, q) ↦
                            let at = All-step slot leader step p requests (
                              make_requests-Asks self slot leader step p known recorders self.rng
                                requests m) in
                            let later =
                              pass-Progresses quorum self.config.cluster slot leader step next.0 p
                                next.1 (network fuel requests) (f fuel step requests at)
                                (o ∙ ap ok q) in
                            let rng' =
                              (make_requests self slot leader step p known recorders self.rng).0 in
                            let low : step ≤ self.config.max_steps = ground (arith, k) in
                            λ n.
                              propose_loop_ends fuel (record self { rng = rng' }) slot leader
                                recorders quorum network next.0 next.1 [] f
                                (omega (arith, h, later, low)) (omega (arith, h, later, low))
                                (ground (arith, k, m, o, q, n))
                      ]
                    ]
            ]
      ]

  -- `propose` ends with a decision or an error within `max_steps` + 1 passes, against any
  -- network whose replies report the step of their request or a later one, whatever it loses,
  -- delays or refuses.
  pub propose_ends :
      (fuel : ℕ) (self : ProposerCore R) (slot : SlotIndex) (value_ids : List V)
      (leader : Option ReplicaId) (recorders : List ReplicaId) (known : List (Decision V))
      (network : ℕ → List (ReplicaId × RecordRequest V) → Arrivals V)
      → Forward network
      → self.config.max_steps < fuel
      → propose fuel self slot value_ids leader recorders known network ≢ none
  unfolding propose
  propose_ends fuel self slot value_ids leader recorders known network f b h =
      elim (Result-cases (prepare self value_ids leader recorders known)) [
        | inr (error, k) ↦ ground (arith, k, h)
        | inl (start, k) ↦
            propose_loop_ends fuel self slot leader recorders start.0 network round_one_phase_zero
              start.1 known f (grind arith) (grind arith) (ground (arith, k, h))
      ]
