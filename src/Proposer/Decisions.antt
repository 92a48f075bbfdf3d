-- ===== src/Proposer/Decisions.antt =====
-- src/proposer.rs: the grounds of a decision of `propose`.
use rust_quepaxa.Prelude.{
  ℕ, zero, suc, ◌≡◌, false, nat_eq, List, [], Option, some, arith, Eq, ltb, is_empty, Bool-cases,
  inl, inr, ◌∙◌, ap,
}
use rust_quepaxa.Error.{ok, ok_of_sequence, Result-cases}
use rust_quepaxa.Types.{Proposal, Decision, SlotIndex, RecordRequest}
use rust_quepaxa.Types.Clock.{Step, round_one_phase_zero}
use rust_quepaxa.Types.Keys.{ReplicaId}
use rust_quepaxa.Messages.{RecordReply}
use rust_quepaxa.Cluster.{ClusterIdentity}
use rust_quepaxa.Proposer.{
  ProposerCore, decided, pass, make_requests, propose_loop, propose, prepare,
}
use rust_quepaxa.Proposer.Random.{PrioritySource}
use rust_quepaxa.Proposer.Collect.{Arrivals, collect_quorum}
use rust_quepaxa.Proposer.Quorum.{validate_recorders}
use rust_quepaxa.Proposer.Requests.{AllRequests, Asks, make_requests-Asks}
use rust_quepaxa.Proposer.Collect.{IsQuorum, collect_quorum-IsQuorum}
use rust_quepaxa.Proposer.Advance.{Grounds, advance-Grounds, reported, fast, settled}
use rust_quepaxa.Proposer.Termination.{Outcome-cases}

module _ {V : Type 0} ⦃e : Eq V⦄ where
  -- A round that decides `d`: its requests ask at one step for one proposal, and the replies of a
  -- quorum to them are the grounds of `d`.
  pub data Justified (quorum : ℕ) (cluster : Option ClusterIdentity) (slot : SlotIndex)
      (leader : Option ReplicaId) (network : ℕ → List (ReplicaId × RecordRequest V) → Arrivals V)
      (d : Decision V) : Type 0 where
    round :
        (n : ℕ) (step : Step) (p : Proposal V) (requests : List (ReplicaId × RecordRequest V))
        (replies : List (RecordReply V))
        → AllRequests (Asks slot leader step p) requests
        → collect_quorum quorum cluster (network n requests) ≡ ok replies
        → IsQuorum quorum cluster replies
        → Grounds slot leader step p replies d
        → Justified quorum cluster slot leader network d

  pass-Justified :
      (quorum : ℕ) (cluster : Option ClusterIdentity) (slot : SlotIndex) (leader : Option ReplicaId)
      (network : ℕ → List (ReplicaId × RecordRequest V) → Arrivals V) (n : ℕ) (step : Step)
      (p : Proposal V) (requests : List (ReplicaId × RecordRequest V)) (d : Decision V)
      → AllRequests (Asks slot leader step p) requests
      → pass quorum cluster slot leader step p (network n requests) ≡ ok (decided d)
      → Justified quorum cluster slot leader network d
  pass-Justified quorum cluster slot leader network n step p requests d a h =
      let collected = ok_of_sequence (collect_quorum quorum cluster (network n requests)) _ h in
      round n step p requests collected.0 a collected.1
        (collect_quorum-IsQuorum quorum cluster (network n requests) collected.0 collected.1)
        (advance-Grounds slot leader step p collected.0 d collected.2)

  -- The decision of a justified round is for the slot and names values.
  Justified-slot :
      (quorum : ℕ) (cluster : Option ClusterIdentity) (slot : SlotIndex) (leader : Option ReplicaId)
      (network : ℕ → List (ReplicaId × RecordRequest V) → Arrivals V) (d : Decision V)
      → Justified quorum cluster slot leader network d
      → (d.slot ≡ slot) × (is_empty d.value_ids ≡ false)
  Justified-slot quorum cluster slot leader network d
        (round n step p requests replies a c q (reported k s v)) =
      (s, v)
  Justified-slot quorum cluster slot leader network d
        (round n step p requests replies a c q (fast w s k l r f m v t)) =
      (ap (λ x. x.slot) k, v)
  Justified-slot quorum cluster slot leader network d
        (round n step p requests replies a c q (settled s k m v t)) =
      (ap (λ x. x.slot) k, v)

module _ {V R : Type 0} ⦃e : Eq V⦄ ⦃source : PrioritySource R⦄ where
  propose_loop-Justified :
      (fuel : ℕ) (self : ProposerCore R) (slot : SlotIndex) (leader : Option ReplicaId)
      (recorders : List ReplicaId) (quorum : ℕ)
      (network : ℕ → List (ReplicaId × RecordRequest V) → Arrivals V) (step : Step) (p : Proposal V)
      (known : List (Decision V)) (rng : R) (d : Decision V)
      → propose_loop fuel self slot leader recorders quorum network step p known ≡ some (rng, ok d)
      → Justified quorum self.config.cluster slot leader network d
  unfolding propose_loop
  propose_loop-Justified zero self slot leader recorders quorum network step p known rng d n =
      absurd cc
  propose_loop-Justified (suc fuel) self slot leader recorders quorum network step p known rng d n =
      elim (Bool-cases (ltb self.config.max_steps step)) [
        | inl k ↦ absurd (ground (arith, k, n))
        | inr k ↦
            elim (Result-cases (make_requests self slot leader step p known recorders self.rng).1) [
              | inr (error, m) ↦ absurd (ground (arith, k, m, n))
              | inl (requests, m) ↦
                  elim (Result-cases
                    (pass quorum self.config.cluster slot leader step p (network fuel requests))) [
                      | inr (error, o) ↦ absurd (ground (arith, k, m, o, n))
                      | inl (outcome, o) ↦ elim (Outcome-cases outcome) [
                        | inl (found, q) ↦
                            let same : found ≡ d = ground (arith, k, m, o, q, n) in
                            let asked =
                              make_requests-Asks self slot leader step p known recorders self.rng
                                requests m in
                            pass-Justified quorum self.config.cluster slot leader network fuel step
                              p requests d asked (o ∙ ap ok (q ∙ ap decided same))
                        | inr (next, q) ↦
                            let rng' =
                              (make_requests self slot leader step p known recorders self.rng).0 in
                            propose_loop-Justified fuel (record self { rng = rng' }) slot leader
                              recorders quorum network next.0 next.1 [] rng d
                              (ground (arith, k, m, o, q, n))
                      ]
                    ]
            ]
      ]

  -- A decision that `propose` returns is for the requested slot, names values, and is justified
  -- by one round: a quorum, as `validate_recorders` chose it, replied to requests at one step
  -- for one proposal, and either a reply reports the decision, or all replies are at the step
  -- and the leader's proposal is the first of each (fast path, round one), or the proposal is
  -- the best that the quorum knows of the step before, in phase two.
  pub propose-Justified :
      (fuel : ℕ) (self : ProposerCore R) (slot : SlotIndex) (value_ids : List V)
      (leader : Option ReplicaId) (recorders : List ReplicaId) (known : List (Decision V))
      (network : ℕ → List (ReplicaId × RecordRequest V) → Arrivals V) (rng : R) (d : Decision V)
      → propose fuel self slot value_ids leader recorders known network ≡ some (rng, ok d)
      → (d.slot ≡ slot)
        × (is_empty d.value_ids ≡ false)
        × ((quorum : ℕ) × (validate_recorders recorders self.replica_id self.config.quorum
                self.config.cluster
              ≡ ok quorum)
            × Justified quorum self.config.cluster slot leader network d)
  unfolding propose prepare
  propose-Justified fuel self slot value_ids leader recorders known network rng d h =
      elim (Result-cases (prepare self value_ids leader recorders known)) [
        | inr (error, k) ↦ absurd (ground (arith, k, h))
        | inl (start, k) ↦
            let found =
              propose_loop-Justified fuel self slot leader recorders start.0 network
                round_one_phase_zero start.1 known rng d (ground (arith, k, h)) in
            let valid =
              ok_of_sequence
                (validate_recorders recorders self.replica_id self.config.quorum
                  self.config.cluster)
                _ k in
            let named = Justified-slot start.0 self.config.cluster slot leader network d found in
            (named.0, named.1, (start.0, ground (arith, k), found))
      ]
