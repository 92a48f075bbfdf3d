-- ===== src/Proposer/Recorders.antt =====
-- src/proposer.rs with src/recorder.rs: recorders as the other side of a proposer's requests.
use rust_quepaxa.Prelude.{ℕ, ◌≤◌, ◌≡◌, List, [], ◌∷◌, arith, Eq, All, length, subst, sym, inl, inr}
use rust_quepaxa.Error.{ok, Result-cases}
use rust_quepaxa.Types.{RecordRequest}
use rust_quepaxa.Types.Keys.{ReplicaId}
use rust_quepaxa.Types.Clock.{Step}
use rust_quepaxa.Messages.{RecordReply}
use rust_quepaxa.Recorder.{RecorderCore, record_request}
use rust_quepaxa.Recorder.Behaviour.{record_request-recorded}
use rust_quepaxa.Isr.{recorded, summary}
use rust_quepaxa.Proposer.Collect.{Arrival, arrived, Arrivals}
use rust_quepaxa.Proposer.Progress.{IsForwardArrival}
use rust_quepaxa.Proposer.Termination.{Forward, AtStep}

module _ {V : Type 0} ⦃e : Eq V⦄ where
  -- A recorder never answers with an earlier step than that of the request.
  pub record_request_forward :
      (core : RecorderCore V) (request : RecordRequest V) (reply : RecordReply V)
      → (record_request core request).1 ≡ ok reply
      → request.step ≤ reply.summary.step
  unfolding recorded summary
  record_request_forward core request reply h =
      ground (arith, record_request-recorded core request reply request.slot h)

  -- The replies of recorders in any states, in the order of the requests.
  abbrev pub replies_of :
      (ReplicaId → RecorderCore V) → List (ReplicaId × RecordRequest V) → List (Arrival V)
  replies_of cores [] = []
  replies_of cores (r ∷ rs) = arrived r.0 (record_request (cores r.0) r.1).1 ∷ replies_of cores rs

  -- Rounds in which every recorder answers, in whatever state it then is.
  abbrev pub recorders_network :
      (ℕ → ReplicaId → RecorderCore V) → ℕ → List (ReplicaId × RecordRequest V) → Arrivals V
  recorders_network cores n requests = record {
    launched = length requests;
    events = replies_of (cores n) requests;
  }

  arrival-Forward :
      (core : RecorderCore V) (asked : ReplicaId) (step : Step) (request : RecordRequest V)
      → request.step ≡ step
      → IsForwardArrival step (arrived asked (record_request core request).1)
  arrival-Forward core asked step request h = elim (Result-cases (record_request core request).1) [
    | inl (reply, k) ↦
        subst (λ r. IsForwardArrival step (arrived asked r)) (sym k)
          (subst (λ s. s ≤ reply.summary.step) h (record_request_forward core request reply k))
    | inr (error, k) ↦ subst (λ r. IsForwardArrival step (arrived asked r)) (sym k) tt
  ]

  replies_of-Forward :
      (cores : ReplicaId → RecorderCore V) (step : Step)
      (requests : List (ReplicaId × RecordRequest V))
      → AtStep step requests
      → All (IsForwardArrival step) (replies_of cores requests)
  replies_of-Forward cores step [] a = tt
  replies_of-Forward cores step (r ∷ rs) a =
      (arrival-Forward (cores r.0) r.0 step r.1 a.0, replies_of-Forward cores step rs a.1)

  -- What `propose_ends` asks of the network holds of recorders.
  pub recorders_network-Forward :
      (cores : ℕ → ReplicaId → RecorderCore V) → Forward (recorders_network cores)
  recorders_network-Forward cores n step requests a = replies_of-Forward (cores n) step requests a
