-- ===== src/Proposer.antt =====
-- src/proposer.rs: `ProposerCore` and its loop.
--
-- A call of `propose` is a loop over rounds of requests. What the recorders and the threads do in
-- a round is the argument `network`: it takes the number of the round and the requests, and gives
-- what arrives. The clock and the in-flight guards are not modelled; an endpoint that is skipped
-- is one that was not launched.
pub mod Random
pub mod Replies
pub mod Collect
pub mod Quorum
pub mod Advance
pub mod Continue
pub mod FastDecision
pub mod Requests
pub mod Progress
pub mod Termination
pub mod Decisions
pub mod Recorders
use rust_quepaxa.Prelude.{
  ℕ, zero, suc, ◌/◌, ◌+◌, ◌≡◌, Bool, true, false, ◌&&◌, ◌||◌, not, List, [], ◌∷◌, Option, none,
  some, Eq, ◌==◌, ◌!=◌, nat_eq, list_eq, option_eq, eqb, ltb, leb, if◌then◌else◌, length, any, all,
  contains, has_duplicates, is_empty,
}
use rust_quepaxa.Error.{
  Result, ok, err, ◌>>=◌, ◌>>◌, reject_if, ok_or, unknown_replica, invalid_sender, missing_proposal,
  step_overflow, step_limit_exceeded, invalid_proposal, decision_for_another_slot,
}
use rust_quepaxa.Types.{
  Proposal, proposal_eq, Decision, RecordRequest, SlotIndex, new_proposal, new_decision,
  with_priority,
}
use rust_quepaxa.Types.Clock.{Step, round_one_phase_zero, phase, checked_next}
use rust_quepaxa.Types.Keys.{
  ReplicaId, LaneId, Priority, priority_max, ProposalKey, key_eq, is_leader_priority,
}
use rust_quepaxa.Types.Selection.{max_proposal_by_key}
use rust_quepaxa.Cluster.{ClusterIdentity, quorum_size}
use rust_quepaxa.Messages.{RecordReply}
pub use Replies.{
  Outcome, decided, again, decide_on, move_on, firsts, priors, reported_decision, latest_from,
  latest, same_first,
}
unfoldable pub use Replies.{fast_path_winner, conclude_phase, advance}
use Random.{PrioritySource}
use Collect.{Arrivals, collect_quorum}
use Quorum.{validate_recorders}

pub record ProposerConfig : Type 0 where
  pub max_steps : ℕ
  pub quorum : Option ℕ
  pub cluster : Option ClusterIdentity

-- `ProposerConfig::default`, without its timeout
abbrev pub default_config : ProposerConfig
default_config = record { max_steps = 1027; quorum = none; cluster = none }

pub record ProposerCore (R : Type 0) : Type 0 where
  pub replica_id : ReplicaId
  pub lane_id : LaneId
  pub rng : R
  pub config : ProposerConfig

module _ {R : Type 0} where
  unfoldable pub with_rng : ReplicaId → LaneId → R → ProposerCore R
  with_rng replica_id lane_id rng = record {
    replica_id = replica_id;
    lane_id = lane_id;
    rng = rng;
    config = default_config;
  }

  unfoldable pub with_config : ProposerCore R → ProposerConfig → ProposerCore R
  with_config self config = record self { config = config }

  unfoldable pub with_quorum : ProposerCore R → ℕ → ProposerCore R
  with_quorum self quorum = record self { config = record (self.config) { quorum = some quorum } }

  unfoldable pub with_cluster : ProposerCore R → ClusterIdentity → ProposerCore R
  with_cluster self cluster = record self {
    config = record (self.config) { quorum = some (quorum_size cluster); cluster = some cluster };
  }

abbrev check_leader : List ReplicaId → Option ReplicaId → Result (Unit {0})
check_leader recorders none = ok tt
check_leader recorders (some leader) =
    reject_if (not (contains recorders leader)) (unknown_replica leader)

module _ {V : Type 0} where
  abbrev ask :
      ReplicaId
      → SlotIndex
      → Option ReplicaId
      → Step
      → List (Decision V)
      → Proposal V
      → RecordRequest V
  ask sender slot leader step known p = record {
    sender = sender;
    slot = slot;
    round_one_leader = leader;
    step = step;
    proposal = p;
    known_decisions = known;
  }

  -- `known_decisions` name only configured recorders.
  abbrev known_proposers : List ReplicaId → List (Decision V) → Result (Unit {0})
  known_proposers recorders [] = ok tt
  known_proposers recorders (d ∷ ds) =
      reject_if (not (contains recorders d.proposer)) (invalid_sender d.proposer)
      >> known_proposers recorders ds

module _ {V : Type 0} ⦃e : Eq V⦄ where
  -- What one pass does with what arrives.
  abbrev pub pass :
      ℕ
      → Option ClusterIdentity
      → SlotIndex
      → Option ReplicaId
      → Step
      → Proposal V
      → Arrivals V
      → Result (Outcome V)
  pass quorum cluster slot leader step proposal arrivals = do
    replies ← collect_quorum quorum cluster arrivals
    advance slot leader step proposal replies

module _ {V R : Type 0} ⦃e : Eq V⦄ ⦃source : PrioritySource R⦄ where
  -- `proposal.with_priority(self.rng.next_below(Priority::MAX)?)` in a request.
  abbrev drawn_request :
      ProposerCore R
      → SlotIndex
      → Option ReplicaId
      → Step
      → Proposal V
      → List (Decision V)
      → R
      → R × Result (RecordRequest V)
  drawn_request self slot leader step proposal known rng =
      let (rng', drawn) = source.next_below rng priority_max in
      elim drawn [
        | err error ↦ (rng', err error)
        | ok priority ↦ (
          rng',
          ok (ask self.replica_id slot leader step known (with_priority proposal priority)),
        )
      ]

  -- One request, with a fresh priority in phase zero for all but the leader of round one.
  unfoldable pub make_request :
      ProposerCore R
      → SlotIndex
      → Option ReplicaId
      → Step
      → Proposal V
      → List (Decision V)
      → R
      → R × Result (RecordRequest V)
  make_request self slot leader step proposal known rng =
      if phase step == 0 && (ltb round_one_phase_zero step || leader != some self.replica_id)
      then drawn_request self slot leader step proposal known rng
      else (rng, ok (ask self.replica_id slot leader step known proposal))

  -- The requests of one round, in the order of the recorders.
  unfoldable pub make_requests :
      ProposerCore R
      → SlotIndex
      → Option ReplicaId
      → Step
      → Proposal V
      → List (Decision V)
      → List ReplicaId
      → R
      → R × Result (List (ReplicaId × RecordRequest V))
  make_requests self slot leader step proposal known [] rng = (rng, ok [])
  make_requests self slot leader step proposal known (recorder ∷ recorders) rng =
      let (rng', made) = make_request self slot leader step proposal known rng in
      let (rng2, rest) = make_requests self slot leader step proposal known recorders rng' in
      elim made [
        | err error ↦ (rng', err error)
        | ok request ↦ elim rest [
          | err error ↦ (rng2, err error)
          | ok requests ↦ (rng2, ok ((recorder, request) ∷ requests))
        ]
      ]

  -- The `while` loop. `none` means that the fuel has run out.
  unfoldable pub propose_loop :
      ℕ
      → ProposerCore R
      → SlotIndex
      → Option ReplicaId
      → List ReplicaId
      → ℕ
      → (ℕ → List (ReplicaId × RecordRequest V) → Arrivals V)
      → Step
      → Proposal V
      → List (Decision V)
      → Option (R × Result (Decision V))
  propose_loop zero self slot leader recorders quorum network step proposal known = none
  propose_loop (suc fuel) self slot leader recorders quorum network step proposal known =
      if ltb self.config.max_steps step
      then some (self.rng, err (step_limit_exceeded self.config.max_steps))
      else let (rng, made) =
          make_requests self slot leader step proposal known recorders self.rng in
        elim made [
          | err error ↦ some (rng, err error)
          | ok requests ↦
              elim (pass quorum self.config.cluster slot leader step proposal
                (network fuel requests)) [
                  | err error ↦ some (rng, err error)
                  | ok outcome ↦ elim outcome [
                    | decided decision ↦ some (rng, ok decision)
                    | again step' proposal' ↦
                        propose_loop fuel (record self { rng = rng }) slot leader recorders quorum
                          network step' proposal' []
                  ]
                ]
        ]

  -- The checks of `propose`, the quorum, and the first proposal.
  unfoldable pub prepare :
      ProposerCore R
      → List V
      → Option ReplicaId
      → List ReplicaId
      → List (Decision V)
      → Result (ℕ × Proposal V)
  prepare self value_ids leader recorders known = do
    quorum ← validate_recorders recorders self.replica_id self.config.quorum self.config.cluster
    check_leader recorders leader
    known_proposers recorders known
    proposal ←
        new_proposal
          (record {
            priority = priority_max;
            proposer_id = self.replica_id;
            lane_id = self.lane_id;
          })
          value_ids
    ok (quorum, proposal)

  -- `ProposerCore::propose`
  unfoldable pub propose :
      ℕ
      → ProposerCore R
      → SlotIndex
      → List V
      → Option ReplicaId
      → List ReplicaId
      → List (Decision V)
      → (ℕ → List (ReplicaId × RecordRequest V) → Arrivals V)
      → Option (R × Result (Decision V))
  propose fuel self slot value_ids leader recorders known network =
      elim (prepare self value_ids leader recorders known) [
        | err error ↦ some (self.rng, err error)
        | ok start ↦
            propose_loop fuel self slot leader recorders start.0 network round_one_phase_zero
              start.1 known
      ]
