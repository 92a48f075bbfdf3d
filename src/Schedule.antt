-- ===== src/Schedule.antt =====
-- src/runtime/schedule.rs: the runtime's configuration, and the agreed order of proposers of an epoch.
pub mod Hedging
pub mod Percentile
pub mod Tuner
use rust_quepaxa.Prelude.{
  ℕ, ◌+◌, ◌*◌, ◌/◌, ◌≡◌, ◌↔◌, Bool, true, false, ◌&&◌, ◌||◌, not, List, [], ◌∷◌, Option, none, some,
  arith, Eq, ◌==◌, ◌!=◌, nat_eq, list_eq, list_beq_iff, ltb, leb, eqb, if◌then◌else◌, length,
  is_empty, nth, find, max,
}
use rust_quepaxa.Error.{
  Result, ok, err, ◌>>=◌, ◌>>◌, reject_if, ok_or, empty_cluster, duplicate_replica, unknown_replica,
  slot_overflow, invalid_proposal, zero_runtime_limits, policy_error, epoch_shorter_than_pipeline,
}
use rust_quepaxa.Types.{SlotIndex}
use rust_quepaxa.Types.Clock.{checked_mul}
use rust_quepaxa.Types.Keys.{ReplicaId, LaneId}
use rust_quepaxa.Cluster
use rust_quepaxa.Cluster.{ClusterIdentity, has_member}
use rust_quepaxa.Cluster.Sorting.{to_set}
use rust_quepaxa.Replica.{ReplicaConfig}
use rust_quepaxa.Policy.{Duration, one_second, HedgingPolicy, is_repeated}
use Hedging.{AdaptiveHedgingConfig}

pub record ProtocolIdentity : Type 0 where
  pub epoch_size : ℕ
  pub auto_schedules : Bool

pub record ReplicaRuntimeConfig : Type 0 where
  pub replica_id : ReplicaId
  pub lane_id : LaneId
  pub cluster : ClusterIdentity
  pub replica : ReplicaConfig
  pub epoch_size : ℕ
  pub base_hedge_delay : Duration
  pub transport_timeout : Duration
  pub auto_schedules : Bool
  pub adaptive_hedging : Option AdaptiveHedgingConfig

-- A limit of the runtime is zero.
abbrev has_zero_limit : ReplicaConfig → ℕ → Bool
has_zero_limit replica epoch_size =
    epoch_size == 0
    || replica.batch_size == 0
    || replica.pipeline_len == 0
    || replica.max_pending_values == 0
    || replica.max_log_slots == 0
    || replica.max_tracked_value_ids == 0

-- `ReplicaRuntimeConfig::new`
unfoldable pub new_runtime_config :
    ReplicaId
    → LaneId
    → List ReplicaId
    → ℕ
    → ReplicaConfig
    → ℕ
    → Duration
    → Result ReplicaRuntimeConfig
new_runtime_config replica_id lane_id members max_faults replica epoch_size base_hedge_delay = do
  cluster ← Cluster.new members max_faults
  reject_if (not (has_member cluster replica_id)) (unknown_replica replica_id)
  reject_if (has_zero_limit replica epoch_size) (invalid_proposal zero_runtime_limits)
  ok (record {
    replica_id = replica_id;
    lane_id = lane_id;
    cluster = cluster;
    replica = replica;
    epoch_size = epoch_size;
    base_hedge_delay = base_hedge_delay;
    transport_timeout = 30 * one_second;
    auto_schedules = false;
    adaptive_hedging = none;
  })

unfoldable pub with_auto_schedules : ReplicaRuntimeConfig → Result ReplicaRuntimeConfig
with_auto_schedules self =
    if ltb self.epoch_size self.replica.pipeline_len
    then err (policy_error epoch_shorter_than_pipeline)
    else ok (record self { auto_schedules = true })

unfoldable pub with_transport_timeout : ReplicaRuntimeConfig → Duration → ReplicaRuntimeConfig
with_transport_timeout self timeout = record self { transport_timeout = max timeout 1000000 }

unfoldable pub with_adaptive_hedging :
    ReplicaRuntimeConfig → AdaptiveHedgingConfig → ReplicaRuntimeConfig
with_adaptive_hedging self config = record self { adaptive_hedging = some config }

unfoldable pub install_cluster : ReplicaRuntimeConfig → ClusterIdentity → ReplicaRuntimeConfig
install_cluster self cluster = record self { cluster = cluster }

unfoldable pub protocol_identity : ReplicaRuntimeConfig → ProtocolIdentity
protocol_identity self = record {
  epoch_size = self.epoch_size;
  auto_schedules = self.auto_schedules;
}

unfoldable pub epoch_for : ReplicaRuntimeConfig → SlotIndex → ℕ
epoch_for self slot = slot / self.epoch_size

pub record EpochSchedule : Type 0 where
  pub epoch : ℕ
  pub proposers : List ReplicaId

abbrev pub schedule_beq : EpochSchedule → EpochSchedule → Bool
schedule_beq a b = a.epoch == b.epoch && a.proposers == b.proposers

pub schedule_beq_iff : (a b : EpochSchedule) → (schedule_beq a b ≡ true) ↔ (a ≡ b)
schedule_beq_iff a b = ground (arith, list_beq_iff a.proposers b.proposers)

instance abbrev pub schedule_eq : Eq EpochSchedule
schedule_eq = record { beq = schedule_beq; beq_iff = schedule_beq_iff }

-- `EpochSchedule::new`
unfoldable pub new_schedule : ℕ → List ReplicaId → Result EpochSchedule
new_schedule epoch proposers =
    if is_empty proposers
    then err empty_cluster
    else if length (to_set proposers) != length proposers
    then elim (find (is_repeated proposers) proposers) [
      | some duplicate ↦ err (duplicate_replica duplicate)
      | none ↦ ok (record { epoch = epoch; proposers = proposers })
    ]
    else ok (record { epoch = epoch; proposers = proposers })

module _ {P : Type 0} ⦃policy : HedgingPolicy P⦄ where
  -- `EpochSchedule::from_policy`
  unfoldable pub from_policy :
      ReplicaRuntimeConfig → ℕ → P → Option ReplicaId → Result EpochSchedule
  from_policy config epoch p previous_winner = do
    first_slot ← ok_or (checked_mul epoch config.epoch_size) slot_overflow
    order ← policy.leader_sequence p first_slot config.cluster.members previous_winner
    new_schedule epoch order

-- `leader`: `proposers[0]`, which panics (`none`) on a schedule that `new` would have refused.
unfoldable pub leader : EpochSchedule → Option ReplicaId
leader self = nth 0 self.proposers
