-- ===== src/Policy.antt =====
-- src/policy.rs: who leads a slot, and when the others hedge.
--
-- A `Duration` is its number of nanoseconds.
pub mod Adaptive
pub mod Order
pub mod Leader
use rust_quepaxa.Prelude.{
  ℕ, zero, ◌+◌, ◌*◌, ◌-◌, ◌/◌, ◌%◌, ◌^◌, Bool, not, List, [], ◌∷◌, ◌++◌, Option, none, some, ◌==◌,
  nat_eq, eqb, ltb, leb, if◌then◌else◌, length, tally, contains, is_empty, max, take, drop,
  position, find, ◌!=◌,
}
use rust_quepaxa.Error.{
  Result, ok, err, ◌>>◌, ◌>>=◌, ok_or, empty_cluster, duplicate_replica, unknown_replica,
}
use rust_quepaxa.Types.{SlotIndex}
use rust_quepaxa.Types.Clock.{u64_mod}
use rust_quepaxa.Types.Keys.{ReplicaId}
use rust_quepaxa.Cluster.Sorting.{to_set}

abbrev pub Duration : Type 0
Duration = ℕ

abbrev pub one_second : Duration
one_second = 1000000000

-- `Duration * u32`, which panics past the largest duration: `none`
abbrev pub times : Duration → ℕ → Option Duration
times d n = if ltb (d * n) (u64_mod * one_second) then some (d * n) else none

-- The methods give an error as a value, and `none` where they panic.
pub record HedgingPolicy (P : Type 0) : Type 0 where
  pub leader_sequence : P → SlotIndex → List ReplicaId → Option ReplicaId → Result (List ReplicaId)
  pub delay_for : P → ReplicaId → List ReplicaId → Duration → Option (Result Duration)

-- `HedgingPolicy::delay_for`, where a policy does not override it
unfoldable pub delay_by_position : ReplicaId → List ReplicaId → Duration → Option (Result Duration)
delay_by_position replica sequence base_delay =
    elim (position (λ candidate. candidate == replica) sequence) [
      | none ↦ some (err (unknown_replica replica))
      | some place ↦ elim (times base_delay (place % 2 ^ 32)) [
        | none ↦ none
        | some delay ↦ some (ok delay)
      ]
    ]

-- A replica that is listed more than once.
abbrev pub is_repeated : List ReplicaId → ReplicaId → Bool
is_repeated replicas replica = ltb 1 (tally (λ candidate. candidate == replica) replicas)

unfoldable pub validate_replicas : List ReplicaId → Result (Unit {0})
validate_replicas replicas =
    if is_empty replicas
    then err empty_cluster
    else if length (to_set replicas) != length replicas
    then elim (find (is_repeated replicas) replicas) [
      | some duplicate ↦ err (duplicate_replica duplicate)
      | none ↦ ok tt
    ]
    else ok tt

unfoldable pub rotated : List ReplicaId → ℕ → List ReplicaId
rotated replicas offset = drop offset replicas ++ take offset replicas

pub record FixedLeaderPolicy : Type 0 where

pub record RoundRobinPolicy : Type 0 where
  pub epoch_size : ℕ

pub record LeaderlessPolicy : Type 0 where

pub record LastWinnerPolicy : Type 0 where

unfoldable pub fixed_sequence :
    FixedLeaderPolicy → SlotIndex → List ReplicaId → Option ReplicaId → Result (List ReplicaId)
fixed_sequence self slot replicas previous_winner = validate_replicas replicas >> ok replicas

-- `RoundRobinPolicy::new`
unfoldable pub round_robin : ℕ → RoundRobinPolicy
round_robin epoch_size = record { epoch_size = max epoch_size 1 }

unfoldable pub round_robin_sequence :
    RoundRobinPolicy → SlotIndex → List ReplicaId → Option ReplicaId → Result (List ReplicaId)
round_robin_sequence self slot replicas previous_winner =
    validate_replicas replicas >> ok (rotated replicas ((slot / self.epoch_size) % length replicas))

unfoldable pub leaderless_sequence :
    LeaderlessPolicy → SlotIndex → List ReplicaId → Option ReplicaId → Result (List ReplicaId)
leaderless_sequence self slot replicas previous_winner = validate_replicas replicas >> ok replicas

unfoldable pub leaderless_delay :
    LeaderlessPolicy → ReplicaId → List ReplicaId → Duration → Option (Result Duration)
leaderless_delay self replica sequence base_delay =
    if not (contains sequence replica) then some (err (unknown_replica replica)) else some (ok 0)

unfoldable pub last_winner_sequence :
    LastWinnerPolicy → SlotIndex → List ReplicaId → Option ReplicaId → Result (List ReplicaId)
last_winner_sequence self slot replicas none = validate_replicas replicas >> ok replicas
last_winner_sequence self slot replicas (some winner) = do
  validate_replicas replicas
  offset ← ok_or (position (λ replica. replica == winner) replicas) (unknown_replica winner)
  ok (rotated replicas offset)

instance abbrev pub fixed_policy : HedgingPolicy FixedLeaderPolicy
fixed_policy = record { leader_sequence = fixed_sequence; delay_for = λ self. delay_by_position }

instance abbrev pub round_robin_policy : HedgingPolicy RoundRobinPolicy
round_robin_policy = record {
  leader_sequence = round_robin_sequence;
  delay_for = λ self. delay_by_position;
}

instance abbrev pub leaderless_policy : HedgingPolicy LeaderlessPolicy
leaderless_policy = record { leader_sequence = leaderless_sequence; delay_for = leaderless_delay }

instance abbrev pub last_winner_policy : HedgingPolicy LastWinnerPolicy
last_winner_policy = record {
  leader_sequence = last_winner_sequence;
  delay_for = λ self. delay_by_position;
}
