-- ===== src/Cluster.antt =====
-- src/types.rs: `ClusterIdentity`, its construction, its transitions and its quorums.
--
-- `sort` and `dedup` are those of the standard library, on `u64` identifiers. `usize` is 64 bits.
-- A subtraction of fault budgets is the truncated one; `Cluster.Validity` shows that no
-- well-formed membership makes it underflow.
pub mod Sorting
pub mod Validity
pub mod Quorums
pub mod Sets
pub mod Transitions
use rust_quepaxa.Prelude.{
  ℕ, suc, ◌+◌, ◌-◌, ◌*◌, ◌≡◌, refl, ◌↔◌, Bool, true, false, ◌&&◌, ◌||◌, not, List, [], ◌∷◌, ◌++◌,
  Option, none, some, arith, Eq, ◌==◌, ◌!=◌, nat_eq, list_eq, option_eq, list_beq_iff,
  option_beq_iff, eqb, ltb, leb, if◌then◌else◌, length, contains, all, tally, min, is_empty,
}
use rust_quepaxa.Error.{
  Result, ok, err, ◌>>=◌, ◌>>◌, reject_if, ok_or, is_ok, is_err, empty_cluster, duplicate_replica,
  invalid_proposal, invalid_reconfiguration, configuration_epoch_overflow,
  fault_tolerance_too_large, cannot_tolerate, second_reconfiguration, only_joint_can_be_finalized,
}
use rust_quepaxa.Types.Clock.{checked_add, checked_mul}
use rust_quepaxa.Types.Keys.{ReplicaId}
use Sorting.{sort, dedup, find_duplicate, members_are_normalized, binary_search, to_set}

pub record JointMembership : Type 0 where
  pub old_members : List ReplicaId
  pub old_max_faults : ℕ
  pub new_members : List ReplicaId

pub record ClusterIdentity : Type 0 where
  pub members : List ReplicaId
  pub max_faults : ℕ
  pub epoch : ℕ
  pub joint : Option JointMembership

abbrev pub joint_beq : JointMembership → JointMembership → Bool
joint_beq a b =
    a.old_members == b.old_members
    && a.old_max_faults == b.old_max_faults
    && a.new_members == b.new_members

pub joint_beq_iff : (a b : JointMembership) → (joint_beq a b ≡ true) ↔ (a ≡ b)
joint_beq_iff a b =
    ground
      (arith, list_beq_iff a.old_members b.old_members, list_beq_iff a.new_members b.new_members)

instance abbrev pub joint_eq : Eq JointMembership
joint_eq = record { beq = joint_beq; beq_iff = joint_beq_iff }

abbrev pub cluster_beq : ClusterIdentity → ClusterIdentity → Bool
cluster_beq a b =
    a.members == b.members
    && a.max_faults == b.max_faults
    && a.epoch == b.epoch
    && a.joint == b.joint

pub cluster_beq_iff : (a b : ClusterIdentity) → (cluster_beq a b ≡ true) ↔ (a ≡ b)
cluster_beq_iff a b =
    ground (arith, list_beq_iff a.members b.members, option_beq_iff a.joint b.joint)

instance abbrev pub cluster_eq : Eq ClusterIdentity
cluster_eq = record { beq = cluster_beq; beq_iff = cluster_beq_iff }

unfoldable pub normalize_members : List ReplicaId → Result (List ReplicaId)
normalize_members members =
    let sorted = sort members in
    if is_empty sorted then err empty_cluster else elim (find_duplicate sorted) [
      | some duplicate ↦ err (duplicate_replica duplicate)
      | none ↦ ok sorted
    ]

-- `2 f + 1`, unless it overflows
unfoldable pub required_replicas : ℕ → Option ℕ
required_replicas max_faults = elim (checked_mul max_faults 2) [
  | none ↦ none
  | some value ↦ checked_add value 1
]

unfoldable pub validate_fault_tolerance : ℕ → ℕ → Result (Unit {0})
unfolding required_replicas
validate_fault_tolerance replica_count max_faults = do
  required ← ok_or (required_replicas max_faults) (invalid_proposal fault_tolerance_too_large)
  reject_if (ltb replica_count required)
      (invalid_proposal (cannot_tolerate replica_count max_faults required))

unfoldable pub stable : ℕ → List ReplicaId → ℕ → Result ClusterIdentity
stable epoch members max_faults = do
  members ← normalize_members members
  validate_fault_tolerance (length members) max_faults
  ok (record { members = members; max_faults = max_faults; epoch = epoch; joint = none })

-- `ClusterIdentity::new`
unfoldable pub new : List ReplicaId → ℕ → Result ClusterIdentity
unfolding stable
new members max_faults = stable 0 members max_faults

abbrev pub is_joint : ClusterIdentity → Bool
is_joint c = elim c.joint [ none ↦ false | some j ↦ true ]

unfoldable pub begin_joint : ClusterIdentity → List ReplicaId → ℕ → Result ClusterIdentity
begin_joint self new_members new_max_faults = do
  reject_if (is_joint self) (invalid_reconfiguration second_reconfiguration)
  new_members ← normalize_members new_members
  validate_fault_tolerance (length new_members) new_max_faults
  epoch ← ok_or (checked_add self.epoch 1) configuration_epoch_overflow
  ok (record {
    members = dedup (sort (self.members ++ new_members));
    max_faults = new_max_faults;
    epoch = epoch;
    joint = some (record {
      old_members = self.members;
      old_max_faults = self.max_faults;
      new_members = new_members;
    });
  })

unfoldable pub finalize_joint : ClusterIdentity → Result ClusterIdentity
finalize_joint self = elim self.joint [
  | none ↦ err (invalid_reconfiguration only_joint_can_be_finalized)
  | some joint ↦ do
    epoch ← ok_or (checked_add self.epoch 1) configuration_epoch_overflow
    stable epoch joint.new_members self.max_faults
]

unfoldable pub current_members : ClusterIdentity → List ReplicaId
current_members c = elim c.joint [ none ↦ c.members | some j ↦ j.new_members ]

unfoldable pub old_members : ClusterIdentity → Option (List ReplicaId)
old_members c = elim c.joint [ none ↦ none | some j ↦ some j.old_members ]

-- `ClusterIdentity::contains`
unfoldable pub has_member : ClusterIdentity → ReplicaId → Bool
has_member c replica = binary_search c.members replica

unfoldable pub quorum_size : ClusterIdentity → ℕ
quorum_size c = elim c.joint [
  | none ↦ length c.members - c.max_faults
  | some j ↦
      let old_quorum = length j.old_members - j.old_max_faults in
      let new_quorum = length j.new_members - c.max_faults in
      let shared =
        min (min (tally (binary_search j.new_members) j.old_members) old_quorum) new_quorum in
      old_quorum + new_quorum - shared
]

unfoldable pub has_quorum : ClusterIdentity → List ReplicaId → Bool
unfolding quorum_size has_member
has_quorum c voters =
    let voters = to_set voters in
    elim c.joint [
      | none ↦ leb (quorum_size c) (length voters) && all (has_member c) voters
      | some j ↦
          leb (length j.old_members - j.old_max_faults) (tally (contains voters) j.old_members)
          && leb (length j.new_members - c.max_faults) (tally (contains voters) j.new_members)
    ]

-- The union of both voter sets, as `begin_joint` and `is_well_formed` build it.
unfoldable pub is_well_formed : ClusterIdentity → Bool
is_well_formed c = if not (members_are_normalized c.members) then false else elim c.joint [
  | none ↦ is_ok (validate_fault_tolerance (length c.members) c.max_faults)
  | some j ↦
      if not (members_are_normalized j.old_members)
        || not (members_are_normalized j.new_members)
        || is_err (validate_fault_tolerance (length j.old_members) j.old_max_faults)
        || is_err (validate_fault_tolerance (length j.new_members) c.max_faults)
      then false
      else dedup (sort (j.old_members ++ j.new_members)) == c.members
]

unfoldable pub is_successor_of : ClusterIdentity → ClusterIdentity → Bool
is_successor_of self previous =
    if not (is_well_formed self)
      || not (is_well_formed previous)
      || checked_add previous.epoch 1 != some self.epoch
    then false
    else elim self.joint [
      | some j ↦
          not (is_joint previous)
          && j.old_members == previous.members
          && j.old_max_faults == previous.max_faults
      | none ↦ elim previous.joint [
        | none ↦ false
        | some j ↦ self.members == j.new_members && self.max_faults == previous.max_faults
      ]
    ]
