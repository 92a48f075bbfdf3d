-- ===== src/Samples.antt =====
-- Test data: a cluster of three replicas, its joint and its next epoch, and a recorder of it.
use rust_quepaxa.Prelude.{ℕ, List, [], ◌∷◌, none, some}
use rust_quepaxa.Error.{Result, ok}
use rust_quepaxa.Types.{Proposal, Decision, RecordRequest}
use rust_quepaxa.Types.Keys.{Priority, ReplicaId, priority_max}
use rust_quepaxa.Cluster.{ClusterIdentity, JointMembership}
use rust_quepaxa.Messages.{MembershipChange}
use rust_quepaxa.Recorder.{RecorderCore}
use rust_quepaxa.Recorder.Validation.{RecorderConfig, default_limits}

abbrev pub three : ClusterIdentity
three = record { members = 1 ∷ 2 ∷ 3 ∷ []; max_faults = 1; epoch = 0; joint = none }

abbrev pub moving : JointMembership
moving = record { old_members = 1 ∷ 2 ∷ 3 ∷ []; old_max_faults = 1; new_members = 3 ∷ 4 ∷ 5 ∷ [] }

abbrev pub joint_three : ClusterIdentity
joint_three = record {
  members = 1 ∷ 2 ∷ 3 ∷ 4 ∷ 5 ∷ [];
  max_faults = 1;
  epoch = 1;
  joint = some moving;
}

abbrev pub moved : ClusterIdentity
moved = record { members = 3 ∷ 4 ∷ 5 ∷ []; max_faults = 1; epoch = 2; joint = none }

abbrev pub config : RecorderConfig
config = record { id = 1; cluster = three; limits = default_limits }

abbrev pub available : List ℕ → Result (Unit {0})
available ids = ok tt

abbrev pub propose : Priority → ReplicaId → ℕ → Proposal ℕ
propose priority replica value = record {
  key = record { priority = priority; proposer_id = replica; lane_id = 1 };
  value_ids = value ∷ [];
}

abbrev pub decide : ℕ → ReplicaId → ℕ → Decision ℕ
decide slot replica value = record {
  slot = slot;
  value_ids = value ∷ [];
  proposer = replica;
  decided_step = 4;
}

-- Replica 2 leads slot 7, and reports the decision of slot 6.
abbrev pub request : RecordRequest ℕ
request = record {
  sender = 2;
  slot = 7;
  round_one_leader = some 2;
  step = 4;
  proposal = propose priority_max 2 10;
  known_decisions = decide 6 3 9 ∷ [];
}

-- A recorder of the joint epoch that retains a decision of the leaving replica 1.
abbrev pub leaving : RecorderCore ℕ
leaving = record {
  config = record { id = 3; cluster = joint_three; limits = default_limits };
  availability = available;
  slots = [];
  round_one_leaders = [];
  decisions = (8, decide 8 1 20) ∷ [];
  pruned_through = 0;
}

abbrev pub departure : MembershipChange ℕ
departure = record { anchor = decide 8 1 20; next = moved; command_id = 20 }
