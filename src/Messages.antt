-- ===== src/Messages.antt =====
-- src/types.rs: the messages that name a membership, `RecordReply` and `MembershipChange`.
use rust_quepaxa.Prelude.{Option, not, Eq, contains, if◌then◌else◌}
use rust_quepaxa.Error.{Result, ok, err, reject_if, invalid_reconfiguration, command_not_in_anchor}
use rust_quepaxa.Types.{RecordSummary, Decision}
use rust_quepaxa.Types.Keys.{ReplicaId}
use rust_quepaxa.Cluster.{ClusterIdentity}

pub record RecordReply (V : Type 0) : Type 0 where
  pub recorder : ReplicaId
  pub cluster : ClusterIdentity
  pub summary : RecordSummary V
  pub decision : Option (Decision V)

pub record MembershipChange (V : Type 0) : Type 0 where
  pub anchor : Decision V
  pub next : ClusterIdentity
  pub command_id : V

module _ {V : Type 0} ⦃e : Eq V⦄ where
  -- `MembershipChange::new`
  unfoldable pub new_change : Decision V → ClusterIdentity → V → Result (MembershipChange V)
  new_change anchor next command_id =
      if not (contains anchor.value_ids command_id)
      then err (invalid_reconfiguration command_not_in_anchor)
      else ok (record { anchor = anchor; next = next; command_id = command_id })

  unfoldable pub validate_binding : MembershipChange V → Result (Unit {0})
  validate_binding change =
      reject_if (not (contains change.anchor.value_ids change.command_id))
        (invalid_reconfiguration command_not_in_anchor)
