-- ===== src/Recorder/Membership.antt =====
-- src/recorder.rs: `install_membership`.
use rust_quepaxa.Prelude.{
  ◌≡◌, ◌⊎◌, inl, inr, true, false, List, some, arith, Eq, ltb, any, Option-cases,
}
use rust_quepaxa.Prelude.Maps.{get, keys}
use rust_quepaxa.Error.{ok, is_err}
use rust_quepaxa.Types.{decision_beq_iff, decision_eq}
use rust_quepaxa.Types.Keys.{ReplicaId}
use rust_quepaxa.Messages.{MembershipChange}
use rust_quepaxa.Cluster.{
  cluster_eq, cluster_beq_iff, has_member, has_quorum, is_successor_of, is_well_formed,
}
use rust_quepaxa.Cluster.Quorums.{Meet, quorums-Meet, successor_quorums-Meet}
use rust_quepaxa.Recorder.{RecorderCore, snapshot, restore, install_membership}
use rust_quepaxa.Recorder.Validation.{contains_replica}
use rust_quepaxa.Recorder.Restore.{restore-snapshot_removed}

module _ {V : Type 0} ⦃e : Eq V⦄ where
  -- A transition that takes effect: it names the next epoch, its anchor is the retained decision,
  -- and no later slot is active or decided.
  pub record IsInstalled (core : RecorderCore V) (change : MembershipChange V) : Type 0 where
    pub follows : is_successor_of change.next core.config.cluster ≡ true
    pub anchored : get change.anchor.slot core.decisions ≡ some change.anchor
    pub slots_drained : any (ltb change.anchor.slot) (keys core.slots) ≡ false
    pub decisions_drained : any (ltb change.anchor.slot) (keys core.decisions) ≡ false

  -- Where `install_membership` succeeds the new membership is in force and nothing else has
  -- changed, and either it was in force already or it is a legal transition whose anchor is the
  -- retained decision over a drained log.
  pub install_membership-installs :
      (core : RecorderCore V) (change : MembershipChange V)
      → (install_membership core change).1 ≡ ok tt
      → ((install_membership core change).0
          ≡ record core { config = record (core.config) { cluster = change.next } })
        × ((core.config.cluster ≡ change.next) ⊎ IsInstalled core change)
  unfolding install_membership
  install_membership-installs core change h =
      elim (Option-cases (get change.anchor.slot core.decisions)) [
        | inl missing ↦ ground (arith, cluster_beq_iff core.config.cluster change.next, missing)
        | inr (anchor, found) ↦ ground (
          arith,
          cluster_beq_iff core.config.cluster change.next,
          decision_beq_iff anchor change.anchor,
          found,
        )
      ]

  -- A refused transition changes nothing.
  pub install_membership_refused :
      (core : RecorderCore V) (change : MembershipChange V)
      → is_err (install_membership core change).1 ≡ true
      → (install_membership core change).0 ≡ core
  unfolding install_membership
  install_membership_refused core change h = ground arith

  -- Whatever transition a recorder installs, quorums before and after it have a voter in common.
  pub installed_quorums-Meet :
      (core : RecorderCore V) (change : MembershipChange V) (vs ws : List ReplicaId)
      → is_well_formed core.config.cluster ≡ true
      → (install_membership core change).1 ≡ ok tt
      → has_quorum core.config.cluster vs ≡ true
      → has_quorum (install_membership core change).0.config.cluster ws ≡ true
      → Meet vs ws
  installed_quorums-Meet core change vs ws w h p q =
      let (installed, how) = install_membership-installs core change h in
      elim how [
        | inl same ↦ quorums-Meet core.config.cluster vs ws w p (ground (arith, installed, same, q))
        | inr step ↦
            successor_quorums-Meet core.config.cluster change.next vs ws step.follows p
              (ground (arith, installed, q))
      ]

  -- A membership change that takes effect and drops the proposer of its own anchor leaves a
  -- recorder whose own snapshot `restore` refuses.
  pub install_membership_removes_proposer :
      (core : RecorderCore V) (change : MembershipChange V)
      → IsInstalled core change
      → (install_membership core change).1 ≡ ok tt
      → has_member change.next change.anchor.proposer ≡ false
      → let after = (install_membership core change).0 in
        is_err (restore after.config after.availability (snapshot after)) ≡ true
  unfolding contains_replica
  install_membership_removes_proposer core change i h gone =
      let (installed, how) = install_membership-installs core change h in
      restore-snapshot_removed (install_membership core change).0 change.anchor.slot change.anchor
        (ground (arith, installed, i.anchored)) (ground (arith, installed, gone))
