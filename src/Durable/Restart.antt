-- ===== src/Durable/Restart.antt =====
-- src/recorder.rs: a `DurableRecorderCore` after a restart, and after a failed save of a
-- membership change.
use rust_quepaxa.Prelude.{◌≡◌, sym, arith, Eq, subst}
use rust_quepaxa.Error.{ok, err, QuePaxaError}
use rust_quepaxa.Types.{RecordRequest}
use rust_quepaxa.Messages.{RecordReply, MembershipChange}
use rust_quepaxa.Recorder.{snapshot, record_request, install_membership, restore_snapshot_state}
use rust_quepaxa.Recorder.Invariant.{IsConsistent, record_request-IsConsistent}
use rust_quepaxa.Recorder.Attribution.{record_request-IsAttributed}
use rust_quepaxa.Recorder.Restore.{IsAttributed, restore-snapshot}
use rust_quepaxa.Recorder.Membership.{install_membership-installs}
use rust_quepaxa.Durable.{
  RecorderStateStore, DurableRecorderCore, new, mutate, durable_record, durable_install_membership,
}
use rust_quepaxa.Durable.Rollback.{LoadsSaved}

module _ {V S : Type 0} ⦃e : Eq V⦄ ⦃st : RecorderStateStore V S⦄ where
  durable_record_saved :
      (self after : DurableRecorderCore V S) (request : RecordRequest V) (reply : RecordReply V)
      → durable_record self request ≡ (after, ok reply)
      → (after.core ≡ (record_request self.core request).0)
        × (st.save self.store (snapshot after.core) ≡ (after.store, ok tt))
  unfolding durable_record mutate
  durable_record_saved self after request reply h = ground (arith, h)

  -- Over a store that loads what it saved, a durable recorder that has answered a request and
  -- restarts from its store is the same recorder, provided its core was consistent and every
  -- recorded replica was a member.
  pub durable_record_restart :
      (self after : DurableRecorderCore V S) (request : RecordRequest V) (reply : RecordReply V)
      → LoadsSaved st
      → IsConsistent self.core
      → IsAttributed self.core
      → durable_record self request ≡ (after, ok reply)
      → new after.core.config after.core.availability after.store ≡ ok after
  unfolding new
  durable_record_restart self after request reply law c a h =
      let (same, saved) = durable_record_saved self after request reply h in
      let consistent : IsConsistent after.core =
        subst IsConsistent (sym same) (record_request-IsConsistent self.core request c) in
      let attributed : IsAttributed after.core =
        subst IsAttributed (sym same) (record_request-IsAttributed self.core request a) in
      ground (
        arith,
        law self.store after.store (snapshot after.core) saved,
        restore-snapshot after.core consistent attributed,
      )

  -- Where the save of a membership change fails, the error is reported and the new membership
  -- nevertheless stays in force in memory.
  pub install_membership_unsaved :
      (self : DurableRecorderCore V S) (change : MembershipChange V) (error : QuePaxaError)
      → (install_membership self.core change).1 ≡ ok tt
      → (st.save self.store (snapshot (install_membership self.core change).0)).1 ≡ err error
      → ((durable_install_membership self change).1 ≡ err error)
        × ((durable_install_membership self change).0.core.config.cluster ≡ change.next)
  unfolding durable_install_membership mutate restore_snapshot_state
  install_membership_unsaved self change error h k =
      ground (arith, install_membership-installs self.core change h)
