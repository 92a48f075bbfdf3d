-- ===== src/Durable.antt =====
-- src/recorder.rs: the store interface and `DurableRecorderCore`, which saves every mutation
-- before it is acknowledged and rolls the core back where it cannot.
pub mod Rollback
pub mod Restart
use rust_quepaxa.Prelude.{◌≡◌, refl, Bool, true, false, List, [], ◌∷◌, Option, none, some, Eq}
use rust_quepaxa.Error.{Result, ok, err, ◌>>=◌}
use rust_quepaxa.Types.{Decision, RecordRequest, SlotIndex}
use rust_quepaxa.Types.Keys.{ReplicaId}
use rust_quepaxa.Messages.{RecordReply, MembershipChange}
use rust_quepaxa.Recorder.{
  RecorderCore, RecorderSnapshot, snapshot, restore, restore_snapshot_state, record_request,
  record_from, inform_decision, inform_decisions, prune_through, install_state_transfer_floor,
  install_membership,
}
use rust_quepaxa.Recorder
use rust_quepaxa.Recorder.Validation.{RecorderConfig}

-- The trait `RecorderStateStore`. `save` and `load` may change the store and may fail.
pub record RecorderStateStore (V S : Type 0) : Type 0 where
  pub load : S → S × Result (Option (RecorderSnapshot V))
  pub save : S → RecorderSnapshot V → S × Result (Unit {0})

-- `InMemoryRecorderStore`
pub record InMemoryRecorderStore (V : Type 0) : Type 0 where
  pub saved : Option (RecorderSnapshot V)

instance abbrev pub in_memory : {V : Type 0} → RecorderStateStore V (InMemoryRecorderStore V)
in_memory = record {
  load = λ s. (s, ok s.saved);
  save = λ s snapshot. (record { saved = some snapshot }, ok tt);
}

pub record DurableRecorderCore (V S : Type 0) : Type 0 where
  pub core : RecorderCore V
  pub store : S

module _ {V S : Type 0} ⦃e : Eq V⦄ ⦃st : RecorderStateStore V S⦄ where
  -- `DurableRecorderCore::new`
  unfoldable pub new :
      RecorderConfig → (List V → Result (Unit {0})) → S → Result (DurableRecorderCore V S)
  new config availability store =
      let (store', loaded) = st.load store in
      elim loaded [
        | err e ↦ err e
        | ok none ↦ ok (record { core = Recorder.new config availability; store = store' })
        | ok (some saved) ↦ do
          core ← restore config availability saved
          ok (record { core = core; store = store' })
      ]

  unfoldable pub mutate :
      {T : Type 0}
      → DurableRecorderCore V S
      → (RecorderCore V → RecorderCore V × Result T)
      → DurableRecorderCore V S × Result T
  mutate self mutation =
      let before = snapshot self.core in
      let (changed, result) = mutation self.core in
      elim result [
        | err error ↦ (record self { core = restore_snapshot_state changed before }, err error)
        | ok output ↦
            let (store', saved) = st.save self.store (snapshot changed) in
            elim saved [
              | err error ↦ (
                record { core = restore_snapshot_state changed before; store = store' },
                err error,
              )
              | ok _ ↦ (record { core = changed; store = store' }, ok output)
            ]
      ]

  unfoldable pub durable_record :
      DurableRecorderCore V S → RecordRequest V → DurableRecorderCore V S × Result (RecordReply V)
  durable_record self request = mutate self (λ core. record_request core request)

  unfoldable pub durable_record_from :
      DurableRecorderCore V S
      → ReplicaId
      → RecordRequest V
      → DurableRecorderCore V S × Result (RecordReply V)
  durable_record_from self sender request = mutate self (λ core. record_from core sender request)

  unfoldable pub durable_inform_decision :
      DurableRecorderCore V S → Decision V → DurableRecorderCore V S × Result (Unit {0})
  durable_inform_decision self decision = mutate self (λ core. inform_decision core decision)

  unfoldable pub durable_inform_decisions :
      DurableRecorderCore V S → List (Decision V) → DurableRecorderCore V S × Result (Unit {0})
  durable_inform_decisions self decisions = mutate self (λ core. inform_decisions core decisions)

  unfoldable pub durable_prune_through :
      DurableRecorderCore V S → SlotIndex → DurableRecorderCore V S × Result (Unit {0})
  durable_prune_through self slot = mutate self (λ core. (prune_through core slot, ok tt))

  unfoldable pub durable_install_state_transfer_floor :
      DurableRecorderCore V S → SlotIndex → DurableRecorderCore V S × Result (Unit {0})
  durable_install_state_transfer_floor self slot =
      mutate self (λ core. (install_state_transfer_floor core slot, ok tt))

  unfoldable pub durable_install_membership :
      DurableRecorderCore V S → MembershipChange V → DurableRecorderCore V S × Result (Unit {0})
  durable_install_membership self change = mutate self (λ core. install_membership core change)
