-- ===== src/Durable/Rollback.antt =====
-- src/recorder.rs: atomicity and durability of `DurableRecorderCore`.
use rust_quepaxa.Prelude.{◌≡◌, refl, sym, inl, inr, List, [], ◌∷◌, some, arith, Eq, subst}
use rust_quepaxa.Error.{Result, ok, err, QuePaxaError, Result-cases}
use rust_quepaxa.Types.{Decision, RecordRequest, SlotIndex}
use rust_quepaxa.Types.Keys.{ReplicaId}
use rust_quepaxa.Recorder.{
  RecorderCore, RecorderSnapshot, snapshot, restore_snapshot_state, record_request, record_from,
  inform_decision, inform_decisions, prune_through, install_state_transfer_floor,
}
use rust_quepaxa.Recorder.Cases.{inform_decision-cases, accept-cases}
use rust_quepaxa.Recorder.Restore.{restore_snapshot_state-rollback}
use rust_quepaxa.Durable.{
  RecorderStateStore, DurableRecorderCore, mutate, durable_record, durable_record_from,
  durable_inform_decision, durable_inform_decisions, durable_prune_through,
  durable_install_state_transfer_floor,
}

module _ {V : Type 0} where
  -- A mutation that leaves the configuration and the availability guard alone.
  abbrev pub KeepsConfig : {T : Type 0} → (RecorderCore V → RecorderCore V × Result T) → Type 0
  KeepsConfig mutation =
      (core : RecorderCore V)
      → ((mutation core).0.config ≡ core.config)
        × ((mutation core).0.availability ≡ core.availability)

-- An interface law: what was saved is what the next `load` returns.
abbrev pub LoadsSaved : {V S : Type 0} → RecorderStateStore V S → Type 0
LoadsSaved {V} {S} st =
    (s s' : S) (saved : RecorderSnapshot V)
    → st.save s saved ≡ (s', ok tt)
    → st.load s' ≡ (s', ok (some saved))

module _ {V : Type 0} ⦃e : Eq V⦄ where
  inform_decision-KeepsConfig :
      (d : Decision V) → KeepsConfig (λ (core : RecorderCore V). inform_decision core d)
  inform_decision-KeepsConfig d core = ground (arith, inform_decision-cases core d)

  inform_decisions-KeepsConfig :
      (ds : List (Decision V)) → KeepsConfig (λ (core : RecorderCore V). inform_decisions core ds)
  unfolding inform_decisions
  inform_decisions-KeepsConfig [] core = (refl, refl)
  inform_decisions-KeepsConfig (d ∷ ds) core = ground (
    arith,
    inform_decision-KeepsConfig d core,
    inform_decisions-KeepsConfig ds (inform_decision core d).0,
  )

  record_request-KeepsConfig :
      (request : RecordRequest V)
      → KeepsConfig (λ (core : RecorderCore V). record_request core request)
  unfolding record_request
  record_request-KeepsConfig request core = ground (
    arith,
    inform_decisions-KeepsConfig request.known_decisions core,
    accept-cases (inform_decisions core request.known_decisions).0 request,
  )

  record_from-KeepsConfig :
      (sender : ReplicaId) (request : RecordRequest V)
      → KeepsConfig (λ (core : RecorderCore V). record_from core sender request)
  unfolding record_from
  record_from-KeepsConfig sender request core =
      ground (arith, record_request-KeepsConfig request core)

  prune_through-KeepsConfig :
      (slot : SlotIndex) → KeepsConfig (λ (core : RecorderCore V). (prune_through core slot, ok tt))
  unfolding prune_through
  prune_through-KeepsConfig slot core = (refl, refl)

module _ {V S : Type 0} ⦃e : Eq V⦄ ⦃st : RecorderStateStore V S⦄ where
  -- What `mutate` promises: an error leaves the core as it was, and success has saved the snapshot
  -- of the core that is left.
  abbrev pub Atomic :
      {T : Type 0} → DurableRecorderCore V S → DurableRecorderCore V S × Result T → Type 0
  Atomic self (after, err error) = after.core ≡ self.core
  Atomic self (after, ok output) = st.save self.store (snapshot after.core) ≡ (after.store, ok tt)

  rolled_back :
      {T : Type 0} (self : DurableRecorderCore V S)
      (mutation : RecorderCore V → RecorderCore V × Result T)
      → KeepsConfig mutation
      → restore_snapshot_state (mutation self.core).0 (snapshot self.core) ≡ self.core
  rolled_back self mutation keeps =
      ground
        (arith, restore_snapshot_state-rollback (mutation self.core).0 self.core, keeps self.core)

  mutate-Atomic :
      {T : Type 0} (self : DurableRecorderCore V S)
      (mutation : RecorderCore V → RecorderCore V × Result T)
      → KeepsConfig mutation
      → Atomic self (mutate self mutation)
  unfolding mutate
  mutate-Atomic {T} self mutation keeps = elim (Result-cases (mutation self.core).1) [
    | inr (error, h) ↦
        subst (Atomic {T = T} self) (sym (failed error h)) (rolled_back self mutation keeps)
    | inl (output, h) ↦
        elim (Result-cases (st.save self.store (snapshot (mutation self.core).0)).1) [
          | inr (error, k) ↦
              subst (Atomic {T = T} self) (sym (unsaved output h error k))
                (rolled_back self mutation keeps)
          | inl (done, k) ↦
              subst (Atomic {T = T} self) (sym (saved output h done k)) (ground (arith, k))
        ]
  ]
    where
      failed :
          (error : QuePaxaError)
          → (mutation self.core).1 ≡ err error
          → mutate self mutation ≡ (
            record self {
              core = restore_snapshot_state (mutation self.core).0 (snapshot self.core);
            },
            err error,
          )
      failed error h = ground arith

      unsaved :
          (output : T)
          → (mutation self.core).1 ≡ ok output
          → (error : QuePaxaError)
          → (st.save self.store (snapshot (mutation self.core).0)).1 ≡ err error
          → mutate self mutation ≡ (
            record {
              core = restore_snapshot_state (mutation self.core).0 (snapshot self.core);
              store = (st.save self.store (snapshot (mutation self.core).0)).0;
            },
            err error,
          )
      unsaved output h error k = ground arith

      saved :
          (output : T)
          → (mutation self.core).1 ≡ ok output
          → (done : Unit {0}) → (st.save self.store (snapshot (mutation self.core).0)).1 ≡ ok done
          → mutate self mutation ≡ (
            record {
              core = (mutation self.core).0;
              store = (st.save self.store (snapshot (mutation self.core).0)).0;
            },
            ok output,
          )
      saved output h done k = ground arith

  -- Every durable operation but a change of membership leaves the core exactly as it was where
  -- it returns an error, of the core or of the store, and has saved the snapshot of the core
  -- that is left where it succeeds.
  pub durable_operations-Atomic :
      (self : DurableRecorderCore V S) (sender : ReplicaId) (request : RecordRequest V)
      (d : Decision V) (ds : List (Decision V)) (slot : SlotIndex)
      → Atomic self (durable_record self request)
        × Atomic self (durable_record_from self sender request)
        × Atomic self (durable_inform_decision self d)
        × Atomic self (durable_inform_decisions self ds)
        × Atomic self (durable_prune_through self slot)
        × Atomic self (durable_install_state_transfer_floor self slot)
  unfolding durable_record durable_record_from durable_inform_decision durable_inform_decisions
      durable_prune_through durable_install_state_transfer_floor install_state_transfer_floor
  durable_operations-Atomic self sender request d ds slot = (
    mutate-Atomic self _ (record_request-KeepsConfig request),
    mutate-Atomic self _ (record_from-KeepsConfig sender request),
    mutate-Atomic self _ (inform_decision-KeepsConfig d),
    mutate-Atomic self _ (inform_decisions-KeepsConfig ds),
    mutate-Atomic self _ (prune_through-KeepsConfig slot),
    mutate-Atomic self _ (prune_through-KeepsConfig slot),
  )
