-- ===== src/Dedupe.antt =====
-- src/network/dedupe.rs: commands are executed once, and requests are answered once. Here the
-- interface of the executors, the state machine over it, and the executor in memory.
--
-- A `BTreeSet` of values is the list of its elements, the latest first, each once.
pub mod Storage
pub mod Replacing
pub mod Saving
pub mod Executor
pub mod Transaction
pub mod Once
pub mod Journal
pub mod Retry
use rust_quepaxa.Prelude.{ℕ, Bool, true, false, List, [], ◌∷◌, Eq, contains, if◌then◌else◌}
use rust_quepaxa.Error.{
  Result, ok, err, storage_error, export_not_implemented, import_not_implemented,
}
use rust_quepaxa.Types.{Decision, SlotIndex}
use rust_quepaxa.Dedupe.Storage.{Bytes}

-- The trait `ExactlyOnceExecutor`; an operation gives the executor that it leaves.
pub record ExactlyOnceExecutor (V E : Type 0) : Type 0 where
  pub execute_once : E → SlotIndex → V → E × Result Bool
  pub export_checkpoint : E → SlotIndex → E × Result Bytes
  pub import_checkpoint : E → SlotIndex → Bytes → E × Result (Unit {0})

-- The default of `export_checkpoint`
unfoldable pub no_export : {E : Type 0} → E → SlotIndex → E × Result Bytes
no_export executor through = (executor, err (storage_error export_not_implemented))

-- The default of `import_checkpoint`
unfoldable pub no_import : {E : Type 0} → E → SlotIndex → Bytes → E × Result (Unit {0})
no_import executor through checkpoint = (executor, err (storage_error import_not_implemented))

pub record DeduplicatingStateMachine (E : Type 0) : Type 0 where
  pub executor : E

module _ {V E : Type 0} ⦃x : ExactlyOnceExecutor V E⦄ where
  -- The loop of `execute`
  unfoldable pub execute_values : E → SlotIndex → List V → E × Result (Unit {0})
  execute_values executor slot [] = (executor, ok tt)
  execute_values executor slot (value_id ∷ value_ids) =
      let (next, result) = x.execute_once executor slot value_id in
      elim result [ err error ↦ (next, err error) | ok _ ↦ execute_values next slot value_ids ]

  unfoldable pub execute :
      DeduplicatingStateMachine E → Decision V → DeduplicatingStateMachine E × Result (Unit {0})
  execute self decision =
      let (executor, result) = execute_values self.executor decision.slot decision.value_ids in
      (record { executor = executor }, result)

-- `InMemoryExactlyOnceExecutor`; `application` is what its closure captures.
pub record InMemoryExactlyOnceExecutor (V A : Type 0) : Type 0 where
  pub seen : List V
  pub application : A

module _ {V A : Type 0} ⦃e : Eq V⦄ (apply : A → SlotIndex → V → A × Result (Unit {0})) where
  unfoldable pub execute_in_memory :
      InMemoryExactlyOnceExecutor V A
      → SlotIndex
      → V
      → InMemoryExactlyOnceExecutor V A × Result Bool
  execute_in_memory self slot value_id =
      if contains self.seen value_id
      then (self, ok false)
      else let (application, applied) = apply self.application slot value_id in
        elim applied [
          | err error ↦ (record self { application = application }, err error)
          | ok _ ↦ (record { seen = value_id ∷ self.seen; application = application }, ok true)
        ]

  abbrev pub in_memory_executor : ExactlyOnceExecutor V (InMemoryExactlyOnceExecutor V A)
  in_memory_executor = record {
    execute_once = execute_in_memory;
    export_checkpoint = no_export;
    import_checkpoint = no_import;
  }
