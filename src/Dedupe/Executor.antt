-- ===== src/Dedupe/Executor.antt =====
-- src/network/dedupe.rs: `FileExactlyOnceExecutor`, which saves the set of executed values together
-- with the application's state.
--
-- The callback only changes the state that it is given.
use rust_quepaxa.Prelude.{
  ℕ, Bool, true, false, List, [], ◌∷◌, Option, none, some, Eq, contains, if◌then◌else◌, ◌!=◌,
  nat_eq,
}
use rust_quepaxa.Error.{
  Result, ok, err, ◌>>=◌, exactly_once_state, exactly_once_checkpoint, configuration_mismatch,
}
use rust_quepaxa.Types.{SlotIndex}
use rust_quepaxa.Dedupe.{ExactlyOnceExecutor}
use rust_quepaxa.Dedupe.Storage.{
  Bytes, Files, Postcard, Encoding, CrashPoint, SnapshotTarget, exactly_once_crash_points,
  encode_snapshot, decode_snapshot, load_snapshot, save_snapshot,
}

pub record ExactlyOnceSnapshot (V A : Type 0) : Type 0 where
  pub checkpointed_through : SlotIndex
  pub seen : List V
  pub application : A

-- The files stand for the path, and `reached` for the crash injector.
pub record FileExactlyOnceExecutor (V A F : Type 0) : Type 0 where
  pub files : F
  pub snapshot : ExactlyOnceSnapshot V A
  pub max_snapshot_bytes : ℕ
  pub reached : CrashPoint → Result (Unit {0})

module _ {V A F : Type 0} ⦃e : Eq V⦄ (fs : Files F) (codec : Postcard (ExactlyOnceSnapshot V A))
    (encoding : Encoding) (apply : A → SlotIndex → V → A × Result (Unit {0})) where
  abbrev pub unwrap_or : A → Option (ExactlyOnceSnapshot V A) → ExactlyOnceSnapshot V A
  unwrap_or initial (some snapshot) = snapshot
  unwrap_or initial none = record { checkpointed_through = 0; seen = []; application = initial }

  -- The snapshot with which `FileExactlyOnceExecutor::open` starts.
  unfoldable pub opened : F → ℕ → A → Result (ExactlyOnceSnapshot V A)
  opened files max_snapshot_bytes initial = do
    loaded ← load_snapshot codec encoding fs files max_snapshot_bytes exactly_once_state
    ok (unwrap_or initial loaded)

  unfoldable pub open_executor : F → ℕ → A → Result (FileExactlyOnceExecutor V A F)
  open_executor files max_snapshot_bytes initial_application = do
    snapshot ← opened files max_snapshot_bytes initial_application
    ok (record {
      files = files;
      snapshot = snapshot;
      max_snapshot_bytes = max_snapshot_bytes;
      reached = λ point. ok tt;
    })

  abbrev pub target_of : FileExactlyOnceExecutor V A F → SnapshotTarget
  target_of self = record {
    max_snapshot_bytes = self.max_snapshot_bytes;
    reached = self.reached;
    points = exactly_once_crash_points;
    label = exactly_once_state;
  }

  -- `FileExactlyOnceExecutor::save`
  unfoldable pub save :
      FileExactlyOnceExecutor V A F → ExactlyOnceSnapshot V A → F × Result (Unit {0})
  save self snapshot = save_snapshot fs codec encoding (target_of self) self.files snapshot

  -- `self.save(&next)?; self.snapshot = next;`, over the outcome of the save
  abbrev pub install_saved :
      FileExactlyOnceExecutor V A F
      → ExactlyOnceSnapshot V A
      → F × Result (Unit {0})
      → FileExactlyOnceExecutor V A F × Result (Unit {0})
  install_saved self next (files, err error) = (record self { files = files }, err error)
  install_saved self next (files, ok _) = (record self { files = files; snapshot = next }, ok tt)

  unfoldable pub save_and_install :
      FileExactlyOnceExecutor V A F
      → ExactlyOnceSnapshot V A
      → FileExactlyOnceExecutor V A F × Result (Unit {0})
  save_and_install self next = install_saved self next (save self next)

  -- The snapshot in which a value has been executed.
  abbrev pub with_value : ExactlyOnceSnapshot V A → V → A → ExactlyOnceSnapshot V A
  with_value snapshot value_id application = record snapshot {
    application = application;
    seen = value_id ∷ snapshot.seen;
  }

  -- `true` where the save succeeded
  abbrev pub report_execution :
      FileExactlyOnceExecutor V A F × Result (Unit {0})
      → FileExactlyOnceExecutor V A F × Result Bool
  report_execution (after, err error) = (after, err error)
  report_execution (after, ok _) = (after, ok true)

  -- `execute_once` behind the call of the application
  abbrev pub save_applied :
      FileExactlyOnceExecutor V A F
      → V
      → A × Result (Unit {0})
      → FileExactlyOnceExecutor V A F × Result Bool
  save_applied self value_id (application, err error) = (self, err error)
  save_applied self value_id (application, ok _) =
      report_execution (save_and_install self (with_value self.snapshot value_id application))

  unfoldable pub execute_on_file :
      FileExactlyOnceExecutor V A F → SlotIndex → V → FileExactlyOnceExecutor V A F × Result Bool
  execute_on_file self slot value_id =
      if contains self.snapshot.seen value_id
      then (self, ok false)
      else save_applied self value_id (apply self.snapshot.application slot value_id)

  abbrev pub encode_saved :
      FileExactlyOnceExecutor V A F × Result (Unit {0})
      → FileExactlyOnceExecutor V A F × Result Bytes
  encode_saved (after, err error) = (after, err error)
  encode_saved (after, ok _) = (
    after,
    encode_snapshot codec encoding after.snapshot after.max_snapshot_bytes exactly_once_checkpoint,
  )

  unfoldable pub export_file :
      FileExactlyOnceExecutor V A F → SlotIndex → FileExactlyOnceExecutor V A F × Result Bytes
  export_file self through =
      encode_saved (save_and_install self (record self.snapshot { checkpointed_through = through }))

  unfoldable pub import_file :
      FileExactlyOnceExecutor V A F
      → SlotIndex
      → Bytes
      → FileExactlyOnceExecutor V A F × Result (Unit {0})
  import_file self through checkpoint =
      elim (decode_snapshot codec encoding checkpoint self.max_snapshot_bytes
        exactly_once_checkpoint) [
          | err error ↦ (self, err error)
          | ok snapshot ↦
              if snapshot.checkpointed_through != through
              then (self, err configuration_mismatch)
              else save_and_install self snapshot
        ]

  abbrev pub file_executor : ExactlyOnceExecutor V (FileExactlyOnceExecutor V A F)
  file_executor = record {
    execute_once = execute_on_file;
    export_checkpoint = export_file;
    import_checkpoint = import_file;
  }
