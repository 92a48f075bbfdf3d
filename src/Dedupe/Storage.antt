-- ===== src/Dedupe/Storage.antt =====
-- src/network/dedupe.rs and src/crash.rs: the snapshot files, from their bytes to their replacement.
--
-- The file system, the byte encoding (`postcard`) and the hash are arguments.
use rust_quepaxa.Prelude.{
  ℕ, Bool, true, false, ◌||◌, List, Option, none, some, ◌==◌, ◌!=◌, nat_eq, list_eq, ltb, length,
  is_empty,
}
use rust_quepaxa.Error.{
  QuePaxaError, Result, ok, err, ◌>>=◌, ◌>>◌, reject_if, ok_or, Label, resource_limit,
  durable_deduplication_bytes, storage_error, zero_snapshot_limit, could_not_read, could_not_encode,
  could_not_encode_payload, could_not_decode, could_not_decode_payload, could_not_open,
  could_not_write, could_not_sync, could_not_replace, could_not_sync_directory, checksum_failed,
  size_outside_bound, unsupported_version,
}

abbrev pub Bytes : Type 0
Bytes = List ℕ

-- `CrashPoint`
pub data CrashPoint : Type 0 where
  recorder_temporary_opened recorder_temporary_written recorder_temporary_synced : CrashPoint
  recorder_renamed recorder_directory_synced : CrashPoint
  runtime_temporary_opened runtime_temporary_written runtime_temporary_synced : CrashPoint
  runtime_renamed runtime_directory_synced : CrashPoint
  batch_temporary_opened batch_temporary_written batch_temporary_synced : CrashPoint
  batch_renamed batch_directory_synced : CrashPoint
  submission_journal_temporary_opened submission_journal_temporary_written : CrashPoint
  submission_journal_temporary_synced submission_journal_renamed : CrashPoint
  submission_journal_directory_synced : CrashPoint
  exactly_once_temporary_opened exactly_once_temporary_written : CrashPoint
  exactly_once_temporary_synced exactly_once_renamed exactly_once_directory_synced : CrashPoint

-- What a read of a file gives.
pub data Contents : Type 0 where
  not_found unreadable : Contents
  found : Bytes → Contents

-- The file system as seen from one snapshot file, its temporary file and their directory. An
-- operation gives the files that it leaves and whether it has succeeded.
pub record Files (F : Type 0) : Type 0 where
  pub read : F → Contents
  pub open_temporary : F → F × Bool
  pub write_temporary : F → Bytes → F × Bool
  pub sync_temporary : F → F × Bool
  pub rename : F → F × Bool
  pub sync_directory : F → F × Bool

-- `postcard::to_allocvec` and `postcard::from_bytes` at one type
pub record Postcard (T : Type 0) : Type 0 where
  pub to_allocvec : T → Option Bytes
  pub from_bytes : Bytes → Option T

-- `DedupeStorageEnvelope`
pub record DedupeStorageEnvelope : Type 0 where
  pub version : ℕ
  pub checksum : Bytes
  pub payload : Bytes

abbrev pub dedupe_storage_version : ℕ
dedupe_storage_version = 1

-- What encoding needs from outside: the codec of envelopes and `Sha256::digest`.
pub record Encoding : Type 0 where
  pub envelopes : Postcard DedupeStorageEnvelope
  pub digest : Bytes → Bytes

-- `SnapshotTarget`, with the crash points in their order
pub record SnapshotTarget : Type 0 where
  pub max_snapshot_bytes : ℕ
  pub reached : CrashPoint → Result (Unit {0})
  pub points : CrashPoint × CrashPoint × CrashPoint × CrashPoint × CrashPoint
  pub label : Label

abbrev pub journal_crash_points : CrashPoint × CrashPoint × CrashPoint × CrashPoint × CrashPoint
journal_crash_points = (
  submission_journal_temporary_opened, submission_journal_temporary_written,
  submission_journal_temporary_synced, submission_journal_renamed,
  submission_journal_directory_synced,
)

abbrev pub exactly_once_crash_points :
    CrashPoint × CrashPoint × CrashPoint × CrashPoint × CrashPoint
exactly_once_crash_points = (
  exactly_once_temporary_opened, exactly_once_temporary_written, exactly_once_temporary_synced,
  exactly_once_renamed, exactly_once_directory_synced,
)

unfoldable pub validate_snapshot_limit : ℕ → Result (Unit {0})
validate_snapshot_limit max_snapshot_bytes =
    reject_if (max_snapshot_bytes == 0) (storage_error zero_snapshot_limit)

module _ {T : Type 0} (codec : Postcard T) (encoding : Encoding) where
  unfoldable pub encode_snapshot : T → ℕ → Label → Result Bytes
  encode_snapshot snapshot max_snapshot_bytes label = do
    validate_snapshot_limit max_snapshot_bytes
    payload ← ok_or (codec.to_allocvec snapshot) (storage_error (could_not_encode_payload label))
    bytes ←
        ok_or
          (encoding.envelopes.to_allocvec (record {
            version = dedupe_storage_version;
            checksum = encoding.digest payload;
            payload = payload;
          }))
          (storage_error (could_not_encode label))
    reject_if (ltb max_snapshot_bytes (length bytes))
        (resource_limit durable_deduplication_bytes max_snapshot_bytes)
    ok bytes

  unfoldable pub decode_snapshot : Bytes → ℕ → Label → Result T
  decode_snapshot bytes max_snapshot_bytes label = do
    validate_snapshot_limit max_snapshot_bytes
    reject_if (is_empty bytes || ltb max_snapshot_bytes (length bytes))
        (storage_error (size_outside_bound label (length bytes)))
    envelope ← ok_or (encoding.envelopes.from_bytes bytes) (storage_error (could_not_decode label))
    reject_if (envelope.version != dedupe_storage_version)
        (storage_error (unsupported_version label envelope.version))
    reject_if (encoding.digest envelope.payload != envelope.checksum)
        (storage_error (checksum_failed label))
    ok_or (codec.from_bytes envelope.payload) (storage_error (could_not_decode_payload label))

  module _ {F : Type 0} (files : Files F) where
    unfoldable pub load_snapshot : F → ℕ → Label → Result (Option T)
    load_snapshot fs max_snapshot_bytes label =
        validate_snapshot_limit max_snapshot_bytes >> elim (files.read fs) [
          | found bytes ↦ do
            snapshot ← decode_snapshot bytes max_snapshot_bytes label
            ok (some snapshot)
          | not_found ↦ ok none
          | unreadable ↦ err (storage_error (could_not_read label))
        ]

-- `step.map_err(..)?`, over the files that the step leaves
abbrev pub attempt :
    {F : Type 0} → F × Bool → QuePaxaError → (F → F × Result (Unit {0})) → F × Result (Unit {0})
attempt (fs, true) error next = next fs
attempt (fs, false) error next = (fs, err error)

-- `crash_injector.reached(point)?`
abbrev pub passing :
    {F : Type 0} → Result (Unit {0}) → F → (F → F × Result (Unit {0})) → F × Result (Unit {0})
passing (ok _) fs next = next fs
passing (err error) fs next = (fs, err error)

module _ {F : Type 0} (files : Files F) where
  -- `save_snapshot` from the rename on
  unfoldable pub finish_replacing : SnapshotTarget → F → F × Result (Unit {0})
  finish_replacing target synced =
      attempt (files.rename synced) (storage_error (could_not_replace target.label)) (λ renamed.
        passing (target.reached target.points.3) renamed (λ renamed.
          attempt (files.sync_directory renamed)
            (storage_error (could_not_sync_directory target.label))
            (λ done. (done, target.reached target.points.4))))

  -- `save_snapshot` behind the encoding
  unfoldable pub replace_file : SnapshotTarget → F → Bytes → F × Result (Unit {0})
  replace_file target fs bytes =
      attempt (files.open_temporary fs) (storage_error (could_not_open target.label)) (λ opened.
        passing (target.reached target.points.0) opened (λ opened.
          attempt (files.write_temporary opened bytes)
            (storage_error (could_not_write target.label))
            (λ written. passing (target.reached target.points.1) written (λ written.
              attempt (files.sync_temporary written) (storage_error (could_not_sync target.label))
                (λ synced.
                  passing (target.reached target.points.2) synced (finish_replacing target))))))

  abbrev pub save_encoded : SnapshotTarget → F → Result Bytes → F × Result (Unit {0})
  save_encoded target fs (err error) = (fs, err error)
  save_encoded target fs (ok bytes) = replace_file target fs bytes

  module _ {T : Type 0} (codec : Postcard T) (encoding : Encoding) where
    unfoldable pub save_snapshot : SnapshotTarget → F → T → F × Result (Unit {0})
    save_snapshot target fs snapshot =
        save_encoded target fs
          (encode_snapshot codec encoding snapshot target.max_snapshot_bytes target.label)
