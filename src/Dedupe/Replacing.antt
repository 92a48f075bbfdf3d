-- ===== src/Dedupe/Replacing.antt =====
-- src/network/dedupe.rs: what a snapshot file holds after a save.
use rust_quepaxa.Prelude.{
  ◌≡◌, refl, ◌∙◌, ap, Bool, true, false, [], ◌++◌, inl, inr, ◌⊎◌, Bool-cases,
}
use rust_quepaxa.Error.{QuePaxaError, Result, ok, err}
use rust_quepaxa.Dedupe.Storage.{
  Bytes, found, Files, SnapshotTarget, replace_file, finish_replacing, attempt, passing,
}

-- Only a rename changes what a reader of the file gets, and it does so at once: the temporary file
-- takes its place. `staged` is what has been written to the temporary file since it was opened.
pub record IsAtomic {F : Type 0} (files : Files F) (staged : F → Bytes) : Type 0 where
  pub open_keeps : (fs : F) → files.read (files.open_temporary fs).0 ≡ files.read fs
  pub open_truncates :
      (fs : F) → (files.open_temporary fs).1 ≡ true → staged (files.open_temporary fs).0 ≡ []
  pub write_keeps : (fs : F) (b : Bytes) → files.read (files.write_temporary fs b).0 ≡ files.read fs
  pub write_appends :
      (fs : F) (b : Bytes)
      → (files.write_temporary fs b).1 ≡ true
      → staged (files.write_temporary fs b).0 ≡ staged fs ++ b
  pub sync_keeps : (fs : F) → files.read (files.sync_temporary fs).0 ≡ files.read fs
  pub sync_stages : (fs : F) → staged (files.sync_temporary fs).0 ≡ staged fs
  pub rename_fails :
      (fs : F) → (files.rename fs).1 ≡ false → files.read (files.rename fs).0 ≡ files.read fs
  pub rename_replaces :
      (fs : F) → (files.rename fs).1 ≡ true → files.read (files.rename fs).0 ≡ found (staged fs)
  pub directory_keeps : (fs : F) → files.read (files.sync_directory fs).0 ≡ files.read fs

module _ {F : Type 0} (files : Files F) where
  -- The file reads as before or as the new bytes, and as the new bytes where the save succeeded.
  abbrev pub Replaced : F → Bytes → F × Result (Unit {0}) → Type 0
  Replaced fs bytes s =
      ((files.read s.0 ≡ files.read fs) ⊎ (files.read s.0 ≡ found bytes))
      × (s.1 ≡ ok tt → files.read s.0 ≡ found bytes)

  -- An operation that a reader does not notice.
  attempt-Replaced :
      (fs : F) (bytes : Bytes) (s : F × Bool) (error : QuePaxaError)
      (next : F → F × Result (Unit {0}))
      → files.read s.0 ≡ files.read fs
      → (s.1 ≡ true → Replaced fs bytes (next s.0))
      → Replaced fs bytes (attempt s error next)
  attempt-Replaced fs bytes (after, true) error next k c = c refl
  attempt-Replaced fs bytes (after, false) error next k c = (inl k, cc)

  passing-Replaced :
      (fs after : F) (bytes : Bytes) (r : Result (Unit {0})) (next : F → F × Result (Unit {0}))
      → files.read after ≡ files.read fs
      → Replaced fs bytes (next after)
      → Replaced fs bytes (passing r after next)
  passing-Replaced fs after bytes (ok _) next k c = c
  passing-Replaced fs after bytes (err error) next k c = (inl k, cc)

  -- An operation after which the file reads as the new bytes.
  attempt_found :
      (bytes : Bytes) (s : F × Bool) (error : QuePaxaError) (next : F → F × Result (Unit {0}))
      → files.read s.0 ≡ found bytes
      → files.read (next s.0).0 ≡ found bytes
      → files.read (attempt s error next).0 ≡ found bytes
  attempt_found bytes (after, true) error next k c = c
  attempt_found bytes (after, false) error next k c = k

  passing_found :
      (bytes : Bytes) (after : F) (r : Result (Unit {0})) (next : F → F × Result (Unit {0}))
      → files.read after ≡ found bytes
      → files.read (next after).0 ≡ found bytes
      → files.read (passing r after next).0 ≡ found bytes
  passing_found bytes after (ok _) next k c = c
  passing_found bytes after (err error) next k c = k

  module _ (staged : F → Bytes) (laws : IsAtomic files staged) where
    finish_replacing-Replaced :
        (target : SnapshotTarget) (fs synced : F) (bytes : Bytes)
        → files.read synced ≡ files.read fs
        → staged synced ≡ bytes
        → Replaced fs bytes (finish_replacing files target synced)
    unfolding finish_replacing
    finish_replacing-Replaced target fs synced bytes k b = elim (Bool-cases renamed.1) [
      | inl y ↦
          let new : files.read renamed.0 ≡ found bytes =
            laws.rename_replaces synced y ∙ ap found b in
          let last = attempt_found bytes renamed _ _ new (
            passing_found bytes renamed.0 (target.reached target.points.3) _ new (
              attempt_found bytes (files.sync_directory renamed.0) _ _
                (laws.directory_keeps renamed.0 ∙ new) (laws.directory_keeps renamed.0 ∙ new))) in
          (inr last, λ z. last)
      | inr n ↦
          attempt-Replaced fs bytes renamed _ _ (laws.rename_fails synced n ∙ k)
            (λ y. absurd cc (n, y))
    ]
      where
        renamed : F × Bool
        renamed = files.rename synced

    pub replace_file-Replaced :
        (target : SnapshotTarget) (fs : F) (bytes : Bytes)
        → Replaced fs bytes (replace_file files target fs bytes)
    unfolding replace_file
    replace_file-Replaced target fs bytes = attempt-Replaced fs bytes opened _ _ kept_open (λ o.
        passing-Replaced fs opened.0 bytes (target.reached target.points.0) _ kept_open (
          attempt-Replaced fs bytes written _ _ kept_written (λ w.
            passing-Replaced fs written.0 bytes (target.reached target.points.1) _ kept_written (
              attempt-Replaced fs bytes synced _ _ kept_synced (λ y.
                passing-Replaced fs synced.0 bytes (target.reached target.points.2) _ kept_synced (
                  finish_replacing-Replaced target fs synced.0 bytes kept_synced
                    (all_staged o w)))))))
      where
        opened : F × Bool
        opened = files.open_temporary fs

        written : F × Bool
        written = files.write_temporary opened.0 bytes

        synced : F × Bool
        synced = files.sync_temporary written.0

        kept_open : files.read opened.0 ≡ files.read fs
        kept_open = laws.open_keeps fs

        kept_written : files.read written.0 ≡ files.read fs
        kept_written = laws.write_keeps opened.0 bytes ∙ kept_open

        kept_synced : files.read synced.0 ≡ files.read fs
        kept_synced = laws.sync_keeps written.0 ∙ kept_written

        all_staged : opened.1 ≡ true → written.1 ≡ true → staged synced.0 ≡ bytes
        all_staged o w =
            laws.sync_stages written.0
            ∙ (laws.write_appends opened.0 bytes w
                ∙ ap (λ b. b ++ bytes) (laws.open_truncates fs o))
