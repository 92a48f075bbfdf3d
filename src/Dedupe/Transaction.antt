-- ===== src/Dedupe/Transaction.antt =====
-- src/network/dedupe.rs: one execution of `FileExactlyOnceExecutor` is a transaction.
use rust_quepaxa.Prelude.{
  ℕ, ◌≡◌, refl, sym, subst, Bool, true, false, some, Eq, contains, inl, inr, ◌⊎◌, Bool-cases,
}
use rust_quepaxa.Error.{QuePaxaError, Result, ok, err, exactly_once_state}
use rust_quepaxa.Types.{SlotIndex}
use rust_quepaxa.Dedupe.Storage.{Bytes, Files, Postcard, Encoding, load_snapshot}
use rust_quepaxa.Dedupe.Replacing.{IsAtomic}
use rust_quepaxa.Dedupe.Saving.{IsFaithful, Saved, save_snapshot-Saved}
use rust_quepaxa.Dedupe.Executor.{
  ExactlyOnceSnapshot, FileExactlyOnceExecutor, opened, target_of, save, save_and_install,
  install_saved, with_value, report_execution, save_applied, execute_on_file,
}

module _ {V A F : Type 0} ⦃e : Eq V⦄ (fs : Files F) (codec : Postcard (ExactlyOnceSnapshot V A))
    (encoding : Encoding) (apply : A → SlotIndex → V → A × Result (Unit {0})) where
  -- The snapshot with which a restart begins.
  abbrev pub restarted : A → FileExactlyOnceExecutor V A F → Result (ExactlyOnceSnapshot V A)
  restarted initial u = opened fs codec encoding apply u.files u.max_snapshot_bytes initial

  -- What saving and installing a snapshot leaves: the snapshot in memory and on the file, or an
  -- error with the old snapshot in memory and either one on the file.
  abbrev pub Installed :
      A
      → FileExactlyOnceExecutor V A F
      → ExactlyOnceSnapshot V A
      → FileExactlyOnceExecutor V A F × Result (Unit {0})
      → Type 0
  Installed initial u next s =
      ((s.1 ≡ ok tt) × (s.0.snapshot ≡ next) × (restarted initial s.0 ≡ ok next))
      ⊎ ((error : QuePaxaError) × ((s.1 ≡ err error)
            × (s.0.snapshot ≡ u.snapshot)
            × ((restarted initial s.0 ≡ restarted initial u) ⊎ (restarted initial s.0 ≡ ok next))))

  -- An execution of a new value with what the application gives, of an old value, or one that fails.
  abbrev pub TransactsBy :
      A
      → FileExactlyOnceExecutor V A F
      → V
      → A × Result (Unit {0})
      → FileExactlyOnceExecutor V A F × Result Bool
      → Type 0
  TransactsBy initial u value_id applied s =
      let next = with_value fs codec encoding apply u.snapshot value_id applied.0 in
      ((s.1 ≡ ok true)
        × (contains u.snapshot.seen value_id ≡ false)
        × (applied.1 ≡ ok tt)
        × (s.0.snapshot ≡ next)
        × (restarted initial s.0 ≡ ok next))
      ⊎ (((s.1 ≡ ok false) × (contains u.snapshot.seen value_id ≡ true) × (s.0 ≡ u))
          ⊎ ((error : QuePaxaError) × ((s.1 ≡ err error)
                × (contains u.snapshot.seen value_id ≡ false)
                × (s.0.snapshot ≡ u.snapshot)
                × ((restarted initial s.0 ≡ restarted initial u)
                    ⊎ ((applied.1 ≡ ok tt) × (restarted initial s.0 ≡ ok next))))))

  module _ (faithful : IsFaithful codec) (wrapped : IsFaithful encoding.envelopes)
      (staged : F → Bytes) (laws : IsAtomic fs staged) (initial : A) where
    loaded :
        (a b : F) (max_bytes : ℕ) (s : ExactlyOnceSnapshot V A)
        → load_snapshot codec encoding fs a max_bytes exactly_once_state ≡ ok (some s)
        → opened fs codec encoding apply a max_bytes initial ≡ ok s
    unfolding opened
    loaded a b max_bytes s l = rw l refl

    reloaded :
        (a b : F) (max_bytes : ℕ)
        → load_snapshot codec encoding fs a max_bytes exactly_once_state
          ≡ load_snapshot codec encoding fs b max_bytes exactly_once_state
        → opened fs codec encoding apply a max_bytes initial
          ≡ opened fs codec encoding apply b max_bytes initial
    unfolding opened
    reloaded a b max_bytes l = rw l refl

    install_saved-Installed :
        (u : FileExactlyOnceExecutor V A F) (next : ExactlyOnceSnapshot V A)
        (s : F × Result (Unit {0}))
        → Saved codec encoding faithful wrapped fs staged laws u.files u.max_snapshot_bytes
            exactly_once_state next s
        → Installed initial u next (install_saved fs codec encoding apply u next s)
    install_saved-Installed u next (files, err error) (inl k, c) =
        inr (error, (refl, refl, inl (reloaded files u.files u.max_snapshot_bytes k)))
    install_saved-Installed u next (files, err error) (inr k, c) =
        inr (error, (refl, refl, inr (loaded files files u.max_snapshot_bytes next k)))
    install_saved-Installed u next (files, ok _) (k, c) =
        inl (refl, refl, loaded files files u.max_snapshot_bytes next (c refl))

    pub save_and_install-Installed :
        (u : FileExactlyOnceExecutor V A F) (next : ExactlyOnceSnapshot V A)
        → Installed initial u next (save_and_install fs codec encoding apply u next)
    unfolding save_and_install save
    save_and_install-Installed u next =
        install_saved-Installed u next (save fs codec encoding apply u next) (
          save_snapshot-Saved codec encoding faithful wrapped fs staged laws
            (target_of fs codec encoding apply u) u.files next)

    report-TransactsBy :
        (u : FileExactlyOnceExecutor V A F) (value_id : V) (application : A)
        (s : FileExactlyOnceExecutor V A F × Result (Unit {0}))
        → contains u.snapshot.seen value_id ≡ false
        → Installed initial u (with_value fs codec encoding apply u.snapshot value_id application) s
        → TransactsBy initial u value_id
            (application, ok tt)
            (report_execution fs codec encoding apply s)
    report-TransactsBy u value_id application (w, ok _) n (inl (h, m, l)) =
        inl (refl, n, refl, m, l)
    report-TransactsBy u value_id application (w, ok _) n (inr (error, (h, m, l))) = absurd cc h
    report-TransactsBy u value_id application (w, err error) n (inl (h, m, l)) = absurd cc h
    report-TransactsBy u value_id application (w, err error) n (inr (x, (h, m, inl l))) =
        inr (inr (error, (refl, n, m, inl l)))
    report-TransactsBy u value_id application (w, err error) n (inr (x, (h, m, inr l))) =
        inr (inr (error, (refl, n, m, inr (refl, l))))

    save_applied-TransactsBy :
        (u : FileExactlyOnceExecutor V A F) (value_id : V) (applied : A × Result (Unit {0}))
        → contains u.snapshot.seen value_id ≡ false
        → TransactsBy initial u value_id applied
            (save_applied fs codec encoding apply u value_id applied)
    save_applied-TransactsBy u value_id (application, err error) n =
        inr (inr (error, (refl, n, refl, inl refl)))
    save_applied-TransactsBy u value_id (application, ok _) n =
        report-TransactsBy u value_id application _ n (
          save_and_install-Installed u
            (with_value fs codec encoding apply u.snapshot value_id application))

    seen_before :
        (u : FileExactlyOnceExecutor V A F) (slot : SlotIndex) (value_id : V)
        → contains u.snapshot.seen value_id ≡ true
        → execute_on_file fs codec encoding apply u slot value_id ≡ (u, ok false)
    unfolding execute_on_file
    seen_before u slot value_id y = rw y refl

    unseen_before :
        (u : FileExactlyOnceExecutor V A F) (slot : SlotIndex) (value_id : V)
        → contains u.snapshot.seen value_id ≡ false
        → execute_on_file fs codec encoding apply u slot value_id
          ≡ save_applied fs codec encoding apply u value_id
              (apply u.snapshot.application slot value_id)
    unfolding execute_on_file
    unseen_before u slot value_id n = rw n refl

    -- An execution of a value is a transaction, whichever step of the save fails, over files
    -- that only a rename changes and codecs that read back what they write. Where it reports
    -- `true`, the value is new, the application has accepted it, and its new state is in memory
    -- and on the file together with the value. Where it reports `false`, the value was executed
    -- before and nothing changes. Where it fails, the value is new, the memory stays, and a
    -- restart begins as before, or with the application's new state together with the value.
    pub execute_on_file-Transacts :
        (u : FileExactlyOnceExecutor V A F) (slot : SlotIndex) (value_id : V)
        → TransactsBy initial u value_id
            (apply u.snapshot.application slot value_id)
            (execute_on_file fs codec encoding apply u slot value_id)
    execute_on_file-Transacts u slot value_id =
        let goal = TransactsBy initial u value_id (apply u.snapshot.application slot value_id) in
        elim (Bool-cases (contains u.snapshot.seen value_id)) [
          | inl y ↦ subst goal (sym (seen_before u slot value_id y)) (inr (inl (refl, y, refl)))
          | inr n ↦
              subst goal (sym (unseen_before u slot value_id n))
                (save_applied-TransactsBy u value_id (apply u.snapshot.application slot value_id) n)
        ]
