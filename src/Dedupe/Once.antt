-- ===== src/Dedupe/Once.antt =====
-- src/network/dedupe.rs: over executions, failures and restarts, every value is applied once.
use rust_quepaxa.Prelude.{
  ℕ, ◌≡◌, refl, sym, ◌∙◌, ap, subst, Bool, false, List, [], ◌∷◌, none, arith, Eq, contains, ◌==◌,
  nat_eq, Bool-cases, inl, inr,
}
use rust_quepaxa.Error.{Result, ok, err, Result-cases}
use rust_quepaxa.Types.{SlotIndex}
use rust_quepaxa.Dedupe.Storage.{
  Bytes, Files, Postcard, Encoding, CrashPoint, load_snapshot, validate_snapshot_limit, not_found,
}
use rust_quepaxa.Dedupe.Replacing.{IsAtomic}
use rust_quepaxa.Dedupe.Saving.{IsFaithful}
use rust_quepaxa.Dedupe.Executor.{
  ExactlyOnceSnapshot, FileExactlyOnceExecutor, opened, open_executor, with_value, execute_on_file,
  export_file, encode_saved, save_and_install, unwrap_or,
}
use rust_quepaxa.Dedupe.Transaction.{
  restarted, Installed, TransactsBy, save_and_install-Installed, execute_on_file-Transacts,
}

module _ {V A F : Type 0} ⦃e : Eq V⦄ (fs : Files F) (codec : Postcard (ExactlyOnceSnapshot V A))
    (encoding : Encoding) (apply : A → SlotIndex → V → A × Result (Unit {0})) (initial : A) where
  -- The application's state after the applications of a log, the latest first.
  abbrev pub replay : List (SlotIndex × V) → A
  replay [] = initial
  replay ((slot, value_id) ∷ log) = (apply (replay log) slot value_id).0

  abbrev pub values_of : List (SlotIndex × V) → List V
  values_of [] = []
  values_of ((slot, value_id) ∷ log) = value_id ∷ values_of log

  -- Each application succeeded, and no value is applied twice.
  abbrev pub AppliesOnce : List (SlotIndex × V) → Type 0
  AppliesOnce [] = Unit
  AppliesOnce ((slot, value_id) ∷ log) =
      ((apply (replay log) slot value_id).1 ≡ ok tt)
      × (contains (values_of log) value_id ≡ false)
      × AppliesOnce log

  -- The application's state is that of applying each executed value once.
  pub record IsOnce (s : ExactlyOnceSnapshot V A) : Type 0 where
    pub log : List (SlotIndex × V)
    pub seen : s.seen ≡ values_of log
    pub applied : s.application ≡ replay log
    pub once : AppliesOnce log

  -- An executor that a run of the process, or of one process after another, can reach from files
  -- without a snapshot. A crash is a restart from the files that any step of a save left.
  pub data Run (start : F) : FileExactlyOnceExecutor V A F → Type 0 where
    begins :
        (max_bytes : ℕ) (u : FileExactlyOnceExecutor V A F)
        → open_executor fs codec encoding apply start max_bytes initial ≡ ok u
        → Run start u
    executes :
        (u : FileExactlyOnceExecutor V A F) (slot : SlotIndex) (value_id : V)
        → Run start u
        → Run start (execute_on_file fs codec encoding apply u slot value_id).0
    exports :
        (u : FileExactlyOnceExecutor V A F) (through : SlotIndex)
        → Run start u
        → Run start (export_file fs codec encoding apply u through).0
    restarts :
        (u w : FileExactlyOnceExecutor V A F)
        → Run start u
        → open_executor fs codec encoding apply u.files u.max_snapshot_bytes initial ≡ ok w
        → Run start w
    -- `with_crash_injector`
    injects :
        (u : FileExactlyOnceExecutor V A F) (reached : CrashPoint → Result (Unit {0}))
        → Run start u
        → Run start (record u { reached = reached })

  abbrev pub Holds : FileExactlyOnceExecutor V A F → Type 0
  Holds u =
      IsOnce u.snapshot
      × ((s : ExactlyOnceSnapshot V A)
          → restarted fs codec encoding apply initial u ≡ ok s
          → IsOnce s)

  executed-IsOnce :
      (s : ExactlyOnceSnapshot V A) (slot : SlotIndex) (value_id : V)
      → contains s.seen value_id ≡ false
      → (apply s.application slot value_id).1 ≡ ok tt
      → IsOnce s
      → IsOnce (with_value fs codec encoding apply s value_id (apply s.application slot value_id).0)
  executed-IsOnce s slot value_id n a i = record {
    log = (slot, value_id) ∷ i.log;
    seen = ap (λ vs. value_id ∷ vs) i.seen;
    applied = ap (λ x. (apply x slot value_id).0) i.applied;
    once = (
      subst (λ x. (apply x slot value_id).1 ≡ ok tt) i.applied a,
      subst (λ vs. contains vs value_id ≡ false) i.seen n,
      i.once,
    );
  }

  abbrev started : F → ℕ → ExactlyOnceSnapshot V A → FileExactlyOnceExecutor V A F
  started files max_bytes s = record {
    files = files;
    snapshot = s;
    max_snapshot_bytes = max_bytes;
    reached = λ point. ok tt;
  }

  open_executor-opened :
      (files : F) (max_bytes : ℕ) (u : FileExactlyOnceExecutor V A F)
      → open_executor fs codec encoding apply files max_bytes initial ≡ ok u
      → (opened fs codec encoding apply files max_bytes initial ≡ ok u.snapshot)
        × (u.files ≡ files)
        × (u.max_snapshot_bytes ≡ max_bytes)
  unfolding open_executor
  open_executor-opened files max_bytes u h =
      elim (Result-cases (opened fs codec encoding apply files max_bytes initial)) [
        | inr (error, k) ↦ absurd (ground (arith, k, h))
        | inl (s, k) ↦
            let same : started files max_bytes s ≡ u = ground (arith, k, h) in
            subst
              (λ u.
                (opened fs codec encoding apply files max_bytes initial ≡ ok u.snapshot)
                × (u.files ≡ files)
                × (u.max_snapshot_bytes ≡ max_bytes))
              same (k, refl, refl)
      ]

  reopened :
      (files : F) (max_bytes : ℕ) (u : FileExactlyOnceExecutor V A F)
      → (opened fs codec encoding apply files max_bytes initial ≡ ok u.snapshot)
        × (u.files ≡ files)
        × (u.max_snapshot_bytes ≡ max_bytes)
      → restarted fs codec encoding apply initial u
        ≡ opened fs codec encoding apply files max_bytes initial
  reopened files max_bytes u o =
      ap (λ f. opened fs codec encoding apply f u.max_snapshot_bytes initial) o.1
      ∙ ap (λ n. opened fs codec encoding apply files n initial) o.2

  fresh-IsOnce :
      (start : F) (max_bytes : ℕ) (s : ExactlyOnceSnapshot V A)
      → fs.read start ≡ not_found
      → opened fs codec encoding apply start max_bytes initial ≡ ok s
      → IsOnce s
  unfolding opened load_snapshot validate_snapshot_limit
  fresh-IsOnce start max_bytes s r h = elim (Bool-cases (max_bytes == 0)) [
    | inl z ↦ absurd (ground (arith, z, h))
    | inr z ↦
        let same : unwrap_or fs codec encoding apply initial none ≡ s = ground (arith, z, r, h) in
        subst IsOnce same (record { log = []; seen = refl; applied = refl; once = tt })
  ]

  module _ (faithful : IsFaithful codec) (wrapped : IsFaithful encoding.envelopes)
      (staged : F → Bytes) (laws : IsAtomic fs staged) where
    Installed-Holds :
        (u : FileExactlyOnceExecutor V A F) (next : ExactlyOnceSnapshot V A)
        (s : FileExactlyOnceExecutor V A F × Result (Unit {0}))
        → IsOnce next
        → Holds u
        → Installed fs codec encoding apply initial u next s
        → Holds s.0
    Installed-Holds u next s n i (inl (h, m, l)) =
        (subst IsOnce (sym m) n, λ z k. subst IsOnce cc (l, k) n)
    Installed-Holds u next s n i (inr (error, (h, m, inl l))) =
        (subst IsOnce (sym m) i.0, λ z k. i.1 z (sym l ∙ k))
    Installed-Holds u next s n i (inr (error, (h, m, inr l))) =
        (subst IsOnce (sym m) i.0, λ z k. subst IsOnce cc (l, k) n)

    executed-Holds :
        (u : FileExactlyOnceExecutor V A F) (slot : SlotIndex) (value_id : V)
        (s : FileExactlyOnceExecutor V A F × Result Bool)
        → Holds u
        → TransactsBy fs codec encoding apply initial u value_id
            (apply u.snapshot.application slot value_id)
            s
        → Holds s.0
    executed-Holds u slot value_id s i (inl (h, n, a, m, l)) =
        let next = executed-IsOnce u.snapshot slot value_id n a i.0 in
        (subst IsOnce (sym m) next, λ z k. subst IsOnce cc (l, k) next)
    executed-Holds u slot value_id s i (inr (inl (h, y, k))) = subst Holds (sym k) i
    executed-Holds u slot value_id s i (inr (inr (error, (h, n, m, inl l)))) =
        (subst IsOnce (sym m) i.0, λ z k. i.1 z (sym l ∙ k))
    executed-Holds u slot value_id s i (inr (inr (error, (h, n, m, inr (a, l))))) =
        let next = executed-IsOnce u.snapshot slot value_id n a i.0 in
        (subst IsOnce (sym m) i.0, λ z k. subst IsOnce cc (l, k) next)

    encode_saved_same :
        (s : FileExactlyOnceExecutor V A F × Result (Unit {0}))
        → (encode_saved fs codec encoding apply s).0 ≡ s.0
    encode_saved_same (u, err error) = refl
    encode_saved_same (u, ok _) = refl

    exported-Holds :
        (u : FileExactlyOnceExecutor V A F) (through : SlotIndex)
        → Holds u
        → Holds (export_file fs codec encoding apply u through).0
    unfolding export_file
    exported-Holds u through i =
        let next = record u.snapshot { checkpointed_through = through } in
        let saved = save_and_install fs codec encoding apply u next in
        subst Holds (sym (encode_saved_same saved)) (
          Installed-Holds u next saved
            (record { log = i.0.log; seen = i.0.seen; applied = i.0.applied; once = i.0.once }) i
            (save_and_install-Installed fs codec encoding apply faithful wrapped staged laws initial
              u next))

    -- In every executor that is reached from files without a snapshot, by executions, exports of
    -- checkpoints and restarts, with any step of any save failing, the application's state is
    -- that of applying each of the values in `seen` once, with success, in some order; and so is
    -- the state with which a restart begins. Only a rename may change what a reader of the file
    -- gets, and the codecs read back what they write.
    pub Run-Holds :
        (start : F) (u : FileExactlyOnceExecutor V A F)
        → fs.read start ≡ not_found
        → Run start u
        → Holds u
    Run-Holds start w r (begins max_bytes u h) =
        let o = open_executor-opened start max_bytes u h in
        (
          fresh-IsOnce start max_bytes u.snapshot r o.0,
          λ z k. fresh-IsOnce start max_bytes z r (sym (reopened start max_bytes u o) ∙ k),
        )
    Run-Holds start w r (executes u slot value_id run) =
        executed-Holds u slot value_id (execute_on_file fs codec encoding apply u slot value_id)
          (Run-Holds start u r run)
          (execute_on_file-Transacts fs codec encoding apply faithful wrapped staged laws initial u
            slot value_id)
    Run-Holds start w r (exports u through run) = exported-Holds u through (Run-Holds start u r run)
    Run-Holds start w r (restarts u v run h) =
        let o = open_executor-opened u.files u.max_snapshot_bytes v h in
        let before = Run-Holds start u r run in
        (
          before.1 v.snapshot o.0,
          λ z k. before.1 z (sym (reopened u.files u.max_snapshot_bytes v o) ∙ k),
        )
    Run-Holds start w r (injects u reached run) = Run-Holds start u r run
