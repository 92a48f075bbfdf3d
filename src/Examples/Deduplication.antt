-- ===== src/Examples/Deduplication.antt =====
-- The snapshot files, the exactly-once executor and the submission handler at concrete inputs.
use rust_quepaxa.Prelude.{
  ℕ, ◌+◌, ◌%◌, ◌≡◌, refl, sym, subst, true, false, List, [], ◌∷◌, ◌++◌, Option, none, some, nat_eq,
  is_empty, ap,
}
use rust_quepaxa.Error.{
  Result, ok, err, storage_error, lock_poisoned, exactly_once_state, exactly_once_checkpoint,
}
use rust_quepaxa.Types.{SlotIndex}
use rust_quepaxa.Dedupe.Storage.{
  Bytes, Contents, found, not_found, Files, Postcard, Encoding, CrashPoint, exactly_once_renamed,
  DedupeStorageEnvelope, encode_snapshot, decode_snapshot, load_snapshot, save_snapshot,
  validate_snapshot_limit,
}
use rust_quepaxa.Dedupe.Replacing.{IsAtomic}
use rust_quepaxa.Dedupe.Saving.{IsFaithful, Saved, save_snapshot-Saved, decode-encode}
use rust_quepaxa.Dedupe.Executor.{
  ExactlyOnceSnapshot, FileExactlyOnceExecutor, open_executor, opened, execute_on_file, target_of,
}
use rust_quepaxa.Dedupe.Transaction.{TransactsBy, execute_on_file-Transacts}
use rust_quepaxa.Dedupe.Once.{Run, begins, executes, injects, Holds, Run-Holds}
use rust_quepaxa.Dedupe.Journal.{
  Submission, SubmissionOutcome, committed, InMemorySubmissionJournal, in_memory_journal,
  DeduplicatingSubmissionHandler, submit, retried, find_outcome, insert_outcome, put_in_memory,
  get_in_memory,
}
use rust_quepaxa.Dedupe.Retry.{serve, submit_again, in_memory-IsRemembering}
use rust_quepaxa.Samples.{decide}

-- A file and its temporary file.
record TwoFiles : Type 0 where
  target : Contents
  temporary : Bytes

abbrev two_files : Files TwoFiles
two_files = record {
  read = λ f. f.target;
  open_temporary = λ f. (record f { temporary = [] }, true);
  write_temporary = λ f b. (record f { temporary = f.temporary ++ b }, true);
  sync_temporary = λ f. (f, true);
  rename = λ f. (record f { target = found f.temporary }, true);
  sync_directory = λ f. (f, true);
}

two_files-IsAtomic : IsAtomic two_files (λ f. f.temporary)
two_files-IsAtomic = record {
  open_keeps = λ f. refl;
  open_truncates = λ f h. refl;
  write_keeps = λ f b. refl;
  write_appends = λ f b h. refl;
  sync_keeps = λ f. refl;
  sync_stages = λ f. refl;
  rename_fails = λ f h. absurd cc h;
  rename_replaces = λ f h. refl;
  directory_keeps = λ f. refl;
}

abbrev Counted : Type 0
Counted = ExactlyOnceSnapshot ℕ ℕ

abbrev write_counted : Counted → Option Bytes
write_counted s = some (s.checkpointed_through ∷ s.application ∷ s.seen)

abbrev read_counted : Bytes → Option Counted
read_counted (through ∷ application ∷ seen) =
    some (record { checkpointed_through = through; seen = seen; application = application })
read_counted _ = none

abbrev counted : Postcard Counted
counted = record { to_allocvec = write_counted; from_bytes = read_counted }

counted-IsFaithful : IsFaithful counted
counted-IsFaithful = record {
  reads_back = λ t b h.
      let same : t.checkpointed_through ∷ t.application ∷ t.seen ≡ b = cc h in
      subst (λ x. read_counted x ≡ some t) same refl;
  writes = λ t b h.
      let same : t.checkpointed_through ∷ t.application ∷ t.seen ≡ b = cc h in
      subst (λ x. is_empty x ≡ false) same refl;
}

-- Envelopes with a checksum of one byte.
abbrev write_envelope : DedupeStorageEnvelope → Bytes → Option Bytes
write_envelope e [] = none
write_envelope e (checksum ∷ []) = some (e.version ∷ checksum ∷ e.payload)
write_envelope e (a ∷ b ∷ bytes) = none

abbrev read_envelope : Bytes → Option DedupeStorageEnvelope
read_envelope (version ∷ checksum ∷ payload) =
    some (record { version = version; checksum = checksum ∷ []; payload = payload })
read_envelope _ = none

abbrev byte_sum : Bytes → ℕ
byte_sum [] = 0
byte_sum (b ∷ bytes) = (b + byte_sum bytes) % 256

abbrev summed : Encoding
summed = record {
  envelopes = record { to_allocvec = λ e. write_envelope e e.checksum; from_bytes = read_envelope };
  digest = λ b. byte_sum b ∷ [];
}

read-write_envelope :
    (e : DedupeStorageEnvelope) (c b : Bytes)
    → e.checksum ≡ c
    → write_envelope e c ≡ some b
    → (read_envelope b ≡ some e) × (is_empty b ≡ false)
read-write_envelope e [] b k h = absurd cc h
read-write_envelope e (x ∷ y ∷ z) b k h = absurd cc h
read-write_envelope e (x ∷ []) b k h =
    let same : e.version ∷ x ∷ e.payload ≡ b = cc h in
    subst (λ u. (read_envelope u ≡ some e) × (is_empty u ≡ false)) same
      (
        ap (λ c. some (record { version = e.version; checksum = c; payload = e.payload })) (sym k),
        refl,
      )

summed-IsFaithful : IsFaithful summed.envelopes
summed-IsFaithful = record {
  reads_back = λ e b h. (read-write_envelope e e.checksum b refl h).0;
  writes = λ e b h. (read-write_envelope e e.checksum b refl h).1;
}

abbrev one_seen : Counted
one_seen = record { checkpointed_through = 3; seen = 20 ∷ []; application = 1 }

abbrev no_files : TwoFiles
no_files = record { target = not_found; temporary = [] }

encoded_one :
    encode_snapshot counted summed one_seen 64 exactly_once_checkpoint
    ≡ ok (1 ∷ 24 ∷ 3 ∷ 1 ∷ 20 ∷ [])
unfolding encode_snapshot validate_snapshot_limit
encoded_one = refl

decode-encode_example :
    decode_snapshot counted summed (1 ∷ 24 ∷ 3 ∷ 1 ∷ 20 ∷ []) 64 exactly_once_state ≡ ok one_seen
decode-encode_example =
    decode-encode counted summed counted-IsFaithful summed-IsFaithful one_seen 64
      exactly_once_checkpoint exactly_once_state (1 ∷ 24 ∷ 3 ∷ 1 ∷ 20 ∷ []) encoded_one

-- The directory is not synced, and the caller is told so.
abbrev after_rename : CrashPoint → Result (Unit {0})
after_rename exactly_once_renamed = err (storage_error lock_poisoned)
after_rename _ = ok tt

abbrev interrupted : FileExactlyOnceExecutor ℕ ℕ TwoFiles
interrupted = record {
  files = no_files;
  snapshot = record { checkpointed_through = 0; seen = []; application = 0 };
  max_snapshot_bytes = 64;
  reached = after_rename;
}

abbrev count : ℕ → SlotIndex → ℕ → ℕ × Result (Unit {0})
count n slot value_id = (n + 1, ok tt)

save_snapshot-Saved_example :
    Saved counted summed counted-IsFaithful summed-IsFaithful two_files
      (λ f. f.temporary)
      two_files-IsAtomic
      no_files
      64
      exactly_once_state
      one_seen
      (save_snapshot two_files counted summed
        (target_of two_files counted summed count interrupted)
        no_files
        one_seen)
save_snapshot-Saved_example =
    save_snapshot-Saved counted summed counted-IsFaithful summed-IsFaithful two_files
      (λ f. f.temporary) two_files-IsAtomic (target_of two_files counted summed count interrupted)
      no_files one_seen

execute_on_file-Transacts_example :
    TransactsBy two_files counted summed count 0 interrupted 20
      (1, ok tt)
      (execute_on_file two_files counted summed count interrupted 4 20)
execute_on_file-Transacts_example =
    execute_on_file-Transacts two_files counted summed count counted-IsFaithful summed-IsFaithful
      (λ f. f.temporary) two_files-IsAtomic 0 interrupted 4 20

-- A run in which the save of value 20 fails after the rename.
abbrev began : FileExactlyOnceExecutor ℕ ℕ TwoFiles
began = record {
  files = no_files;
  snapshot = record { checkpointed_through = 0; seen = []; application = 0 };
  max_snapshot_bytes = 64;
  reached = λ point. ok tt;
}

interrupted-Run :
    Run two_files counted summed count 0 no_files
      (execute_on_file two_files counted summed count interrupted 4 20).0
unfolding open_executor opened load_snapshot validate_snapshot_limit
interrupted-Run = executes interrupted 4 20 (injects began after_rename (begins 64 began refl))

Run-Holds_example :
    Holds two_files counted summed count 0
      (execute_on_file two_files counted summed count interrupted 4 20).0
Run-Holds_example =
    Run-Holds two_files counted summed count 0 counted-IsFaithful summed-IsFaithful
      (λ f. f.temporary) two_files-IsAtomic no_files
      (execute_on_file two_files counted summed count interrupted 4 20).0 refl interrupted-Run

abbrev asked : Submission ℕ
asked = record { client_id = 7; request_id = 1; value_ids = 20 ∷ [] }

abbrev asked_other : Submission ℕ
asked_other = record { client_id = 7; request_id = 2; value_ids = 21 ∷ [] }

-- An inner handler that decides each submission in the next slot.
abbrev next_slot : ℕ → Submission ℕ → ℕ × Result (SubmissionOutcome ℕ)
next_slot n s = (n + 1, ok (committed (decide n 1 s.request_id)))

abbrev at_slot :
    ℕ
    → List ((ℕ × ℕ) × SubmissionOutcome ℕ)
    → DeduplicatingSubmissionHandler ℕ (InMemorySubmissionJournal ℕ)
at_slot n outcomes = record { inner = n; journal = record { outcomes = outcomes } }

abbrev answered : DeduplicatingSubmissionHandler ℕ (InMemorySubmissionJournal ℕ)
answered = at_slot 6 (((7, 1), committed (decide 5 1 1)) ∷ [])

first_answer :
    submit in_memory_journal next_slot (at_slot 5 []) asked
    ≡ (answered, ok (committed (decide 5 1 1)))
unfolding submit put_in_memory get_in_memory find_outcome insert_outcome
first_answer = refl

submit_again_example :
    submit in_memory_journal next_slot
      (serve in_memory_journal in_memory-IsRemembering next_slot answered (asked_other ∷ []))
      asked
    ≡ (
      serve in_memory_journal in_memory-IsRemembering next_slot answered (asked_other ∷ []),
      ok (retried (committed (decide 5 1 1))),
    )
submit_again_example =
    submit_again in_memory_journal in_memory-IsRemembering next_slot (at_slot 5 []) answered asked
      asked (committed (decide 5 1 1)) (asked_other ∷ []) first_answer refl
