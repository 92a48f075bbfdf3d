-- ===== src/Dedupe/Journal.antt =====
-- src/network/dedupe.rs and src/network/wire.rs: the submission journals, and the handler that
-- answers the retry of a request from its journal.
--
-- A client identifier of 16 bytes is the number that they write. The handler locks the key of a
-- request while it serves it, so the requests of one key are served one after another.
use rust_quepaxa.Prelude.{
  ℕ, Bool, true, false, not, ◌&&◌, List, [], ◌∷◌, Option, none, some, Eq, ◌==◌, nat_eq, option_beq,
  if◌then◌else◌,
}
use rust_quepaxa.Error.{
  Result, ok, err, ◌>>=◌, invalid_proposal, different_outcome, submission_journal,
}
use rust_quepaxa.Types.{Decision, decision_eq}
use rust_quepaxa.Dedupe.Storage.{
  Files, Postcard, Encoding, CrashPoint, SnapshotTarget, journal_crash_points, load_snapshot,
  save_snapshot,
}

-- `SubmissionKey`: the client and its request
abbrev pub SubmissionKey : Type 0
SubmissionKey = ℕ × ℕ

abbrev pub key_beq : SubmissionKey → SubmissionKey → Bool
key_beq (c, r) (d, q) = c == d && r == q

pub record Submission (V : Type 0) : Type 0 where
  pub client_id : ℕ
  pub request_id : ℕ
  pub value_ids : List V

pub data SubmissionOutcome (V : Type 0) : Type 0 where
  accepted : SubmissionOutcome V
  committed : Decision V → SubmissionOutcome V
  duplicate : Option (Decision V) → SubmissionOutcome V

-- A `BTreeMap` of outcomes, in any order.
abbrev pub Outcomes : Type 0 → Type 0
Outcomes V = List (SubmissionKey × SubmissionOutcome V)

module _ {V : Type 0} where
  unfoldable pub find_outcome : SubmissionKey → Outcomes V → Option (SubmissionOutcome V)
  find_outcome key [] = none
  find_outcome key ((k, outcome) ∷ m) = if key_beq key k then some outcome else find_outcome key m

  unfoldable pub insert_outcome : SubmissionKey → SubmissionOutcome V → Outcomes V → Outcomes V
  insert_outcome key outcome [] = (key, outcome) ∷ []
  insert_outcome key outcome ((k, o) ∷ m) =
      if key_beq key k then (key, outcome) ∷ m else (k, o) ∷ insert_outcome key outcome m

module _ {V : Type 0} ⦃e : Eq V⦄ where
  abbrev pub outcome_beq : SubmissionOutcome V → SubmissionOutcome V → Bool
  outcome_beq accepted accepted = true
  outcome_beq (committed a) (committed b) = a == b
  outcome_beq (duplicate a) (duplicate b) = option_beq a b
  outcome_beq _ _ = false

-- The trait `SubmissionJournal`
pub record SubmissionJournal (V J : Type 0) : Type 0 where
  pub get : J → SubmissionKey → Result (Option (SubmissionOutcome V))
  pub put : J → SubmissionKey → SubmissionOutcome V → J × Result (Unit {0})

pub record InMemorySubmissionJournal (V : Type 0) : Type 0 where
  pub outcomes : Outcomes V

module _ {V : Type 0} ⦃e : Eq V⦄ where
  unfoldable pub get_in_memory :
      InMemorySubmissionJournal V → SubmissionKey → Result (Option (SubmissionOutcome V))
  get_in_memory self key = ok (find_outcome key self.outcomes)

  -- An outcome that is there already and differs.
  abbrev pub conflicts : Option (SubmissionOutcome V) → SubmissionOutcome V → Bool
  conflicts none outcome = false
  conflicts (some existing) outcome = not (outcome_beq existing outcome)

  unfoldable pub put_in_memory :
      InMemorySubmissionJournal V
      → SubmissionKey
      → SubmissionOutcome V
      → InMemorySubmissionJournal V × Result (Unit {0})
  put_in_memory self key outcome =
      if conflicts (find_outcome key self.outcomes) outcome
      then (self, err (invalid_proposal different_outcome))
      else (record { outcomes = insert_outcome key outcome self.outcomes }, ok tt)

  instance abbrev pub in_memory_journal : SubmissionJournal V (InMemorySubmissionJournal V)
  in_memory_journal = record { get = get_in_memory; put = put_in_memory }

pub record FileSubmissionJournal (V F : Type 0) : Type 0 where
  pub files : F
  pub outcomes : Outcomes V
  pub max_snapshot_bytes : ℕ
  pub reached : CrashPoint → Result (Unit {0})

module _ {V F : Type 0} ⦃e : Eq V⦄ (fs : Files F) (codec : Postcard (Outcomes V))
    (encoding : Encoding) where
  abbrev pub unwrap_or_default : Option (Outcomes V) → Outcomes V
  unwrap_or_default none = []
  unwrap_or_default (some outcomes) = outcomes

  unfoldable pub open_journal : F → ℕ → Result (FileSubmissionJournal V F)
  open_journal files max_snapshot_bytes = do
    loaded ← load_snapshot codec encoding fs files max_snapshot_bytes submission_journal
    ok (record {
      files = files;
      outcomes = unwrap_or_default loaded;
      max_snapshot_bytes = max_snapshot_bytes;
      reached = λ point. ok tt;
    })

  abbrev pub journal_target : FileSubmissionJournal V F → SnapshotTarget
  journal_target self = record {
    max_snapshot_bytes = self.max_snapshot_bytes;
    reached = self.reached;
    points = journal_crash_points;
    label = submission_journal;
  }

  -- `FileSubmissionJournal::save`
  unfoldable pub save_journal : FileSubmissionJournal V F → Outcomes V → F × Result (Unit {0})
  save_journal self outcomes =
      save_snapshot fs codec encoding (journal_target self) self.files outcomes

  unfoldable pub get_from_file :
      FileSubmissionJournal V F → SubmissionKey → Result (Option (SubmissionOutcome V))
  get_from_file self key = ok (find_outcome key self.outcomes)

  -- `self.save(&next)?; self.outcomes = next;`, over the outcome of the save
  abbrev pub install_outcomes :
      FileSubmissionJournal V F
      → Outcomes V
      → F × Result (Unit {0})
      → FileSubmissionJournal V F × Result (Unit {0})
  install_outcomes self next (files, err error) = (record self { files = files }, err error)
  install_outcomes self next (files, ok _) = (record self { files = files; outcomes = next }, ok tt)

  -- `put`, over what the journal holds for the key
  abbrev pub put_over :
      FileSubmissionJournal V F
      → SubmissionKey
      → SubmissionOutcome V
      → Option (SubmissionOutcome V)
      → FileSubmissionJournal V F × Result (Unit {0})
  put_over self key outcome (some existing) =
      if outcome_beq existing outcome
      then (self, ok tt)
      else (self, err (invalid_proposal different_outcome))
  put_over self key outcome none =
      let next = insert_outcome key outcome self.outcomes in
      install_outcomes self next (save_journal self next)

  unfoldable pub put_on_file :
      FileSubmissionJournal V F
      → SubmissionKey
      → SubmissionOutcome V
      → FileSubmissionJournal V F × Result (Unit {0})
  put_on_file self key outcome = put_over self key outcome (find_outcome key self.outcomes)

  abbrev pub file_journal : SubmissionJournal V (FileSubmissionJournal V F)
  file_journal = record { get = get_from_file; put = put_on_file }

-- `DeduplicatingSubmissionHandler` without its locks
pub record DeduplicatingSubmissionHandler (H J : Type 0) : Type 0 where
  pub inner : H
  pub journal : J

-- What a retry is told of the outcome of its request.
unfoldable pub retried : {V : Type 0} → SubmissionOutcome V → SubmissionOutcome V
retried (committed decision) = duplicate (some decision)
retried (duplicate decision) = duplicate decision
retried accepted = duplicate none

module _ {V H J : Type 0} (journal : SubmissionJournal V J)
    (submit_inner : H → Submission V → H × Result (SubmissionOutcome V)) where
  abbrev pub report_outcome :
      H
      → SubmissionOutcome V
      → J × Result (Unit {0})
      → DeduplicatingSubmissionHandler H J × Result (SubmissionOutcome V)
  report_outcome inner outcome (j, err error) = (record { inner = inner; journal = j }, err error)
  report_outcome inner outcome (j, ok _) = (record { inner = inner; journal = j }, ok outcome)

  -- `submit` behind the inner handler
  abbrev pub note_outcome :
      DeduplicatingSubmissionHandler H J
      → SubmissionKey
      → H × Result (SubmissionOutcome V)
      → DeduplicatingSubmissionHandler H J × Result (SubmissionOutcome V)
  note_outcome self key (inner, err error) = (record self { inner = inner }, err error)
  note_outcome self key (inner, ok outcome) =
      report_outcome inner outcome (journal.put self.journal key outcome)

  -- `submit`, over what the journal gives for the request
  abbrev pub submit_over :
      DeduplicatingSubmissionHandler H J
      → Submission V
      → Result (Option (SubmissionOutcome V))
      → DeduplicatingSubmissionHandler H J × Result (SubmissionOutcome V)
  submit_over self submission (err error) = (self, err error)
  submit_over self submission (ok (some outcome)) = (self, ok (retried outcome))
  submit_over self submission (ok none) =
      note_outcome self (submission.client_id, submission.request_id)
        (submit_inner self.inner submission)

  unfoldable pub submit :
      DeduplicatingSubmissionHandler H J
      → Submission V
      → DeduplicatingSubmissionHandler H J × Result (SubmissionOutcome V)
  submit self submission =
      submit_over self submission
        (journal.get self.journal (submission.client_id, submission.request_id))
