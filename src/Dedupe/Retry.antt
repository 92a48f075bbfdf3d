-- ===== src/Dedupe/Retry.antt =====
-- src/network/dedupe.rs: a request that has been answered is not served again.
use rust_quepaxa.Prelude.{
  ◌≡◌, refl, ◌∙◌, ap, subst, true, false, List, [], ◌∷◌, Option, none, some, arith, Eq, nat_eq, inl,
  inr, Bool-cases, option_beq_iff, if◌then◌else◌,
}
use rust_quepaxa.Error.{Result, ok, err}
use rust_quepaxa.Types.{decision_eq, decision_beq_iff}
use rust_quepaxa.Dedupe.Storage.{Files, Postcard, Encoding}
use rust_quepaxa.Dedupe.Journal.{
  SubmissionKey, key_beq, Submission, SubmissionOutcome, accepted, committed, duplicate, Outcomes,
  find_outcome, insert_outcome, outcome_beq, SubmissionJournal, in_memory_journal, put_in_memory,
  get_in_memory, conflicts, FileSubmissionJournal, get_from_file, put_on_file, put_over,
  install_outcomes, file_journal, DeduplicatingSubmissionHandler, retried, report_outcome,
  note_outcome, submit_over, submit,
}

-- What a journal remembers: an outcome that it has taken, until another one for the same key.
pub record IsRemembering {V J : Type 0} (journal : SubmissionJournal V J) : Type 0 where
  pub put_get :
      (j : J) (key : SubmissionKey) (outcome : SubmissionOutcome V)
      → (journal.put j key outcome).1 ≡ ok tt
      → journal.get (journal.put j key outcome).0 key ≡ ok (some outcome)
  pub put_other :
      (j : J) (key other : SubmissionKey) (outcome : SubmissionOutcome V)
      → key_beq key other ≡ false
      → journal.get (journal.put j other outcome).0 key ≡ journal.get j key

key_beq_refl : (key : SubmissionKey) → key_beq key key ≡ true
key_beq_refl (c, r) = ground arith

key_same : (a b : SubmissionKey) → key_beq a b ≡ true → a ≡ b
key_same (c, r) (d, q) h =
    let clients : c ≡ d = ground arith in
    let requests : r ≡ q = ground arith in ap (λ x. (x, r)) clients ∙ ap (λ x. (d, x)) requests

module _ {V : Type 0} where
  find-insert :
      (key other : SubmissionKey) (outcome : SubmissionOutcome V) (m : Outcomes V)
      → find_outcome key (insert_outcome other outcome m)
        ≡ (if key_beq key other then some outcome else find_outcome key m)
  unfolding find_outcome insert_outcome
  find-insert key other outcome [] = refl
  find-insert key other outcome ((k, o) ∷ m) = ground (arith, find-insert key other outcome m)

module _ {V : Type 0} ⦃e : Eq V⦄ where
  outcome_same : (a b : SubmissionOutcome V) → outcome_beq a b ≡ true → a ≡ b
  outcome_same accepted accepted h = refl
  outcome_same (committed a) (committed b) h = ap committed ((decision_beq_iff a b).0 h)
  outcome_same (duplicate a) (duplicate b) h = ap duplicate ((option_beq_iff a b).0 h)
  outcome_same accepted (committed b) h = absurd cc h
  outcome_same accepted (duplicate b) h = absurd cc h
  outcome_same (committed a) accepted h = absurd cc h
  outcome_same (committed a) (duplicate b) h = absurd cc h
  outcome_same (duplicate a) accepted h = absurd cc h
  outcome_same (duplicate a) (committed b) h = absurd cc h

  pub in_memory-IsRemembering : IsRemembering (in_memory_journal {V = V})
  unfolding put_in_memory get_in_memory
  in_memory-IsRemembering = record {
    put_get = λ j key outcome h.
        elim (Bool-cases (conflicts (find_outcome key j.outcomes) outcome)) [
          | inl y ↦ absurd (ground (arith, y, h))
          | inr n ↦ ground (arith, n, find-insert key key outcome j.outcomes, key_beq_refl key)
        ];
    put_other =
        λ j key other outcome n. ground (arith, n, find-insert key other outcome j.outcomes);
  }

  module _ {F : Type 0} (fs : Files F) (codec : Postcard (Outcomes V)) (encoding : Encoding) where
    installed_remembers :
        (j : FileSubmissionJournal V F) (key : SubmissionKey) (outcome : SubmissionOutcome V)
        (s : F × Result (Unit {0}))
        → (install_outcomes fs codec encoding j (insert_outcome key outcome j.outcomes) s).1 ≡ ok tt
        → find_outcome key
            (install_outcomes fs codec encoding j
              (insert_outcome key outcome j.outcomes)
              s).0.outcomes
          ≡ some outcome
    installed_remembers j key outcome (f, err error) h = absurd cc h
    installed_remembers j key outcome (f, ok _) h =
        ground (arith, find-insert key key outcome j.outcomes, key_beq_refl key)

    installed_keeps :
        (j : FileSubmissionJournal V F) (key other : SubmissionKey) (outcome : SubmissionOutcome V)
        (s : F × Result (Unit {0}))
        → key_beq key other ≡ false
        → find_outcome key
            (install_outcomes fs codec encoding j
              (insert_outcome other outcome j.outcomes)
              s).0.outcomes
          ≡ find_outcome key j.outcomes
    installed_keeps j key other outcome (f, err error) n = refl
    installed_keeps j key other outcome (f, ok _) n =
        ground (arith, n, find-insert key other outcome j.outcomes)

    -- A put over what the journal held.
    put_over_remembers :
        (j : FileSubmissionJournal V F) (key : SubmissionKey) (outcome : SubmissionOutcome V)
        (held : Option (SubmissionOutcome V))
        → find_outcome key j.outcomes ≡ held
        → (put_over fs codec encoding j key outcome held).1 ≡ ok tt
        → find_outcome key (put_over fs codec encoding j key outcome held).0.outcomes ≡ some outcome
    put_over_remembers j key outcome (some existing) f h =
        elim (Bool-cases (outcome_beq existing outcome)) [
          | inl y ↦ ground (arith, y, f, outcome_same existing outcome y)
          | inr n ↦ absurd (ground (arith, n, h))
        ]
    put_over_remembers j key outcome none f h = installed_remembers j key outcome _ h

    put_over_keeps :
        (j : FileSubmissionJournal V F) (key other : SubmissionKey) (outcome : SubmissionOutcome V)
        (held : Option (SubmissionOutcome V))
        → key_beq key other ≡ false
        → find_outcome key (put_over fs codec encoding j other outcome held).0.outcomes
          ≡ find_outcome key j.outcomes
    put_over_keeps j key other outcome (some existing) n =
        elim (Bool-cases (outcome_beq existing outcome)) [ inl y ↦ rw y refl | inr k ↦ rw k refl ]
    put_over_keeps j key other outcome none n = installed_keeps j key other outcome _ n

    pub file_journal-IsRemembering : IsRemembering (file_journal fs codec encoding)
    unfolding put_on_file get_from_file
    file_journal-IsRemembering = record {
      put_get = λ j key outcome h.
          ap ok (put_over_remembers j key outcome (find_outcome key j.outcomes) refl h);
      put_other = λ j key other outcome n.
          ap ok (put_over_keeps j key other outcome (find_outcome other j.outcomes) n);
    }

module _ {V H J : Type 0} (journal : SubmissionJournal V J) (remembers : IsRemembering journal)
    (submit_inner : H → Submission V → H × Result (SubmissionOutcome V)) where
  abbrev pub key_of : Submission V → SubmissionKey
  key_of s = (s.client_id, s.request_id)

  -- The handler after it has served submissions, with success or not.
  abbrev pub serve :
      DeduplicatingSubmissionHandler H J → List (Submission V) → DeduplicatingSubmissionHandler H J
  serve self [] = self
  serve self (s ∷ ss) = serve (submit journal submit_inner self s).0 ss

  -- What the journal has after a success: an outcome of which a retry is told the same.
  abbrev pub Noted :
      SubmissionKey → SubmissionOutcome V → DeduplicatingSubmissionHandler H J → Type 0
  Noted key answer self =
      (outcome : SubmissionOutcome V) × ((journal.get self.journal key ≡ ok (some outcome))
        × (retried outcome ≡ retried answer))

  retried_twice : (o : SubmissionOutcome V) → retried o ≡ retried (retried o)
  unfolding retried
  retried_twice accepted = refl
  retried_twice (committed d) = refl
  retried_twice (duplicate d) = refl

  report-Noted :
      (inner : H) (key : SubmissionKey) (outcome answer : SubmissionOutcome V)
      (s : J × Result (Unit {0}))
      → (s.1 ≡ ok tt → journal.get s.0 key ≡ ok (some outcome))
      → (report_outcome journal submit_inner inner outcome s).1 ≡ ok answer
      → Noted key answer (report_outcome journal submit_inner inner outcome s).0
  report-Noted inner key outcome answer (j, err error) g h = absurd cc h
  report-Noted inner key outcome answer (j, ok _) g h = (outcome, (g refl, ap retried cc h))

  note-Noted :
      (self : DeduplicatingSubmissionHandler H J) (key : SubmissionKey)
      (answer : SubmissionOutcome V) (s : H × Result (SubmissionOutcome V))
      → (note_outcome journal submit_inner self key s).1 ≡ ok answer
      → Noted key answer (note_outcome journal submit_inner self key s).0
  note-Noted self key answer (inner, err error) h = absurd cc h
  note-Noted self key answer (inner, ok outcome) h =
      report-Noted inner key outcome answer (journal.put self.journal key outcome)
        (remembers.put_get self.journal key outcome) h

  submit_over-Noted :
      (self : DeduplicatingSubmissionHandler H J) (s : Submission V)
      (held : Result (Option (SubmissionOutcome V))) (answer : SubmissionOutcome V)
      → journal.get self.journal (key_of s) ≡ held
      → (submit_over journal submit_inner self s held).1 ≡ ok answer
      → Noted (key_of s) answer (submit_over journal submit_inner self s held).0
  submit_over-Noted self s (err error) answer g h = absurd cc h
  submit_over-Noted self s (ok (some outcome)) answer g h =
      let same : retried outcome ≡ answer = cc h in
      (outcome, (g, retried_twice outcome ∙ ap retried same))
  submit_over-Noted self s (ok none) answer g h =
      note-Noted self (key_of s) answer (submit_inner self.inner s) h

  report_other :
      (inner : H) (key : SubmissionKey) (outcome : SubmissionOutcome V) (before : J)
      (s : J × Result (Unit {0}))
      → journal.get s.0 key ≡ journal.get before key
      → journal.get (report_outcome journal submit_inner inner outcome s).0.journal key
        ≡ journal.get before key
  report_other inner key outcome before (j, err error) g = g
  report_other inner key outcome before (j, ok _) g = g

  note_other :
      (self : DeduplicatingSubmissionHandler H J) (key other : SubmissionKey)
      (s : H × Result (SubmissionOutcome V))
      → key_beq key other ≡ false
      → journal.get (note_outcome journal submit_inner self other s).0.journal key
        ≡ journal.get self.journal key
  note_other self key other (inner, err error) n = refl
  note_other self key other (inner, ok outcome) n =
      report_other inner key outcome self.journal (journal.put self.journal other outcome)
        (remembers.put_other self.journal key other outcome n)

  submit_over_keeps :
      (self : DeduplicatingSubmissionHandler H J) (s : Submission V)
      (held : Result (Option (SubmissionOutcome V))) (key : SubmissionKey)
      (answer : SubmissionOutcome V)
      → journal.get self.journal (key_of s) ≡ held
      → Noted key answer self
      → Noted key answer (submit_over journal submit_inner self s held).0
  submit_over_keeps self s (err error) key answer g n = n
  submit_over_keeps self s (ok (some outcome)) key answer g n = n
  submit_over_keeps self s (ok none) key answer g (o, n) =
      elim (Bool-cases (key_beq key (key_of s))) [
        | inl y ↦ absurd cc (ap (journal.get self.journal) (key_same key (key_of s) y), g, n.0)
        | inr k ↦ (o, (note_other self key (key_of s) (submit_inner self.inner s) k ∙ n.0, n.1))
      ]

  serve_keeps :
      (self : DeduplicatingSubmissionHandler H J) (ss : List (Submission V)) (key : SubmissionKey)
      (answer : SubmissionOutcome V)
      → Noted key answer self
      → Noted key answer (serve self ss)
  unfolding submit
  serve_keeps self [] key answer n = n
  serve_keeps self (s ∷ ss) key answer n =
      serve_keeps (submit journal submit_inner self s).0 ss key answer
        (submit_over_keeps self s (journal.get self.journal (key_of s)) key answer refl n)

  -- After a success, and after whatever else has been submitted since, a submission with the same
  -- client and request is answered as a duplicate with the same decision, and the inner handler and
  -- the journal stay as they are, for a journal that remembers the outcomes it has taken.
  pub submit_again :
      (self next : DeduplicatingSubmissionHandler H J) (first again : Submission V)
      (answer : SubmissionOutcome V) (between : List (Submission V))
      → submit journal submit_inner self first ≡ (next, ok answer)
      → key_of again ≡ key_of first
      → submit journal submit_inner (serve next between) again
        ≡ (serve next between, ok (retried answer))
  unfolding submit
  submit_again self next first again answer between h k =
      let noted =
        submit_over-Noted self first (journal.get self.journal (key_of first)) answer refl
          (ap (λ x. x.1) h) in
      let (o, n) =
        serve_keeps next between (key_of first) answer
          (subst (Noted (key_of first) answer) (ap (λ x. x.0) h) noted) in
      rw (k, n.0) (ap (λ x. (serve next between, ok x)) n.1)
