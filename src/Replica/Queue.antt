-- ===== src/Replica/Queue.antt =====
-- src/replica.rs: `enqueue`, `note_proposed`, `next_proposal` and `prune_through`.
use rust_quepaxa.Prelude.{
  take, drop, take-drop, ℕ, ◌+◌, ◌≡◌, refl, sym, ap, ◌∙◌, subst, false, ◌||◌, List, ◌++◌, Option,
  none, some, Eq, nat_eq, min, max, arith, inl, inr, Bool-cases, Option-cases, eqb, ltb, leb,
  length, has_duplicates, is_empty,
}
use rust_quepaxa.Prelude.Maps.{BTreeMap, get, insert, get-insert}
use rust_quepaxa.Error.{
  Result, ok, err, QuePaxaError, Result-cases, resource_limit, empty_proposal, invalid_proposal,
  duplicate_proposal_values, tracked_value_ids,
}
use rust_quepaxa.Types.{Decision, SlotIndex}
use rust_quepaxa.Replica.{
  LogSlot, ReplicaCore, slot_or_default, is_some, note_proposed, next_proposal, next_open_slot,
  is_committed, ensure_log_capacity, inflight_count, new, ReplicaConfig,
}
use rust_quepaxa.Replica.Values.{unseen, extend}
use rust_quepaxa.Replica.Open.{LowestOpen, next_open_slot-LowestOpen}
use rust_quepaxa.Replica.Commit.{Retains, is_decided}
use rust_quepaxa.Replica.Apply.{IsReady}

module _ {V : Type 0} where
  pub new-IsReady : (config : ReplicaConfig) → IsReady (new {V = V} config)
  unfolding new get
  new-IsReady config = (
    λ slot entry d g h. ground (arith, g, h),
    λ slot entry g l. ground (arith, g, l),
    refl,
    omega arith,
  )

  abbrev decision_at : Option (LogSlot V) → Option (Decision V)
  decision_at none = none
  decision_at (some entry) = entry.decision

  is_decided_at : (o : Option (LogSlot V)) → is_decided o ≡ is_some (decision_at o)
  is_decided_at none = refl
  is_decided_at (some entry) = refl

  -- Two logs with the same decisions and the same marks.
  abbrev SameMarks : BTreeMap (LogSlot V) → BTreeMap (LogSlot V) → Type 0
  SameMarks log log' =
      (q : SlotIndex)
      → (decision_at (get q log') ≡ decision_at (get q log))
        × (is_committed (get q log') ≡ is_committed (get q log))

  SameMarks-Retains : (log log' : BTreeMap (LogSlot V)) → SameMarks log log' → Retains log log'
  SameMarks-Retains log log' m slot entry d g h = elim (Option-cases (get slot log')) [
    | inl k ↦ absurd (ground (arith, k, g, h, (m slot).0))
    | inr (x, k) ↦ (x, k, ground (arith, k, g, h, (m slot).0))
  ]

  SameMarks-IsReady :
      (self self' : ReplicaCore V)
      → SameMarks self.log self'.log
      → self'.next_commit ≡ self.next_commit
      → IsReady self
      → IsReady self'
  SameMarks-IsReady self self' m n r = (
    λ slot entry d g h. elim (Option-cases (get slot self.log)) [
      | inl k ↦ absurd (ground (arith, k, g, h, (m slot).0))
      | inr (x, k) ↦ r.0 slot x d k (ground (arith, k, g, h, (m slot).0))
    ],
    λ slot entry g l. elim (Option-cases (get slot self.log)) [
      | inl k ↦ ground (arith, k, g, (m slot).1)
      | inr (x, k) ↦ (ground (arith, k, g, (m slot).1, r.1 slot x k (omega (arith, l, n))))
    ],
    (is_decided_at (get self'.next_commit self'.log)
        ∙ ap is_some ((m self'.next_commit).0 ∙ ap (λ x. decision_at (get x self.log)) n)
        ∙ sym (is_decided_at (get self.next_commit self.log))
        ∙ r.2),
    omega (arith, n, r.3),
  )

  abbrev proposed_into : ReplicaCore V → SlotIndex → List V → BTreeMap (LogSlot V)
  proposed_into self slot values =
      insert slot (record (slot_or_default (get slot self.log)) { proposed = values }) self.log

  proposed_into-SameMarks :
      (self : ReplicaCore V) (slot : SlotIndex) (values : List V)
      → SameMarks self.log (proposed_into self slot values)
  proposed_into-SameMarks self slot values q =
      let written = record (slot_or_default (get slot self.log)) { proposed = values } in
      let found = get-insert slot q written self.log in
      elim (Bool-cases (eqb q slot)) [
        | inr m ↦ (ground (arith, m, found), ground (arith, m, found))
        | inl m ↦
            let at : q ≡ slot = ground (arith, m) in
            let same = ap (λ x. get x self.log) at in
            elim (Option-cases (get slot self.log)) [
              | inl k ↦ (ground (arith, m, k, same, found), ground (arith, m, k, same, found))
              | inr (x, k) ↦ (ground (arith, m, k, same, found), ground (arith, m, k, same, found))
            ]
      ]

  abbrev pub batch_count : ReplicaCore V → ℕ
  batch_count self = max (min self.config.batch_size (length self.pending)) 1

module _ {V : Type 0} ⦃e : Eq V⦄ where
  -- A proposal that is noted stands in its slot; one that is refused changes nothing.
  abbrev pub Noted : ReplicaCore V → SlotIndex → List V → ReplicaCore V → Result (Unit {0}) → Type 0
  Noted self slot values self' (ok _) =
      (self'.log ≡ proposed_into self slot values)
      × (self'.pending ≡ self.pending)
      × (self'.next_commit ≡ self.next_commit)
      × (is_empty values ≡ false)
  Noted self slot values self' (err error) = self' ≡ self

  abbrev noted_state : ReplicaCore V → SlotIndex → List V → ReplicaCore V
  noted_state self slot values = record self {
    seen_value_ids = extend self.seen_value_ids (unseen self.seen_value_ids values);
    last_proposed = max self.last_proposed slot;
    log = proposed_into self slot values;
  }

  refused :
      (self : ReplicaCore V) (slot : SlotIndex) (values : List V) (error : QuePaxaError)
      → note_proposed self slot values ≡ (self, err error)
      → Noted self slot values (note_proposed self slot values).0 (note_proposed self slot values).1
  refused self slot values error q = subst (λ x. Noted self slot values x.0 x.1) (sym q) refl

  pub note_proposed-Noted :
      (self : ReplicaCore V) (slot : SlotIndex) (values : List V)
      → Noted self slot values (note_proposed self slot values).0 (note_proposed self slot values).1
  unfolding note_proposed
  note_proposed-Noted self slot values = elim (Bool-cases (is_empty values)) [
    | inl a ↦ refused self slot values empty_proposal (ground (arith, a))
    | inr a ↦ elim (Bool-cases (has_duplicates values)) [
      | inl b ↦
          refused self slot values (invalid_proposal duplicate_proposal_values)
            (ground (arith, a, b))
      | inr b ↦
          elim (Bool-cases (
            ltb self.config.max_tracked_value_ids
              (length self.seen_value_ids + length (unseen self.seen_value_ids values)))) [
                | inl c ↦
                    refused self slot values
                      (resource_limit tracked_value_ids self.config.max_tracked_value_ids)
                      (ground (arith, a, b, c))
                | inr c ↦ elim (Result-cases (ensure_log_capacity self slot)) [
                  | inr (error, k) ↦ refused self slot values error (ground (arith, a, b, c, k))
                  | inl (done, k) ↦
                      let q : note_proposed self slot values
                          ≡ (noted_state self slot values, ok tt) =
                        ground (arith, a, b, c, k) in
                      subst (λ x. Noted self slot values x.0 x.1) (sym q) (refl, refl, refl, a)
                ]
              ]
    ]
  ]

  -- What `next_proposal` does, by its result.
  abbrev pub Proposes :
      ReplicaCore V → ReplicaCore V → Result (Option (SlotIndex × List V)) → Type 0
  Proposes self self' (ok none) = self' ≡ self
  Proposes self self' (ok (some (slot, batch))) =
      (batch ++ self'.pending ≡ self.pending)
      × (is_empty batch ≡ false)
      × LowestOpen self.log self.next_commit (ok slot)
      × (self'.log ≡ proposed_into self slot batch)
      × Retains self.log self'.log
      × IsReady self'
  Proposes self self' (err error) = (self'.log ≡ self.log) × IsReady self'

  -- `next_proposal` keeps the invariant of the pipeline. With nothing to propose nothing
  -- changes. A proposal is a front part of the queue, not empty, and stands in the lowest open
  -- slot from the commit frontier on; the rest of the queue and all decisions stay. An error
  -- leaves the log alone.
  pub next_proposal-Proposes :
      (self : ReplicaCore V)
      → IsReady self
      → Proposes self (next_proposal self).0 (next_proposal self).1
  unfolding next_proposal
  next_proposal-Proposes self r =
      elim (Bool-cases
        (leb self.config.pipeline_len (inflight_count self) || is_empty self.pending)) [
          | inl a ↦
              let q : next_proposal self ≡ (self, ok none) = ground (arith, a) in
              subst (λ x. Proposes self x.0 x.1) (sym q) refl
          | inr a ↦ elim (Result-cases (next_open_slot self)) [
            | inr (error, b) ↦
                let q : next_proposal self ≡ (self, err error) = ground (arith, a, b) in
                subst (λ x. Proposes self x.0 x.1) (sym q) (refl, r)
            | inl (slot, b) ↦
                let batch = take (batch_count self) self.pending in
                let drained = record self { pending = drop (batch_count self) self.pending } in
                let noted = note_proposed-Noted drained slot batch in
                let lowest =
                  subst (LowestOpen self.log self.next_commit) b
                    (next_open_slot-LowestOpen self r.3) in
                elim (Result-cases (note_proposed drained slot batch).1) [
                  | inr (error, c) ↦
                      let q : next_proposal self
                          ≡ ((note_proposed drained slot batch).0, err error) =
                        ground (arith, a, b, c) in
                      let stays : (note_proposed drained slot batch).0 ≡ drained =
                        subst (Noted drained slot batch (note_proposed drained slot batch).0) c
                          noted in
                      subst (λ x. Proposes self x.0 x.1) (sym q)
                        (ap (λ x. x.log) stays, subst IsReady (sym stays) r)
                  | inl (done, c) ↦
                      let q : next_proposal self
                          ≡ ((note_proposed drained slot batch).0, ok (some (slot, batch))) =
                        ground (arith, a, b, c) in
                      let facts =
                        subst (Noted drained slot batch (note_proposed drained slot batch).0) c
                          noted in
                      let marks =
                        subst (SameMarks self.log) (sym facts.0)
                          (proposed_into-SameMarks self slot batch) in
                      subst (λ x. Proposes self x.0 x.1) (sym q)
                        (
                          ap (λ x. batch ++ x) facts.1 ∙ take-drop (batch_count self) self.pending,
                          facts.3,
                          lowest,
                          facts.0,
                          SameMarks-Retains self.log (note_proposed drained slot batch).0.log marks,
                          SameMarks-IsReady self (note_proposed drained slot batch).0 marks facts.2
                              r,
                        )
                ]
          ]
        ]
