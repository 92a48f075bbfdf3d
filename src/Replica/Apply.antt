-- ===== src/Replica/Apply.antt =====
-- src/replica.rs: `apply_decision`, and the invariant of the pipeline.
use rust_quepaxa.Prelude.{
  ◌+◌, ◌≤◌, ◌<◌, ◌≡◌, ◌⊎◌, refl, sym, ap, ◌∙◌, subst, Bool, false, ◌&&◌, List, [], ◌∷◌, ◌++◌, some,
  Eq, ◌==◌, list_eq, list_beq_iff, arith, inl, inr, Bool-cases, Option-cases, All, eqb, ltb, length,
  has_duplicates, is_empty,
}
use rust_quepaxa.Prelude.Maps.{BTreeMap, get, insert, get-insert}
use rust_quepaxa.Error.{
  Result, ok, err, QuePaxaError, slot_overflow, conflicting_decision, resource_limit,
  pending_value_ids, empty_decision, invalid_proposal, duplicate_decision_values, tracked_value_ids,
  Result-cases,
}
use rust_quepaxa.Types.{Decision, SlotIndex}
use rust_quepaxa.Types.Clock.{u64_mod, u64_max}
use rust_quepaxa.Replica.{
  LogSlot, ReplicaCore, commit_ready, slot_or_default, settle, apply_decision, loses, requeued,
  ensure_log_capacity,
}
use rust_quepaxa.Replica.Values.{unseen, extend}
use rust_quepaxa.Replica.Commit.{
  Filed, NotAhead, Consecutive, Holds, Retains, Retains-trans, is_decided, CommitsOnto,
  commit_ready-Commits,
}

module _ {V : Type 0} where
  -- The invariant: decisions stand under their slots, nothing from the commit frontier on is
  -- committed, the slot at the frontier is not decided, and the frontier is a u64.
  abbrev pub IsReady : ReplicaCore V → Type 0
  IsReady self =
      Filed self.log
      × NotAhead self.next_commit self.log
      × (is_decided (get self.next_commit self.log) ≡ false)
      × (self.next_commit < u64_mod)

  -- The log has a decision of the slot with these values.
  abbrev pub Remembers : BTreeMap (LogSlot V) → Decision V → Type 0
  Remembers log d =
      (entry : LogSlot V) × (kept : Decision V) × (get d.slot log ≡ some entry)
      × (entry.decision ≡ some kept)
      × (kept.value_ids ≡ d.value_ids)

  -- What `apply_decision` does, by its result.
  abbrev pub Applied :
      ReplicaCore V → Decision V → ReplicaCore V → Result (List (Decision V)) → Type 0
  Applied self d self' (ok ds) =
      Consecutive self.next_commit ds self'.next_commit
      × All (Holds self'.log) ds
      × Remembers self'.log d
      × Retains self.log self'.log
      × IsReady self'
  Applied self d self' (err error) =
      Retains self.log self'.log
      × (((error ≡ slot_overflow) × (self'.next_commit ≡ u64_max))
          ⊎ ((self'.next_commit ≡ self.next_commit) × IsReady self'))

  Retains-refl : (log : BTreeMap (LogSlot V)) → Retains log log
  Retains-refl log slot entry d g h = (entry, g, h)

  abbrev opened : ReplicaCore V → SlotIndex → BTreeMap (LogSlot V)
  opened self slot = insert slot (slot_or_default (get slot self.log)) self.log

  abbrev filled : LogSlot V → Decision V → LogSlot V
  filled entry d = record entry { decision = some d }

  Consecutive-le : (a b : SlotIndex) (ds : List (Decision V)) → Consecutive a ds b → a ≤ b
  Consecutive-le a b [] c = ground (arith, c)
  Consecutive-le a b (d ∷ ds) c = omega (arith, Consecutive-le (a + 1) b ds c.1)

module _ {V : Type 0} ⦃e : Eq V⦄ where
  -- A slot that was not decided takes the decision.
  fill-Filed :
      (self : ReplicaCore V) (d : Decision V)
      → Filed self.log
      → Filed (insert d.slot (filled (slot_or_default (get d.slot self.log)) d) self.log)
  fill-Filed self d f slot entry q g h =
      let entry' = filled (slot_or_default (get d.slot self.log)) d in
      elim (Bool-cases (eqb slot d.slot)) [
        | inl m ↦ ground (arith, m, g, h, get-insert d.slot slot entry' self.log)
        | inr m ↦ f slot entry q (ground (arith, m, g, get-insert d.slot slot entry' self.log)) h
      ]

  insert-NotAhead :
      (self : ReplicaCore V) (slot : SlotIndex) (entry : LogSlot V)
      → entry.committed ≡ (slot_or_default (get slot self.log)).committed
      → NotAhead self.next_commit self.log
      → NotAhead self.next_commit (insert slot entry self.log)
  insert-NotAhead self slot entry c n at x g l = elim (Bool-cases (eqb at slot)) [
    | inr m ↦ n at x (ground (arith, m, g, get-insert slot at entry self.log)) l
    | inl m ↦
        let at_slot : at ≡ slot = ground (arith, m) in
        let is_it : x ≡ entry = ground (arith, m, g, get-insert slot at entry self.log) in
        elim (Option-cases (get slot self.log)) [
          | inl k ↦ ground (arith, is_it, c, k)
          | inr (y, k) ↦ ground (arith, is_it, c, k, n slot y k (omega (arith, l, at_slot)))
        ]
  ]

  fill-Retains :
      (self : ReplicaCore V) (d : Decision V)
      → is_decided (get d.slot self.log) ≡ false
      → Retains self.log (insert d.slot (filled (slot_or_default (get d.slot self.log)) d) self.log)
  fill-Retains self d u slot entry q g h =
      let entry' = filled (slot_or_default (get d.slot self.log)) d in
      elim (Bool-cases (eqb slot d.slot)) [
        | inr m ↦ (entry, ground (arith, m, g, get-insert d.slot slot entry' self.log), h)
        | inl m ↦
            let at : slot ≡ d.slot = ground (arith, m) in
            let here = ap (λ x. get x self.log) (sym at) ∙ g in absurd (ground (arith, here, h, u))
      ]

  -- Writing back what is there changes no entry.
  opened_same :
      (self : ReplicaCore V) (slot : SlotIndex) (entry : LogSlot V)
      → get slot self.log ≡ some entry
      → (q : SlotIndex) → get q (opened self slot) ≡ get q self.log
  opened_same self slot entry k q = elim (Bool-cases (eqb q slot)) [
    | inl m ↦
        let at : q ≡ slot = ground (arith, m) in
        ground (
          arith,
          k,
          m,
          ap (λ x. get x self.log) at,
          get-insert slot q (slot_or_default (get slot self.log)) self.log,
        )
    | inr m ↦ ground (arith, m, get-insert slot q (slot_or_default (get slot self.log)) self.log)
  ]

  opened-IsReady :
      (self : ReplicaCore V) (slot : SlotIndex) (entry : LogSlot V)
      → get slot self.log ≡ some entry
      → IsReady self
      → IsReady (record self { log = opened self slot }) × Retains self.log (opened self slot)
  opened-IsReady self slot entry k r =
      let same = opened_same self slot entry k in
      (
        (
          λ q x d g h. r.0 q x d (sym (same q) ∙ g) h,
          λ q x g l. r.1 q x (sym (same q) ∙ g) l,
          ap is_decided (same self.next_commit) ∙ r.2,
          r.3,
        ),
        λ q x d g h. (x, same q ∙ g, h),
      )

  -- The state in which `apply_decision` calls `commit_ready`.
  abbrev settled : ReplicaCore V → Decision V → List V → ReplicaCore V
  settled self d fresh =
      let entry = slot_or_default (get d.slot self.log) in
      record self {
        pending = requeued entry d ++ self.pending;
        log = insert d.slot (filled entry d) self.log;
        seen_value_ids = extend self.seen_value_ids fresh;
      }

  settled-Applied :
      (self : ReplicaCore V) (d : Decision V) (fresh : List V) (self' : ReplicaCore V)
      (result : Result (List (Decision V)))
      → is_decided (get d.slot self.log) ≡ false
      → CommitsOnto (settled self d fresh) [] self' result
      → IsReady self
      → Applied self d self' result
  settled-Applied self d fresh self' (ok ds) u c r =
      let t = c.2 in
      let entry = filled (slot_or_default (get d.slot self.log)) d in
      let found : get d.slot (settled self d fresh).log ≡ some entry =
        ground (arith, get-insert d.slot d.slot entry self.log) in
      let kept = t.6 d.slot entry d found refl in
      (
        subst (λ x. Consecutive self.next_commit x self'.next_commit) (sym c.1) t.0,
        subst (All (Holds self'.log)) (sym c.1) t.1,
        (kept.0, d, kept.1, kept.2, refl),
        Retains-trans self.log (settled self d fresh).log self'.log (fill-Retains self d u) t.6,
        (t.3, t.4, t.2, t.7),
      )
  settled-Applied self d fresh self' (err error) u c r = (
    Retains-trans self.log (settled self d fresh).log self'.log (fill-Retains self d u) c.2,
    inl (c.0, c.1),
  )

  settled_commits :
      (self : ReplicaCore V) (d : Decision V) (fresh : List V)
      → is_decided (get d.slot self.log) ≡ false
      → IsReady self
      → Applied self d
          (commit_ready (settled self d fresh)).0
          (commit_ready (settled self d fresh)).1
  settled_commits self d fresh u r =
      let mid = settled self d fresh in
      settled-Applied self d fresh (commit_ready mid).0 (commit_ready mid).1 u
        (commit_ready-Commits mid r.3 (fill-Filed self d r.0)
          (insert-NotAhead self d.slot (filled (slot_or_default (get d.slot self.log)) d) refl r.1))
        r

  refused :
      (self : ReplicaCore V) (d : Decision V) (entry : LogSlot V)
      → get d.slot self.log ≡ some entry
      → IsReady self
      → (error : QuePaxaError)
      → Applied self d (record self { log = opened self d.slot }) (err error)
  refused self d entry k r error =
      let stays = opened-IsReady self d.slot entry k r in (stays.1, inr (refl, stays.0))

  abbrev overflows : ReplicaCore V → Decision V → Bool
  overflows self d =
      loses (slot_or_default (get d.slot self.log)) d
      && ltb self.config.max_pending_values
          (length self.pending + length (requeued (slot_or_default (get d.slot self.log)) d))

  abbrev untrackable : ReplicaCore V → Decision V → Bool
  untrackable self d =
      ltb self.config.max_tracked_value_ids
        (length self.seen_value_ids + length (unseen self.seen_value_ids d.value_ids))

  settle-Applied :
      (self : ReplicaCore V) (d : Decision V) (fresh : List V)
      → IsReady self
      → Applied self d (settle self d fresh).0 (settle self d fresh).1
  unfolding settle
  settle-Applied self d fresh r = elim (Option-cases (get d.slot self.log)) [
    | inl k ↦
        let q : settle self d fresh ≡ commit_ready (settled self d fresh) = ground (arith, k) in
        subst (λ x. Applied self d x.0 x.1) (sym q)
          (settled_commits self d fresh (ground (arith, k)) r)
    | inr (entry, k) ↦ elim (Option-cases entry.decision) [
      | inl m ↦ elim (Bool-cases (overflows self d)) [
        | inl t ↦
            let q : settle self d fresh ≡ (
              record self { log = opened self d.slot },
              err (resource_limit pending_value_ids self.config.max_pending_values),
            ) =
              ground (arith, k, m, t) in
            subst (λ x. Applied self d x.0 x.1) (sym q)
              (refused self d entry k r
                (resource_limit pending_value_ids self.config.max_pending_values))
        | inr t ↦
            let q : settle self d fresh ≡ commit_ready (settled self d fresh) =
              ground (arith, k, m, t) in
            subst (λ x. Applied self d x.0 x.1) (sym q)
              (settled_commits self d fresh (ground (arith, k, m)) r)
      ]
      | inr (kept, m) ↦ elim (Bool-cases (kept.value_ids == d.value_ids)) [
        | inl t ↦
            let q : settle self d fresh ≡ (record self { log = opened self d.slot }, ok []) =
              ground (arith, k, m, t) in
            let stays = opened-IsReady self d.slot entry k r in
            subst (λ x. Applied self d x.0 x.1) (sym q)
              (
                refl,
                tt,
                (
                  entry,
                  kept,
                  opened_same self d.slot entry k d.slot ∙ k,
                  m,
                  ground (arith, t, list_beq_iff kept.value_ids d.value_ids),
                ),
                stays.1,
                stays.0,
              )
        | inr t ↦
            let q : settle self d fresh
                ≡ (record self { log = opened self d.slot }, err (conflicting_decision d.slot)) =
              ground (arith, k, m, t) in
            subst (λ x. Applied self d x.0 x.1) (sym q)
              (refused self d entry k r (conflicting_decision d.slot))
      ]
    ]
  ]

  unchanged :
      (self : ReplicaCore V) (d : Decision V) (error : QuePaxaError)
      → IsReady self
      → Applied self d self (err error)
  unchanged self d error r = (Retains-refl self.log, inr (refl, r))

  -- Either a check refuses the decision and nothing changes, or it is settled.
  apply_decision-cases :
      (self : ReplicaCore V) (d : Decision V)
      → ((error : QuePaxaError) × (apply_decision self d ≡ (self, err error)))
        ⊎ (apply_decision self d ≡ settle self d (unseen self.seen_value_ids d.value_ids))
  unfolding apply_decision
  apply_decision-cases self d = elim (Bool-cases (is_empty d.value_ids)) [
    | inl a ↦ inl (empty_decision, ground (arith, a))
    | inr a ↦ elim (Bool-cases (has_duplicates d.value_ids)) [
      | inl b ↦ inl (invalid_proposal duplicate_decision_values, ground (arith, a, b))
      | inr b ↦ elim (Bool-cases (untrackable self d)) [
        | inl c ↦ inl (
          resource_limit tracked_value_ids self.config.max_tracked_value_ids,
          ground (arith, a, b, c),
        )
        | inr c ↦ elim (Result-cases (ensure_log_capacity self d.slot)) [
          | inl (done, h) ↦ inr (ground (arith, a, b, c, h))
          | inr (error, h) ↦ inl (error, ground (arith, a, b, c, h))
        ]
      ]
    ]
  ]

  -- `apply_decision` keeps the invariant of the pipeline (decisions under their slots, nothing
  -- committed from the commit frontier on, the frontier not decided). Where it succeeds it
  -- commits the decided slots from the frontier on, in order and without a gap, and holds a
  -- decision with the given values; where it fails the frontier stays, unless the largest slot
  -- of a u64 has been committed. On every branch the decisions of the log stay.
  pub apply_decision-Applied :
      (self : ReplicaCore V) (d : Decision V)
      → IsReady self
      → Applied self d (apply_decision self d).0 (apply_decision self d).1
  apply_decision-Applied self d r = elim (apply_decision-cases self d) [
    | inl (error, q) ↦ subst (λ x. Applied self d x.0 x.1) (sym q) (unchanged self d error r)
    | inr q ↦
        subst (λ x. Applied self d x.0 x.1) (sym q)
          (settle-Applied self d (unseen self.seen_value_ids d.value_ids) r)
  ]
