-- ===== src/Replica/Commit.antt =====
-- src/replica.rs: `commit_ready`.
use rust_quepaxa.Prelude.{
  ℕ, zero, suc, ◌+◌, ◌-◌, ◌≤◌, ◌<◌, ◌≡◌, refl, sym, ap, ◌∙◌, subst, Bool, true, false, List, [],
  ◌∷◌, ◌++◌, Option, none, some, arith, inl, inr, Bool-cases, Option-cases, All, eqb, ltb,
}
use mathlib.Core.List.{append-nil, append_assoc}
use rust_quepaxa.Prelude.Maps.{BTreeMap, get, insert, get-insert}
use rust_quepaxa.Error.{Result, ok, err, slot_overflow}
use rust_quepaxa.Types.{Decision, SlotIndex}
use rust_quepaxa.Types.Clock.{checked_next, u64_mod, u64_max}
use rust_quepaxa.Replica.{LogSlot, ReplicaCore, is_some, commit_from, commit_ready}

module _ {V : Type 0} where
  -- A retained decision stands under its slot.
  abbrev pub Filed : BTreeMap (LogSlot V) → Type 0
  Filed log =
      (slot : SlotIndex) (entry : LogSlot V) (d : Decision V)
      → get slot log ≡ some entry
      → entry.decision ≡ some d
      → d.slot ≡ slot

  -- No slot from the frontier on is committed.
  abbrev pub NotAhead : SlotIndex → BTreeMap (LogSlot V) → Type 0
  NotAhead frontier log =
      (slot : SlotIndex) (entry : LogSlot V)
      → get slot log ≡ some entry
      → frontier ≤ slot
      → entry.committed ≡ false

  -- The decisions of the slots from the first one up to the last one, without it, in order.
  abbrev pub Consecutive : SlotIndex → List (Decision V) → SlotIndex → Type 0
  Consecutive first [] last = first ≡ last
  Consecutive first (d ∷ ds) last = (d.slot ≡ first) × Consecutive (first + 1) ds last

  -- The log holds the decision, as committed.
  abbrev pub Holds : BTreeMap (LogSlot V) → Decision V → Type 0
  Holds log d =
      (entry : LogSlot V) × (get d.slot log ≡ some entry)
      × (entry.decision ≡ some d)
      × (entry.committed ≡ true)

  -- Every decision of the first log is in the second.
  abbrev pub Retains : BTreeMap (LogSlot V) → BTreeMap (LogSlot V) → Type 0
  Retains log log' =
      (slot : SlotIndex) (entry : LogSlot V) (d : Decision V)
      → get slot log ≡ some entry
      → entry.decision ≡ some d
      → (entry' : LogSlot V) × (get slot log' ≡ some entry') × (entry'.decision ≡ some d)

  pub Retains-trans : (a b c : BTreeMap (LogSlot V)) → Retains a b → Retains b c → Retains a c
  Retains-trans a b c r t slot entry d g h =
      let middle = r slot entry d g h in t slot middle.0 d middle.1 middle.2

  abbrev pub is_decided : Option (LogSlot V) → Bool
  is_decided none = false
  is_decided (some entry) = is_some entry.decision

  -- What committing does: it takes the decided slots from the frontier on, in order and without a
  -- gap, marks them, stops at the first slot that is not decided, and leaves the slots below alone.
  abbrev pub Commits : ReplicaCore V → ReplicaCore V → List (Decision V) → Type 0
  Commits self self' ds =
      Consecutive self.next_commit ds self'.next_commit
      × All (Holds self'.log) ds
      × (is_decided (get self'.next_commit self'.log) ≡ false)
      × Filed self'.log
      × NotAhead self'.next_commit self'.log
      × ((q : SlotIndex) → q < self.next_commit → get q self'.log ≡ get q self.log)
      × Retains self.log self'.log
      × (self'.next_commit < u64_mod)

  -- It fails only where the largest slot of a u64 has been committed.
  abbrev pub CommitsOnto :
      ReplicaCore V → List (Decision V) → ReplicaCore V → Result (List (Decision V)) → Type 0
  CommitsOnto self acc self' (ok all_of) =
      (ds : List (Decision V)) × (all_of ≡ acc ++ ds) × Commits self self' ds
  CommitsOnto self acc self' (err error) =
      (error ≡ slot_overflow) × (self'.next_commit ≡ u64_max) × Retains self.log self'.log

  abbrev mark : LogSlot V → LogSlot V
  mark entry = record entry { committed = true; proposed = [] }

  abbrev marked : ReplicaCore V → LogSlot V → BTreeMap (LogSlot V)
  marked self entry = insert self.next_commit (mark entry) self.log

  abbrev stepped : ReplicaCore V → LogSlot V → ReplicaCore V
  stepped self entry = record self { log = marked self entry; next_commit = self.next_commit + 1 }

  marked-Filed :
      (self : ReplicaCore V) (entry : LogSlot V)
      → get self.next_commit self.log ≡ some entry
      → Filed self.log
      → Filed (marked self entry)
  marked-Filed self entry k f slot e d g h = elim (Bool-cases (eqb slot self.next_commit)) [
    | inl m ↦
        let at : slot ≡ self.next_commit = ground (arith, m) in
        f slot entry d (ap (λ x. get x self.log) at ∙ k)
          (ground (arith, g, h, m, get-insert self.next_commit slot (mark entry) self.log))
    | inr m ↦
        f slot e d (ground (arith, g, m, get-insert self.next_commit slot (mark entry) self.log)) h
  ]

  marked-NotAhead :
      (self : ReplicaCore V) (entry : LogSlot V)
      → NotAhead self.next_commit self.log
      → NotAhead (self.next_commit + 1) (marked self entry)
  marked-NotAhead self entry n slot e g l =
      n slot e (ground (arith, g, l, get-insert self.next_commit slot (mark entry) self.log))
        (omega (arith, l))

  marked-Retains :
      (self : ReplicaCore V) (entry : LogSlot V)
      → get self.next_commit self.log ≡ some entry
      → Retains self.log (marked self entry)
  marked-Retains self entry k slot e d g h = elim (Bool-cases (eqb slot self.next_commit)) [
    | inl m ↦
        let at : slot ≡ self.next_commit = ground (arith, m) in
        let same : e ≡ entry = ground (arith, g, ap (λ x. get x self.log) at, k) in
        (
          mark entry,
          ground (arith, m, get-insert self.next_commit slot (mark entry) self.log),
          ap (λ x. x.decision) (sym same) ∙ h,
        )
    | inr m ↦ (e, ground (arith, g, m, get-insert self.next_commit slot (mark entry) self.log), h)
  ]

  marked_below :
      (self : ReplicaCore V) (entry : LogSlot V) (q : SlotIndex)
      → q < self.next_commit
      → get q (marked self entry) ≡ get q self.log
  marked_below self entry q l =
      ground (arith, l, get-insert self.next_commit q (mark entry) self.log)

  -- One more decision in front.
  Commits-step :
      (self : ReplicaCore V) (entry : LogSlot V) (d : Decision V) (acc : List (Decision V))
      (self' : ReplicaCore V) (result : Result (List (Decision V)))
      → get self.next_commit self.log ≡ some entry
      → entry.decision ≡ some d
      → Filed self.log
      → CommitsOnto (stepped self entry) (acc ++ d ∷ []) self' result
      → CommitsOnto self acc self' result
  Commits-step self entry d acc self' (err error) k m f c = (
    c.0,
    c.1,
    Retains-trans self.log (marked self entry) self'.log (marked-Retains self entry k) c.2,
  )
  Commits-step self entry d acc self' (ok all_of) k m f c =
      let at = f self.next_commit entry d k m in
      let there = c.2.5 self.next_commit (omega arith) in
      let found : get self.next_commit (marked self entry) ≡ some (mark entry) =
        ground (arith, get-insert self.next_commit self.next_commit (mark entry) self.log) in
      (
        d ∷ c.0,
        c.1 ∙ append_assoc acc (d ∷ []) c.0,
        (
          (at, c.2.0),
          ((mark entry, ap (λ x. get x self'.log) at ∙ there ∙ found, m, refl), c.2.1),
          c.2.2,
          c.2.3,
          c.2.4,
          λ q l. c.2.5 q (omega (arith, l)) ∙ marked_below self entry q l,
          Retains-trans self.log (marked self entry) self'.log (marked-Retains self entry k) c.2.6,
          c.2.7,
        ),
      )

  commit_from-Commits :
      (fuel : ℕ) (self : ReplicaCore V) (acc : List (Decision V))
      → self.next_commit + fuel ≡ u64_mod
      → 0 < fuel
      → Filed self.log
      → NotAhead self.next_commit self.log
      → CommitsOnto self acc (commit_from fuel self acc).0 (commit_from fuel self acc).1
  unfolding commit_from checked_next
  commit_from-Commits zero self acc b p f n = absurd (omega (arith, p))
  commit_from-Commits (suc fuel) self acc b p f n =
      elim (Option-cases (get self.next_commit self.log)) [
        | inl k ↦
            let q : commit_from (suc fuel) self acc ≡ (self, ok acc) = ground (arith, k) in
            subst (λ r. CommitsOnto self acc r.0 r.1) (sym q)
              (
                [],
                sym (append-nil acc),
                (
                  refl,
                  tt,
                  ground (arith, k),
                  f,
                  n,
                  λ x l. refl,
                  λ x y d g h. (y, g, h),
                  omega (arith, b, p),
                ),
              )
        | inr (entry, k) ↦ elim (Option-cases entry.decision) [
          | inl m ↦
              let fresh : entry.committed ≡ false = n self.next_commit entry k (grind arith) in
              let q : commit_from (suc fuel) self acc ≡ (self, ok acc) =
                ground (arith, k, m, fresh) in
              subst (λ r. CommitsOnto self acc r.0 r.1) (sym q)
                (
                  [],
                  sym (append-nil acc),
                  (
                    refl,
                    tt,
                    ground (arith, k, m),
                    f,
                    n,
                    λ x l. refl,
                    λ x y d g h. (y, g, h),
                    omega (arith, b, p),
                  ),
                )
          | inr (d, m) ↦
              let fresh : entry.committed ≡ false = n self.next_commit entry k (grind arith) in
              elim (Bool-cases (ltb (self.next_commit + 1) u64_mod)) [
                | inr t ↦
                    let q : commit_from (suc fuel) self acc
                        ≡ (record self { log = marked self entry }, err slot_overflow) =
                      ground (arith, k, m, fresh, t) in
                    subst (λ r. CommitsOnto self acc r.0 r.1) (sym q)
                      (refl, ground (arith, t, b), marked-Retains self entry k)
                | inl t ↦
                    let q : commit_from (suc fuel) self acc
                        ≡ commit_from fuel (stepped self entry) (acc ++ d ∷ []) =
                      ground (arith, k, m, fresh, t) in
                    subst (λ r. CommitsOnto self acc r.0 r.1) (sym q)
                      (Commits-step self entry d acc
                        (commit_from fuel (stepped self entry) (acc ++ d ∷ [])).0
                        (commit_from fuel (stepped self entry) (acc ++ d ∷ [])).1 k m f
                        (commit_from-Commits fuel (stepped self entry) (acc ++ d ∷ [])
                          (omega (arith, b)) (ground (arith, b, t)) (marked-Filed self entry k f)
                          (marked-NotAhead self entry n)))
              ]
        ]
      ]

  -- Over a log in which decisions stand under their slots and nothing from the frontier on is
  -- committed, `commit_ready` commits the decided slots from the frontier on, in order and without
  -- a gap, and fails only where the largest slot of a u64 has been committed.
  pub commit_ready-Commits :
      (self : ReplicaCore V)
      → self.next_commit < u64_mod
      → Filed self.log
      → NotAhead self.next_commit self.log
      → CommitsOnto self [] (commit_ready self).0 (commit_ready self).1
  unfolding commit_ready
  commit_ready-Commits self b f n =
      commit_from-Commits (u64_mod - self.next_commit) self [] (omega (arith, b)) (omega (arith, b))
        f n
