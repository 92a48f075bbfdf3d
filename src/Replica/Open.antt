-- ===== src/Replica/Open.antt =====
-- src/replica.rs: `next_open_slot`.
use rust_quepaxa.Prelude.{
  ℕ, zero, suc, ◌+◌, ◌-◌, ◌≤◌, ◌<◌, ◌≡◌, sym, subst, true, false, arith, inl, inr, Bool-cases, eqb,
  ltb,
}
use rust_quepaxa.Prelude.Maps.{BTreeMap, get}
use rust_quepaxa.Error.{Result, ok, err, slot_overflow}
use rust_quepaxa.Types.{SlotIndex}
use rust_quepaxa.Types.Clock.{checked_next, u64_mod}
use rust_quepaxa.Replica.{LogSlot, ReplicaCore, is_claimed, next_open_from, next_open_slot}

module _ {V : Type 0} where
  -- Every slot from `slot` to the end, without it, is claimed.
  abbrev pub Claimed : BTreeMap (LogSlot V) → SlotIndex → SlotIndex → Type 0
  Claimed log slot end = (q : SlotIndex) → slot ≤ q → q < end → is_claimed (get q log) ≡ true

  -- The lowest slot from `slot` on that is not claimed, or none below 2^64.
  abbrev pub LowestOpen : BTreeMap (LogSlot V) → SlotIndex → Result SlotIndex → Type 0
  LowestOpen log slot (ok found) =
      (slot ≤ found) × (is_claimed (get found log) ≡ false) × Claimed log slot found
  LowestOpen log slot (err error) = Claimed log slot u64_mod

  Claimed-extends :
      (log : BTreeMap (LogSlot V)) (slot end : SlotIndex)
      → is_claimed (get slot log) ≡ true
      → Claimed log (slot + 1) end
      → Claimed log slot end
  Claimed-extends log slot end h c q l m = elim (Bool-cases (eqb q slot)) [
    | inl k ↦
        let p : q ≡ slot = ground (arith, k) in subst (λ x. is_claimed (get x log) ≡ true) (sym p) h
    | inr k ↦ c q (ground (arith, k, l)) m
  ]

  LowestOpen-extends :
      (log : BTreeMap (LogSlot V)) (slot : SlotIndex) (found : Result SlotIndex)
      → is_claimed (get slot log) ≡ true
      → LowestOpen log (slot + 1) found
      → LowestOpen log slot found
  LowestOpen-extends log slot (ok found) h o =
      (omega (arith, o.0), o.1, Claimed-extends log slot found h o.2)
  LowestOpen-extends log slot (err error) h o = Claimed-extends log slot u64_mod h o

  next_open_from-LowestOpen :
      (fuel : ℕ) (log : BTreeMap (LogSlot V)) (slot : SlotIndex)
      → slot + fuel ≡ u64_mod
      → LowestOpen log slot (next_open_from fuel log slot)
  unfolding next_open_from checked_next
  next_open_from-LowestOpen zero log slot h = λ q l m. absurd (omega (arith, h, l, m))
  next_open_from-LowestOpen (suc fuel) log slot h = elim (Bool-cases (is_claimed (get slot log))) [
    | inr k ↦
        let p : next_open_from (suc fuel) log slot ≡ ok slot = ground (arith, k) in
        subst (LowestOpen log slot) (sym p) (grind arith, k, λ q l m. absurd (omega (arith, l, m)))
    | inl k ↦ elim (Bool-cases (ltb (slot + 1) u64_mod)) [
      | inl m ↦
          let p : next_open_from (suc fuel) log slot ≡ next_open_from fuel log (slot + 1) =
            ground (arith, k, m) in
          subst (LowestOpen log slot) (sym p) (
            LowestOpen-extends log slot _ k
              (next_open_from-LowestOpen fuel log (slot + 1) (omega (arith, h))))
      | inr m ↦
          let p : next_open_from (suc fuel) log slot ≡ err slot_overflow = ground (arith, k, m) in
          let last : u64_mod ≤ slot + 1 = ground (arith, m) in
          subst (LowestOpen log slot) (sym p)
            (Claimed-extends log slot u64_mod k (λ q l n. absurd (omega (arith, l, n, last))))
    ]
  ]

  -- `next_open_slot` returns the lowest slot from the commit frontier on that is neither decided nor
  -- proposed into; it fails only where there is none below 2^64.
  pub next_open_slot-LowestOpen :
      (self : ReplicaCore V)
      → self.next_commit < u64_mod
      → LowestOpen self.log self.next_commit (next_open_slot self)
  unfolding next_open_slot
  next_open_slot-LowestOpen self h =
      next_open_from-LowestOpen (u64_mod - self.next_commit) self.log self.next_commit
        (omega (arith, h))
