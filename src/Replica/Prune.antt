-- ===== src/Replica/Prune.antt =====
-- src/replica.rs: `prune_through`.
use rust_quepaxa.Prelude.{
  ◌≤◌, ◌<◌, ◌≡◌, refl, [], ◌∷◌, Option, none, some, nat_eq, arith, inl, inr, Bool-cases,
  Option-cases, eqb, if◌then◌else◌,
}
use rust_quepaxa.Prelude.Maps.{BTreeMap, get, IsSorted, get_missing, not-contains_key-Above}
use rust_quepaxa.Types.{SlotIndex}
use rust_quepaxa.Replica.{
  LogSlot, ReplicaCore, prune_through, retain_log, is_kept, committed_through,
}
use rust_quepaxa.Replica.Apply.{IsReady}

module _ {V : Type 0} where
  -- What is left of an entry.
  abbrev pub kept_at : SlotIndex → SlotIndex → Option (LogSlot V) → Option (LogSlot V)
  kept_at through slot none = none
  kept_at through slot (some entry) = if is_kept through slot entry then some entry else none

  get-retain_log :
      (through q : SlotIndex) (log : BTreeMap (LogSlot V))
      → IsSorted log
      → get q (retain_log through log) ≡ kept_at through q (get q log)
  unfolding get retain_log
  get-retain_log through q [] s = refl
  get-retain_log through q ((slot, entry) ∷ log) s = elim (Bool-cases (eqb q slot)) [
    | inr m ↦ ground (arith, m, get-retain_log through q log s.1)
    | inl m ↦
        let at : q ≡ slot = ground (arith, m) in
        let absent =
          get_missing q log (not-contains_key-Above q slot log (omega (arith, at)) s.0) in
        ground (arith, m, at, absent, get-retain_log through q log s.1)
  ]

  -- For a sorted log in the invariant with the checkpoint below the commit frontier, every slot
  -- after `prune_through` reads as before, or as absent where it is committed, not genesis, and
  -- at or below the new checkpoint; the checkpoint does not move back and stays below the
  -- frontier, and the invariant is kept.
  pub prune_through-kept_at :
      (self : ReplicaCore V) (slot q : SlotIndex)
      → IsReady self
      → IsSorted self.log
      → self.checkpointed_through < self.next_commit
      → (get q (prune_through self slot).log
          ≡ kept_at (prune_through self slot).checkpointed_through q (get q self.log))
        × (self.checkpointed_through ≤ (prune_through self slot).checkpointed_through)
        × ((prune_through self slot).checkpointed_through < (prune_through self slot).next_commit)
        × IsReady (prune_through self slot)
  unfolding prune_through committed_through
  prune_through-kept_at self slot q r s c =
      let through = (prune_through self slot).checkpointed_through in
      let at = λ (q : SlotIndex). get-retain_log through q self.log s in
      (
        at q,
        omega arith,
        omega (arith, c),
        (
          λ q entry d g h. elim (Option-cases (get q self.log)) [
            | inl k ↦ absurd (ground (arith, at q, k, g))
            | inr (x, k) ↦ r.0 q x d k (ground (arith, at q, k, g, h))
          ],
          λ q entry g l. elim (Option-cases (get q self.log)) [
            | inl k ↦ absurd (ground (arith, at q, k, g))
            | inr (x, k) ↦ ground (arith, at q, k, g, r.1 q x k l)
          ],
          elim (Option-cases (get self.next_commit self.log)) [
            | inl k ↦ ground (arith, at self.next_commit, k)
            | inr (x, k) ↦ ground (arith, at self.next_commit, k, r.2)
          ],
          r.3,
        ),
      )
