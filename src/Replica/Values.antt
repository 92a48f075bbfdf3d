-- ===== src/Replica/Values.antt =====
-- src/replica.rs: the queue of pending values and the sets of value IDs.
--
-- A `BTreeSet` of values is a list without repetitions; the code never depends on its order.
use rust_quepaxa.Prelude.{◌||◌, not, List, [], ◌∷◌, ◌++◌, Eq, contains, if◌then◌else◌, keep}

module _ {V : Type 0} ⦃e : Eq V⦄ where
  -- The filter of `enqueue`: values that are neither in `seen` nor in `unique`.
  unfoldable pub fresh_values : List V → List V → List V → List V
  fresh_values seen unique [] = []
  fresh_values seen unique (x ∷ xs) =
      let kept = fresh_values seen (x ∷ unique) xs in
      let skipped = fresh_values seen unique xs in
      if contains seen x || contains unique x then skipped else x ∷ kept

  -- `filter(|value_id| !seen.contains(value_id))`
  abbrev pub unseen : List V → List V → List V
  unseen seen ids = keep (λ x. not (contains seen x)) ids

  -- `extend`, with values that the set does not hold
  abbrev pub extend : List V → List V → List V
  extend seen ids = ids ++ seen
