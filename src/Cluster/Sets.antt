-- ===== src/Cluster/Sets.antt =====
-- The size of a `BTreeSet` of replica identifiers against the list that it was collected from.
use rust_quepaxa.Prelude.{
  suc, ◌≤◌, ◌<◌, ◌≡◌, true, List, [], ◌∷◌, arith, nat_eq, ◌==◌, length, tally, tally-le-length,
  contains, Bool-cases, inl, inr, ◌∙◌, sym,
}
use rust_quepaxa.Types.Keys.{ReplicaId}
use rust_quepaxa.Cluster.Sorting.{to_set, Distinct, contains-to_set}
use rust_quepaxa.Cluster.Quorums.{length-le-tally, all_of, set-Distinct}

-- A list without repetitions is no longer than one that holds its elements.
pub subset_length :
    (vs xs : List ReplicaId)
    → Distinct vs
    → ((a : ReplicaId) → contains vs a ≡ true → contains xs a ≡ true)
    → length vs ≤ length xs
subset_length vs xs d h =
    omega
      (arith, length-le-tally vs xs d (all_of (contains xs) vs h), tally-le-length (contains vs) xs)

to_set-length : (xs : List ReplicaId) → length (to_set xs) ≤ length xs
to_set-length xs =
    subset_length (to_set xs) xs (set-Distinct xs) (λ a e. sym (contains-to_set a xs) ∙ e)

-- Without its first element the set is at most one smaller.
to_set_cons :
    (x : ReplicaId) (xs : List ReplicaId) → length (to_set (x ∷ xs)) ≤ suc (length (to_set xs))
to_set_cons x xs =
    subset_length (to_set (x ∷ xs)) (x ∷ to_set xs) (set-Distinct (x ∷ xs))
      (λ a e. ground (arith, e, contains-to_set a (x ∷ xs), contains-to_set a xs))

-- A repeated element is lost.
to_set_repeated :
    (x : ReplicaId) (xs : List ReplicaId)
    → contains xs x ≡ true
    → length (to_set (x ∷ xs)) ≤ length xs
to_set_repeated x xs h =
    subset_length (to_set (x ∷ xs)) xs (set-Distinct (x ∷ xs))
      (λ a e. ground (arith, e, h, contains-to_set a (x ∷ xs)))

pub to_set-length-Distinct : (xs : List ReplicaId) → length (to_set xs) ≡ length xs → Distinct xs
to_set-length-Distinct [] e = tt
to_set-length-Distinct (x ∷ xs) e = elim (Bool-cases (contains xs x)) [
  | inl h ↦ absurd (omega (arith, e, to_set_repeated x xs h))
  | inr h ↦ (h, to_set-length-Distinct xs (omega (arith, e, to_set_cons x xs, to_set-length xs)))
]

pub Distinct-to_set-length : (xs : List ReplicaId) → Distinct xs → length (to_set xs) ≡ length xs
Distinct-to_set-length xs d =
    omega
      (arith, to_set-length xs, subset_length xs (to_set xs) d (λ a e. contains-to_set a xs ∙ e))

tally-contains :
    (a : ReplicaId) (xs : List ReplicaId)
    → contains xs a ≡ true
    → 0 < tally (λ candidate. candidate == a) xs
tally-contains a [] h = absurd cc
tally-contains a (x ∷ xs) h = ground (arith, h, tally-contains a xs)

pub once-Distinct :
    (xs : List ReplicaId)
    → ((a : ReplicaId) → tally (λ candidate. candidate == a) xs ≤ 1)
    → Distinct xs
once-Distinct [] h = tt
once-Distinct (x ∷ xs) h = elim (Bool-cases (contains xs x)) [
  | inl k ↦ absurd (ground (arith, h x, tally-contains x xs k))
  | inr k ↦ (k, once-Distinct xs (λ a. ground (arith, h a)))
]
