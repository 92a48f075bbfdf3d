-- ===== src/Cluster/Sorting.antt =====
-- src/types.rs: `normalize_members`, `members_are_normalized` and the standard library's `sort`,
-- `dedup`, `binary_search` and `BTreeSet` on replica identifiers.
use rust_quepaxa.Prelude.{
  ℕ, suc, ◌≤◌, ◌<◌, ◌≡◌, refl, ap, ◌∙◌, ◌↔◌, Bool, true, false, ◌&&◌, ◌||◌, not, List, [], ◌∷◌,
  Option, none, some, arith, nat_eq, eqb, ltb, leb, if◌then◌else◌, length, contains, is_empty,
}
use rust_quepaxa.Types.Keys.{ReplicaId}

sort_into : ReplicaId → List ReplicaId → List ReplicaId
sort_into a [] = a ∷ []
sort_into a (b ∷ ys) = if leb a b then a ∷ b ∷ ys else b ∷ sort_into a ys

-- `sort`: any stable sort gives this list.
unfoldable pub sort : List ReplicaId → List ReplicaId
unfolding sort_into
sort [] = []
sort (a ∷ xs) = sort_into a (sort xs)

-- Removes an element that equals its predecessor.
dedup_after : ReplicaId → List ReplicaId → List ReplicaId
dedup_after a [] = []
dedup_after a (b ∷ ys) = if eqb a b then dedup_after a ys else b ∷ dedup_after b ys

unfoldable pub dedup : List ReplicaId → List ReplicaId
unfolding dedup_after
dedup [] = []
dedup (a ∷ xs) = a ∷ dedup_after a xs

-- `collect::<BTreeSet<_>>()`
unfoldable pub to_set : List ReplicaId → List ReplicaId
unfolding sort dedup
to_set xs = dedup (sort xs)

-- `windows(2).find_map(...)`: the first element that equals its successor
unfoldable pub find_duplicate : List ReplicaId → Option ReplicaId
find_duplicate [] = none
find_duplicate (a ∷ []) = none
find_duplicate (a ∷ b ∷ ys) = if eqb a b then some a else find_duplicate (b ∷ ys)

-- `windows(2).all(|pair| pair[0] < pair[1])`
unfoldable pub is_increasing : List ReplicaId → Bool
is_increasing [] = true
is_increasing (a ∷ []) = true
is_increasing (a ∷ b ∷ ys) = ltb a b && is_increasing (b ∷ ys)

unfoldable pub members_are_normalized : List ReplicaId → Bool
unfolding is_increasing
members_are_normalized members = not (is_empty members) && is_increasing members

-- `binary_search(..).is_ok()`: on an increasing list, membership.
unfoldable pub binary_search : List ReplicaId → ReplicaId → Bool
binary_search xs a = contains xs a

-- Every element is above the bound, and so on along the list.
abbrev pub Increasing : ℕ → List ReplicaId → Type 0
Increasing b [] = Unit
Increasing b (a ∷ xs) = (b < a) × Increasing a xs

-- Distinct elements.
abbrev pub Distinct : List ReplicaId → Type 0
Distinct [] = Unit
Distinct (a ∷ xs) = (contains xs a ≡ false) × Distinct xs

-- The same without strictness, which is what sorting gives.
abbrev pub Ascending : ℕ → List ReplicaId → Type 0
Ascending b [] = Unit
Ascending b (x ∷ xs) = (b ≤ x) × Ascending x xs

-- Strictly increasing, from any first element.
abbrev pub Strict : List ReplicaId → Type 0
Strict [] = Unit
Strict (x ∷ xs) = Increasing x xs

contains-sort_into :
    (a b : ReplicaId) (xs : List ReplicaId)
    → contains (sort_into b xs) a ≡ (eqb a b || contains xs a)
unfolding sort_into
contains-sort_into a b [] = refl
contains-sort_into a b (x ∷ xs) = ground (arith, contains-sort_into a b xs)

pub contains-sort : (a : ReplicaId) (xs : List ReplicaId) → contains (sort xs) a ≡ contains xs a
unfolding sort
contains-sort a [] = refl
contains-sort a (x ∷ xs) = ground (arith, contains-sort_into a x (sort xs), contains-sort a xs)

contains-dedup_after :
    (a b : ReplicaId) (xs : List ReplicaId)
    → (eqb a b || contains (dedup_after b xs) a) ≡ (eqb a b || contains xs a)
unfolding dedup_after
contains-dedup_after a b [] = refl
contains-dedup_after a b (x ∷ xs) =
    ground (arith, contains-dedup_after a b xs, contains-dedup_after a x xs)

pub contains-dedup : (a : ReplicaId) (xs : List ReplicaId) → contains (dedup xs) a ≡ contains xs a
unfolding dedup
contains-dedup a [] = refl
contains-dedup a (x ∷ xs) = contains-dedup_after a x xs

pub contains-to_set : (a : ReplicaId) (xs : List ReplicaId) → contains (to_set xs) a ≡ contains xs a
unfolding to_set
contains-to_set a xs = contains-dedup a (sort xs) ∙ contains-sort a xs

sort_into-Ascending :
    (b a : ReplicaId) (xs : List ReplicaId) → b ≤ a → Ascending b xs → Ascending b (sort_into a xs)
unfolding sort_into
sort_into-Ascending b a [] h s = (h, tt)
sort_into-Ascending b a (x ∷ xs) h s = ground (arith, sort_into-Ascending x a xs)

pub sort-Ascending : (xs : List ReplicaId) → Ascending 0 (sort xs)
unfolding sort
sort-Ascending [] = tt
sort-Ascending (x ∷ xs) = sort_into-Ascending 0 x (sort xs) (omega arith) (sort-Ascending xs)

dedup_after-Increasing :
    (b : ReplicaId) (xs : List ReplicaId) → Ascending b xs → Increasing b (dedup_after b xs)
unfolding dedup_after
dedup_after-Increasing b [] s = tt
dedup_after-Increasing b (x ∷ xs) s =
    ground (arith, dedup_after-Increasing b xs, dedup_after-Increasing x xs)

dedup-Strict : (b : ℕ) (xs : List ReplicaId) → Ascending b xs → Strict (dedup xs)
unfolding dedup
dedup-Strict b [] s = tt
dedup-Strict b (x ∷ xs) s = dedup_after-Increasing x xs s.1

pub to_set-Strict : (xs : List ReplicaId) → Strict (to_set xs)
unfolding to_set
to_set-Strict xs = dedup-Strict 0 (sort xs) (sort-Ascending xs)

not-contains-Increasing :
    (a b : ReplicaId) (xs : List ReplicaId) → a ≤ b → Increasing b xs → contains xs a ≡ false
not-contains-Increasing a b [] h s = refl
not-contains-Increasing a b (x ∷ xs) h s = ground (arith, not-contains-Increasing a x xs)

Increasing-Distinct : (b : ReplicaId) (xs : List ReplicaId) → Increasing b xs → Distinct xs
Increasing-Distinct b [] s = tt
Increasing-Distinct b (x ∷ xs) s =
    (not-contains-Increasing x x xs (omega arith) s.1, Increasing-Distinct x xs s.1)

pub Strict-Distinct : (xs : List ReplicaId) → Strict xs → Distinct xs
Strict-Distinct [] s = tt
Strict-Distinct (x ∷ xs) s =
    (not-contains-Increasing x x xs (omega arith) s, Increasing-Distinct x xs s)

pub is_increasing_iff : (xs : List ReplicaId) → (is_increasing xs ≡ true) ↔ Strict xs
unfolding is_increasing
is_increasing_iff [] = (λ _. tt, λ _. refl)
is_increasing_iff (x ∷ []) = (λ _. tt, λ _. refl)
is_increasing_iff (x ∷ y ∷ ys) = ground (arith, is_increasing_iff (y ∷ ys))

pub find_duplicate-none :
    (b : ℕ) (xs : List ReplicaId) → Ascending b xs → find_duplicate xs ≡ none → Strict xs
unfolding find_duplicate
find_duplicate-none b [] s h = tt
find_duplicate-none b (x ∷ []) s h = tt
find_duplicate-none b (x ∷ y ∷ ys) s h = ground (arith, find_duplicate-none x (y ∷ ys) s.1)

-- Insertion keeps the number of copies, so sorting a list with a repeated element leaves one.
pub find_duplicate-Strict : (xs : List ReplicaId) → Strict xs → find_duplicate xs ≡ none
unfolding find_duplicate
find_duplicate-Strict [] s = refl
find_duplicate-Strict (x ∷ []) s = refl
find_duplicate-Strict (x ∷ y ∷ ys) s = ground (arith, find_duplicate-Strict (y ∷ ys) s.1)

pub length-sort : (xs : List ReplicaId) → length (sort xs) ≡ length xs
unfolding sort
length-sort [] = refl
length-sort (x ∷ xs) = length-sort_into x (sort xs) ∙ ap suc (length-sort xs)
  where
    length-sort_into :
        (a : ReplicaId) (ys : List ReplicaId) → length (sort_into a ys) ≡ suc (length ys)
    length-sort_into a [] = refl
    length-sort_into a (y ∷ ys) = ground (arith, length-sort_into a ys)

pub find_duplicate-contains :
    (a : ReplicaId) (xs : List ReplicaId) → find_duplicate xs ≡ some a → contains xs a ≡ true
unfolding find_duplicate
find_duplicate-contains a [] h = absurd (cc)
find_duplicate-contains a (x ∷ []) h = absurd (cc)
find_duplicate-contains a (x ∷ y ∷ ys) h = ground (arith, find_duplicate-contains a (y ∷ ys))

pub dedup_nil : (xs : List ReplicaId) → is_empty (dedup xs) ≡ is_empty xs
unfolding dedup
dedup_nil [] = refl
dedup_nil (x ∷ xs) = refl

sort_into-Increasing :
    (a : ReplicaId) (xs : List ReplicaId) → Increasing a xs → sort_into a xs ≡ a ∷ xs
unfolding sort_into
sort_into-Increasing a [] s = refl
sort_into-Increasing a (x ∷ xs) s = ground arith

sort-Increasing : (b : ℕ) (xs : List ReplicaId) → Increasing b xs → sort xs ≡ xs
unfolding sort
sort-Increasing b [] s = refl
sort-Increasing b (x ∷ xs) s = rw (sort-Increasing x xs s.1) (sort_into-Increasing x xs s.1)

pub sort-Strict : (xs : List ReplicaId) → Strict xs → sort xs ≡ xs
unfolding sort
sort-Strict [] s = refl
sort-Strict (x ∷ xs) s = rw (sort-Increasing x xs s) (sort_into-Increasing x xs s)
