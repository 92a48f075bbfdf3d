-- ===== src/Prelude/Sorting.antt =====
-- `sort_by`: a stable sort by a test of two items, and that it reorders.
use mathlib.Core.Bool.{Bool}
use mathlib.Core.List.{List, [], ◌∷◌, Perm}
use mathlib.Core.List.Perm
use mathlib.Core.Logic.{inl, inr}
use rust_quepaxa.Prelude.Tests.{if◌then◌else◌, Bool-cases}

module _ {A : Type 0} (at_most : A → A → Bool) where
  abbrev pub sort_into : A → List A → List A
  sort_into a [] = a ∷ []
  sort_into a (b ∷ ys) = if at_most a b then a ∷ b ∷ ys else b ∷ sort_into a ys

  unfoldable pub sort_by : List A → List A
  sort_by [] = []
  sort_by (a ∷ xs) = sort_into a (sort_by xs)

  sort_into-Perm : (a : A) (xs : List A) → Perm (sort_into a xs) (a ∷ xs)
  sort_into-Perm a [] = Perm.refl (a ∷ [])
  sort_into-Perm a (b ∷ ys) = elim (Bool-cases (at_most a b)) [
    | inl e ↦ rw e (Perm.refl (a ∷ b ∷ ys))
    | inr e ↦ rw e (Perm.trans (Perm.cons b (sort_into-Perm a ys)) (Perm.swap a b ys))
  ]

  pub sort_by-Perm : (xs : List A) → Perm (sort_by xs) xs
  unfolding sort_by
  sort_by-Perm [] = Perm.refl []
  sort_by-Perm (a ∷ xs) = Perm.trans (sort_into-Perm a (sort_by xs)) (Perm.cons a (sort_by-Perm xs))
