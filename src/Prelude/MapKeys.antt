-- ===== src/Prelude/MapKeys.antt =====
-- The keys of a map, and what the operations of `Prelude.Maps` do to them.
use Prim.Native.Nat.{ℕ}
use mathlib.Core.Path.{◌≡◌, refl, ap}
use mathlib.Core.Bool.{Bool, true, false}
use mathlib.Core.List.{List, [], ◌∷◌}
use native.Mathlib.Omega.{arith}
use rust_quepaxa.Prelude.Tests.{ltb, leb, eqb, if◌then◌else◌}
use rust_quepaxa.Prelude.Lists.{keep, any}
use rust_quepaxa.Prelude.Maps.{
  BTreeMap, contains_key, insert, retain, keys, map_values, IsSorted, Above, not-contains_key-Above,
}

-- The position of a key among sorted keys.
abbrev pub insert_key : ℕ → List ℕ → List ℕ
insert_key k [] = k ∷ []
insert_key k (j ∷ js) =
    if eqb k j then k ∷ js else if ltb k j then k ∷ j ∷ js else j ∷ insert_key k js

module _ {ℓ} {X : Type ℓ} where
  pub keys-retain : (p : ℕ → Bool) (m : BTreeMap X) → keys (retain p m) ≡ keep p (keys m)
  unfolding retain
  keys-retain p [] = refl
  keys-retain p ((j, y) ∷ m) = ground (arith, keys-retain p m)

  pub contains_key-keys : (k : ℕ) (m : BTreeMap X) → contains_key k m ≡ any (eqb k) (keys m)
  unfolding contains_key
  contains_key-keys k [] = refl
  contains_key-keys k ((j, y) ∷ m) = ground (arith, contains_key-keys k m)

  pub keys-insert : (k : ℕ) (x : X) (m : BTreeMap X) → keys (insert k x m) ≡ insert_key k (keys m)
  unfolding insert
  keys-insert k x [] = refl
  keys-insert k x ((j, y) ∷ m) = ground (arith, keys-insert k x m)

  pub keys-insert_present :
      (k : ℕ) (x : X) (m : BTreeMap X)
      → IsSorted m
      → contains_key k m ≡ true
      → keys (insert k x m) ≡ keys m
  unfolding insert contains_key
  keys-insert_present k x [] s h = absurd (cc)
  keys-insert_present k x ((j, y) ∷ m) s h =
      ground (arith, keys-insert_present k x m s.1, not-contains_key-Above k j m)

  pub any-keys-Above : (b : ℕ) (m : BTreeMap X) → Above b m → any (λ k. leb k b) (keys m) ≡ false
  any-keys-Above b [] a = refl
  any-keys-Above b ((j, x) ∷ m) a = ground (arith, any-keys-Above b m a.1)

pub keys-map_values {ℓ κ} :
    {X : Type ℓ} {Y : Type κ} (f : X → Y) (m : BTreeMap X) → keys (map_values f m) ≡ keys m
keys-map_values f [] = refl
keys-map_values f ((j, x) ∷ m) = ap (λ ks. j ∷ ks) (keys-map_values f m)
