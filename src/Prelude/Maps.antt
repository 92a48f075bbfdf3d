-- ===== src/Prelude/Maps.antt =====
-- `BTreeMap` over a `u64` key: an association list in increasing order of its keys.
use Prim.Native.Nat.{ℕ, suc, ◌≤◌, ◌<◌, max}
use mathlib.Core.Path.{◌≡◌, refl}
use mathlib.Core.Bool.{Bool, true, false, ◌||◌}
use mathlib.Core.List.{List, [], ◌∷◌}
use mathlib.Core.Option.{Option, none, some}
use native.Mathlib.Omega.{arith}
use mathlib.Core.Logic.{inl, inr}
use rust_quepaxa.Prelude.Tests.{ltb, eqb, if◌then◌else◌, Bool-cases}
use rust_quepaxa.Prelude.Lists.{length}

abbrev pub BTreeMap {ℓ} : Type ℓ → Type ℓ
BTreeMap X = List (ℕ × X)

module _ {ℓ} {X : Type ℓ} where
  unfoldable pub get : ℕ → BTreeMap X → Option X
  get k [] = none
  get k ((j, x) ∷ m) = if eqb k j then some x else get k m

  unfoldable pub contains_key : ℕ → BTreeMap X → Bool
  contains_key k [] = false
  contains_key k ((j, x) ∷ m) = eqb k j || contains_key k m

  unfoldable pub insert : ℕ → X → BTreeMap X → BTreeMap X
  insert k x [] = (k, x) ∷ []
  insert k x ((j, y) ∷ m) =
      if eqb k j then (k, x) ∷ m else if ltb k j then (k, x) ∷ (j, y) ∷ m else (j, y) ∷ insert k x m

  -- `retain`, by a test of the key
  unfoldable pub retain : (ℕ → Bool) → BTreeMap X → BTreeMap X
  retain p [] = []
  retain p ((j, x) ∷ m) = if p j then (j, x) ∷ retain p m else retain p m

  abbrev pub keys : BTreeMap X → List ℕ
  keys [] = []
  keys ((j, x) ∷ m) = j ∷ keys m

  abbrev pub values : BTreeMap X → List X
  values [] = []
  values ((j, x) ∷ m) = x ∷ values m

  -- `iter().map` on the values, keys kept
  abbrev pub map_values {κ} : {Y : Type κ} → (X → Y) → BTreeMap X → BTreeMap Y
  map_values f [] = []
  map_values f ((j, x) ∷ m) = (j, f x) ∷ map_values f m

  -- Every key is above `k`.
  abbrev pub Above : ℕ → BTreeMap X → Type 0
  Above k [] = Unit
  Above k ((j, x) ∷ m) = (k < j) × Above k m

  abbrev pub IsSorted : BTreeMap X → Type 0
  IsSorted [] = Unit
  IsSorted ((j, x) ∷ m) = Above j m × IsSorted m

  -- Every entry satisfies `P`.
  abbrev pub Entries {κ} : (ℕ → X → Type κ) → BTreeMap X → Type κ
  Entries P [] = Unit
  Entries P ((j, x) ∷ m) = P j x × Entries P m

  pub get-insert :
      (k q : ℕ) (x : X) (m : BTreeMap X)
      → get q (insert k x m) ≡ (if eqb q k then some x else get q m)
  unfolding get insert
  get-insert k q x [] = refl
  get-insert k q x ((j, y) ∷ m) = ground (arith, get-insert k q x m)

  pub get-retain :
      (p : ℕ → Bool) (q : ℕ) (m : BTreeMap X) → get q (retain p m) ≡ (if p q then get q m else none)
  unfolding get retain
  get-retain p q [] = ground arith
  get-retain p q ((j, y) ∷ m) = ground (arith, get-retain p q m)

  pub contains_key-get :
      (k : ℕ) (m : BTreeMap X) → contains_key k m ≡ elim (get k m) [ none ↦ false | some x ↦ true ]
  unfolding contains_key get
  contains_key-get k [] = refl
  contains_key-get k ((j, y) ∷ m) = ground (arith, contains_key-get k m)

  pub get_missing : (k : ℕ) (m : BTreeMap X) → contains_key k m ≡ false → get k m ≡ none
  unfolding get contains_key
  get_missing k [] h = refl
  get_missing k ((j, y) ∷ m) h = ground (arith, get_missing k m)

  pub Above-insert : (b k : ℕ) (x : X) (m : BTreeMap X) → b < k → Above b m → Above b (insert k x m)
  unfolding insert
  Above-insert b k x [] h a = (h, tt)
  Above-insert b k x ((j, y) ∷ m) h a = ground (arith, Above-insert b k x m h a.1)

  Above-imp : (b c : ℕ) (m : BTreeMap X) → b ≤ c → Above c m → Above b m
  Above-imp b c [] h a = tt
  Above-imp b c ((j, y) ∷ m) h a = (omega arith, Above-imp b c m h a.1)

  Above-retain : (b : ℕ) (p : ℕ → Bool) (m : BTreeMap X) → Above b m → Above b (retain p m)
  unfolding retain
  Above-retain b p [] a = tt
  Above-retain b p ((j, y) ∷ m) a = ground (arith, Above-retain b p m a.1)

  pub insert-IsSorted : (k : ℕ) (x : X) (m : BTreeMap X) → IsSorted m → IsSorted (insert k x m)
  unfolding insert
  insert-IsSorted k x [] s = (tt, tt)
  insert-IsSorted k x ((j, y) ∷ m) s =
      ground (arith, insert-IsSorted k x m s.1, Above-insert j k x m, Above-imp k j m)

  pub retain-IsSorted : (p : ℕ → Bool) (m : BTreeMap X) → IsSorted m → IsSorted (retain p m)
  unfolding retain
  retain-IsSorted p [] s = tt
  retain-IsSorted p ((j, y) ∷ m) s = ground (arith, retain-IsSorted p m s.1, Above-retain j p m s.0)

  pub not-contains_key-Above :
      (k b : ℕ) (m : BTreeMap X) → k ≤ b → Above b m → contains_key k m ≡ false
  unfolding contains_key
  not-contains_key-Above k b [] h a = refl
  not-contains_key-Above k b ((j, y) ∷ m) h a = ground (arith, not-contains_key-Above k b m h a.1)

  pub length-insert :
      (k : ℕ) (x : X) (m : BTreeMap X)
      → IsSorted m
      → length (insert k x m) ≡ (if contains_key k m then length m else suc (length m))
  unfolding insert contains_key
  length-insert k x [] s = refl
  length-insert k x ((j, y) ∷ m) s =
      ground (arith, length-insert k x m s.1, not-contains_key-Above k j m)

  pub length-retain : (p : ℕ → Bool) (m : BTreeMap X) → length (retain p m) ≤ length m
  unfolding retain
  length-retain p [] = omega arith
  length-retain p ((j, y) ∷ m) = ground (arith, length-retain p m)

  pub length-map_values {κ} :
      {Y : Type κ} (f : X → Y) (m : BTreeMap X) → length (map_values f m) ≡ length m
  length-map_values f [] = refl
  length-map_values f ((j, x) ∷ m) = omega (arith, length-map_values f m)

  pub Above-floor : (b c : ℕ) (m : BTreeMap X) → Above b m → Above (max b c) (retain (ltb c) m)
  unfolding retain
  Above-floor b c [] a = tt
  Above-floor b c ((j, y) ∷ m) a = ground (arith, Above-floor b c m a.1)

  module _ {κ} (P : ℕ → X → Type κ) where
    pub Entries-insert :
        (k : ℕ) (x : X) (m : BTreeMap X) → P k x → Entries P m → Entries P (insert k x m)
    unfolding insert
    Entries-insert k x [] h a = (h, tt)
    Entries-insert k x ((j, y) ∷ m) h a = ground (arith, Entries-insert k x m h a.1)

    pub Entries-retain : (p : ℕ → Bool) (m : BTreeMap X) → Entries P m → Entries P (retain p m)
    unfolding retain
    Entries-retain p [] a = tt
    Entries-retain p ((j, y) ∷ m) a = ground (arith, Entries-retain p m a.1)

    pub Entries-get : (k : ℕ) (x : X) (m : BTreeMap X) → Entries P m → get k m ≡ some x → P k x
    unfolding get
    Entries-get k x [] a h = absurd (cc)
    Entries-get k x ((j, y) ∷ m) a h = ground (arith, Entries-get k x m a.1)

  module _ {κ μ} (P : ℕ → X → Type κ) (Q : ℕ → X → Type μ) where
    -- What is kept has passed the test.
    pub Entries-kept :
        (p : ℕ → Bool) (m : BTreeMap X)
        → ((k : ℕ) (x : X) → P k x → p k ≡ true → Q k x)
        → Entries P m
        → Entries Q (retain p m)
    unfolding retain
    Entries-kept p [] f a = tt
    Entries-kept p ((j, y) ∷ m) f a = elim (Bool-cases (p j)) [
      | inl e ↦ rw e (f j y a.0 e, Entries-kept p m f a.1)
      | inr e ↦ rw e (Entries-kept p m f a.1)
    ]

    pub Entries-imp :
        (m : BTreeMap X) → ((k : ℕ) (x : X) → P k x → Q k x) → Entries P m → Entries Q m
    Entries-imp [] f a = tt
    Entries-imp ((j, y) ∷ m) f a = (f j y a.0, Entries-imp m f a.1)
