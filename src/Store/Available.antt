-- ===== src/Store/Available.antt =====
-- src/store.rs: what `ensure_available` promises a recorder.
use rust_quepaxa.Prelude.{
  ℕ, ◌≡◌, refl, sym, ◌∙◌, ap, subst, Bool, true, false, not, ◌||◌, List, [], ◌∷◌, arith, nat_eq,
  eqb, contains, keep, all, eqb_iff, is_empty, Bool-cases, inl, inr,
}
use rust_quepaxa.Prelude.Maps.{BTreeMap, insert, contains_key}
use rust_quepaxa.Error.{Result, ok, err}
use rust_quepaxa.Cluster.Sorting.{contains-to_set}
use rust_quepaxa.Store.{
  ValueStore, ValueFetcher, FetchingAvailability, missing_values, store_fetched, require_stored,
  store_and_check, ensure_available, insert_in_memory, in_memory_values,
}

-- An insertion adds the value and keeps the others.
pub record IsGrowing {B S : Type 0} (values : ValueStore B S) : Type 0 where
  pub grows :
      (s : S) (v w : ℕ) (b : B)
      → values.has_value (values.insert_value s w b) v ≡ (eqb v w || values.has_value s v)

contains_key-insert :
    {B : Type 0} (v w : ℕ) (b : B) (m : BTreeMap B)
    → contains_key v (insert w b m) ≡ (eqb v w || contains_key v m)
unfolding contains_key insert
contains_key-insert v w b [] = refl
contains_key-insert v w b ((j, x) ∷ m) = ground (arith, contains_key-insert v w b m)

already :
    {B : Type 0} (v w : ℕ) (m : BTreeMap B)
    → contains_key w m ≡ true
    → contains_key v m ≡ (eqb v w || contains_key v m)
already v w m y = elim (Bool-cases (eqb v w)) [
  | inl same ↦ rw same (subst (λ x. contains_key x m ≡ true) (sym ((eqb_iff v w).0 same)) y)
  | inr n ↦ rw n refl
]

pub in_memory-IsGrowing : {B : Type 0} → IsGrowing (in_memory_values {B = B})
unfolding insert_in_memory
in_memory-IsGrowing = record {
  grows = λ s v w b. elim (Bool-cases (contains_key w s.batches)) [
    | inl y ↦ rw y (already v w s.batches y)
    | inr n ↦ ground (arith, n, contains_key-insert v w b s.batches)
  ];
}

-- A value among those that all satisfy a test.
all-contains :
    (p : ℕ → Bool) (v : ℕ) (vs : List ℕ) → all p vs ≡ true → contains vs v ≡ true → p v ≡ true
all-contains p v [] a c = absurd cc c
all-contains p v (w ∷ vs) a c = elim (Bool-cases (eqb v w)) [
  | inl y ↦ subst (λ x. p x ≡ true) (sym ((eqb_iff v w).0 y)) (ground (arith, a))
  | inr n ↦ all-contains p v vs (ground (arith, a)) (ground (arith, n, c))
]

empty-contains : (vs : List ℕ) (v : ℕ) → is_empty vs ≡ true → contains vs v ≡ false
empty-contains [] v h = refl
empty-contains (w ∷ vs) v h = absurd cc h

contains-keep :
    (p : ℕ → Bool) (v : ℕ) (vs : List ℕ)
    → contains vs v ≡ true
    → p v ≡ true
    → contains (keep p vs) v ≡ true
contains-keep p v [] c h = c
contains-keep p v (w ∷ vs) c h = elim (Bool-cases (eqb v w)) [
  | inl y ↦
      let kept : p w ≡ true = subst (λ x. p x ≡ true) ((eqb_iff v w).0 y) h in
      ground (arith, y, kept)
  | inr n ↦ let later = contains-keep p v vs (ground (arith, n, c)) h in ground (arith, n, later)
]

module _ {B S F : Type 0} (values : ValueStore B S) (source : ValueFetcher B F)
    (growing : IsGrowing values) where
  store_fetched_keeps :
      (requested returned : List ℕ) (store : S) (fetched : List (ℕ × B)) (v : ℕ)
      → values.has_value store v ≡ true
      → values.has_value (store_fetched values source requested returned store fetched).0 v ≡ true
  unfolding store_fetched
  store_fetched_keeps requested returned store [] v h = h
  store_fetched_keeps requested returned store ((w, b) ∷ fetched) v h =
      elim (Bool-cases (not (contains requested w) || contains returned w)) [
        | inl y ↦ ground (arith, y, h)
        | inr n ↦
            let here : values.has_value (values.insert_value store w b) v ≡ true =
              ground (arith, growing.grows store v w b, h) in
            ground (
              arith,
              n,
              store_fetched_keeps requested (w ∷ returned) (values.insert_value store w b) fetched v
                  here,
            )
      ]

  -- After a success every requested value is stored, and what was stored stays.
  abbrev pub Available : List ℕ → S → FetchingAvailability S F × Result (Unit {0}) → Type 0
  Available value_ids store s =
      (s.1 ≡ ok tt → (v : ℕ) → contains value_ids v ≡ true → values.has_value s.0.store v ≡ true)
      × ((v : ℕ) → values.has_value store v ≡ true → values.has_value s.0.store v ≡ true)

  missing_or_stored :
      (store : S) (value_ids : List ℕ) (v : ℕ)
      → contains value_ids v ≡ true
      → values.has_value store v ≡ false
      → contains (missing_values values source store value_ids) v ≡ true
  unfolding missing_values
  missing_or_stored store value_ids v c n =
      contains-to_set v (keep (λ w. not (values.has_value store w)) value_ids)
      ∙ contains-keep (λ w. not (values.has_value store w)) v value_ids c (ap not n)

  -- Over the outcome of storing what has been fetched.
  checked-Available :
      (fetcher : F) (store : S) (value_ids missing : List ℕ) (s : S × Result (Unit {0}))
      → ((v : ℕ)
          → contains value_ids v ≡ true
          → values.has_value store v ≡ false
          → contains missing v ≡ true)
      → ((v : ℕ) → values.has_value store v ≡ true → values.has_value s.0 v ≡ true)
      → Available value_ids store (
        record { store = (require_stored values source missing s).0; fetcher = fetcher },
        (require_stored values source missing s).1,
      )
  checked-Available fetcher store value_ids missing (stored, err error) m k = (λ h. absurd cc h, k)
  checked-Available fetcher store value_ids missing (stored, ok _) m k = (
    λ h v c. elim (Bool-cases (values.has_value store v)) [
      | inl y ↦ k v y
      | inr n ↦ elim (Bool-cases (all (values.has_value stored) missing)) [
        | inl a ↦ all-contains (values.has_value stored) v missing a (m v c n)
        | inr b ↦ absurd (ground (arith, b, h))
      ]
    ],
    k,
  )

  fetched-Available :
      (store : S) (value_ids missing : List ℕ) (s : F × Result (List (ℕ × B)))
      → ((v : ℕ)
          → contains value_ids v ≡ true
          → values.has_value store v ≡ false
          → contains missing v ≡ true)
      → Available value_ids store (store_and_check values source store missing s)
  fetched-Available store value_ids missing (fetcher, err error) m = (λ h. absurd cc h, λ v h. h)
  fetched-Available store value_ids missing (fetcher, ok fetched) m =
      checked-Available fetcher store value_ids missing
        (store_fetched values source missing [] store fetched) m
        (store_fetched_keeps missing [] store fetched)

  none_missing :
      (self : FetchingAvailability S F) (value_ids : List ℕ)
      → is_empty (missing_values values source self.store value_ids) ≡ true
      → Available value_ids self.store (self, ok tt)
  none_missing self value_ids y = (
    λ h v c. elim (Bool-cases (values.has_value self.store v)) [
      | inl k ↦ k
      | inr n ↦ absurd cc (
        empty-contains (missing_values values source self.store value_ids) v y,
        missing_or_stored self.store value_ids v c n,
      )
    ],
    λ v h. h,
  )

  -- Where `ensure_available` succeeds every requested value is in the store, whatever the fetcher
  -- returned; on every branch the values that were stored stay. An insertion into the store adds the
  -- value and keeps the others.
  pub ensure_available-Available :
      (self : FetchingAvailability S F) (value_ids : List ℕ)
      → Available value_ids self.store (ensure_available values source self value_ids)
  unfolding ensure_available
  ensure_available-Available self value_ids =
      let missing = missing_values values source self.store value_ids in
      elim (Bool-cases (is_empty missing)) [
        | inl y ↦ rw y (none_missing self value_ids y)
        | inr n ↦ rw n (
            fetched-Available self.store value_ids missing
              (source.fetch_values self.fetcher missing) (missing_or_stored self.store value_ids))
      ]
