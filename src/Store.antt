-- ===== src/Store.antt =====
-- src/store.rs: the value store, and the guard that fetches the values a recorder has not got.
--
-- Value IDs are numbers in their order. A poisoned lock is not modelled.
pub mod Available
use rust_quepaxa.Prelude.{
  ℕ, Bool, true, false, not, ◌||◌, List, [], ◌∷◌, Option, none, some, nat_eq, contains, keep, all,
  is_empty, if◌then◌else◌,
}
use rust_quepaxa.Prelude.Maps.{BTreeMap, get, insert, contains_key}
use rust_quepaxa.Error.{Result, ok, err, invalid_proposal, unexpected_value_id, missing_value}
use rust_quepaxa.Cluster.Sorting.{to_set}

-- The trait `ValueStore`
pub record ValueStore (B S : Type 0) : Type 0 where
  pub has_value : S → ℕ → Bool
  pub value : S → ℕ → Option B
  pub insert_value : S → ℕ → B → S

-- The trait `ValueFetcher`; a fetch may change the fetcher.
pub record ValueFetcher (B F : Type 0) : Type 0 where
  pub fetch_values : F → List ℕ → F × Result (List (ℕ × B))

-- `AllowAllAvailability`
unfoldable pub allow_all : List ℕ → Result (Unit {0})
allow_all value_ids = ok tt

-- `FetchingAvailability`
pub record FetchingAvailability (S F : Type 0) : Type 0 where
  pub store : S
  pub fetcher : F

module _ {B S F : Type 0} (values : ValueStore B S) (source : ValueFetcher B F) where
  -- The requested values that are not stored, each once and in order.
  unfoldable pub missing_values : S → List ℕ → List ℕ
  missing_values store value_ids = to_set (keep (λ v. not (values.has_value store v)) value_ids)

  -- The loop over the fetched values
  unfoldable pub store_fetched : List ℕ → List ℕ → S → List (ℕ × B) → S × Result (Unit {0})
  store_fetched requested returned store [] = (store, ok tt)
  store_fetched requested returned store ((value_id, batch) ∷ fetched) =
      if not (contains requested value_id) || contains returned value_id
      then (store, err (invalid_proposal unexpected_value_id))
      else store_fetched requested (value_id ∷ returned) (values.insert_value store value_id batch)
          fetched

  -- The check behind the loop
  abbrev pub require_stored : List ℕ → S × Result (Unit {0}) → S × Result (Unit {0})
  require_stored missing (store, err error) = (store, err error)
  require_stored missing (store, ok _) =
      (store, if all (values.has_value store) missing then ok tt else err missing_value)

  -- `ensure_available` behind the fetch
  abbrev pub store_and_check :
      S → List ℕ → F × Result (List (ℕ × B)) → FetchingAvailability S F × Result (Unit {0})
  store_and_check store missing (fetcher, err error) =
      (record { store = store; fetcher = fetcher }, err error)
  store_and_check store missing (fetcher, ok fetched) =
      let (stored, result) = require_stored missing (store_fetched missing [] store fetched) in
      (record { store = stored; fetcher = fetcher }, result)

  unfoldable pub ensure_available :
      FetchingAvailability S F → List ℕ → FetchingAvailability S F × Result (Unit {0})
  ensure_available self value_ids =
      let missing = missing_values self.store value_ids in
      if is_empty missing
      then (self, ok tt)
      else store_and_check self.store missing (source.fetch_values self.fetcher missing)

-- `InMemoryValueStore`
pub record InMemoryValueStore (B : Type 0) : Type 0 where
  pub batches : BTreeMap B

module _ {B : Type 0} where
  -- `entry(value_id).or_insert(batch)`
  unfoldable pub insert_in_memory : InMemoryValueStore B → ℕ → B → InMemoryValueStore B
  insert_in_memory self value_id batch =
      if contains_key value_id self.batches
      then self
      else record { batches = insert value_id batch self.batches }

  abbrev pub in_memory_values : ValueStore B (InMemoryValueStore B)
  in_memory_values = record {
    has_value = λ s v. contains_key v s.batches;
    value = λ s v. get v s.batches;
    insert_value = insert_in_memory;
  }
