-- ===== src/Examples/Storing.antt =====
-- The fetching guard at concrete inputs.
use rust_quepaxa.Prelude.{ℕ, ◌+◌, ◌≡◌, refl, List, [], ◌∷◌}
use rust_quepaxa.Prelude.Maps.{contains_key, insert}
use rust_quepaxa.Error.{ok}
use rust_quepaxa.Cluster.Sorting.{to_set, sort, dedup}
use rust_quepaxa.Store.{
  ValueFetcher, FetchingAvailability, InMemoryValueStore, in_memory_values, insert_in_memory,
  ensure_available, missing_values, store_fetched,
}
use rust_quepaxa.Store.Available.{Available, in_memory-IsGrowing, ensure_available-Available}

abbrev batches_of : List ℕ → List (ℕ × ℕ)
batches_of [] = []
batches_of (v ∷ vs) = (v, v + 100) ∷ batches_of vs

-- A fetcher that counts its calls.
abbrev counting : ValueFetcher ℕ ℕ
counting = record { fetch_values = λ n vs. (n + 1, ok (batches_of vs)) }

abbrev guard_at : ℕ → List (ℕ × ℕ) → FetchingAvailability (InMemoryValueStore ℕ) ℕ
guard_at n batches = record { store = record { batches = batches }; fetcher = n }

fetches_missing :
    ensure_available in_memory_values counting (guard_at 0 ((5, 1) ∷ [])) (9 ∷ 5 ∷ 3 ∷ 9 ∷ [])
    ≡ (guard_at 1 ((3, 103) ∷ (5, 1) ∷ (9, 109) ∷ []), ok tt)
unfolding ensure_available missing_values store_fetched insert_in_memory contains_key insert to_set
    sort dedup
fetches_missing = refl

ensure_available-Available_example :
    Available in_memory_values counting in_memory-IsGrowing
      (9 ∷ 5 ∷ 3 ∷ 9 ∷ [])
      (record { batches = (5, 1) ∷ [] })
      (ensure_available in_memory_values counting (guard_at 0 ((5, 1) ∷ [])) (9 ∷ 5 ∷ 3 ∷ 9 ∷ []))
ensure_available-Available_example =
    ensure_available-Available in_memory_values counting in_memory-IsGrowing
      (guard_at 0 ((5, 1) ∷ [])) (9 ∷ 5 ∷ 3 ∷ 9 ∷ [])
