-- ===== src/Schedule/Percentile.antt =====
-- src/runtime/schedule.rs: the delay that `HedgeDelayTuner` chooses.
use native.Mathlib.Nat.{mul-le-mul_left, mul-pos}
use rust_quepaxa.Prelude.{
  ℕ, zero, suc, ◌+◌, ◌*◌, ◌≤◌, ◌<◌, ◌≡◌, refl, sym, ◌∙◌, ap, subst, Bool, true, List, [], ◌∷◌, ◌++◌,
  some, arith, leb, ltb, nat_eq, length, length-append, nth, tally, contains, min, max, Bool-cases,
  inl, inr,
}
use rust_quepaxa.Prelude.Sorting.{sort_by, sort_into}
use rust_quepaxa.Error.{ok}
use rust_quepaxa.Policy.{Duration}
use rust_quepaxa.Policy.Adaptive.{keep_last}
use rust_quepaxa.Schedule.Hedging.{
  AdaptiveHedgingConfig, HedgeDelayTuner, clamp, percentile_index, observe, new_hedging,
  with_window, with_percentile,
}
use rust_quepaxa.Cluster.Sorting.{Ascending}

sort_into-Ascending :
    (b a : ℕ) (xs : List ℕ) → b ≤ a → Ascending b xs → Ascending b (sort_into leb a xs)
sort_into-Ascending b a [] h s = (h, tt)
sort_into-Ascending b a (x ∷ xs) h s = ground (arith, sort_into-Ascending x a xs)

sort_by-Ascending : (xs : List ℕ) → Ascending 0 (sort_by leb xs)
unfolding sort_by
sort_by-Ascending [] = tt
sort_by-Ascending (x ∷ xs) =
    sort_into-Ascending 0 x (sort_by leb xs) (omega arith) (sort_by-Ascending xs)

tally-sort_into :
    (p : ℕ → Bool) (a : ℕ) (xs : List ℕ) → tally p (sort_into leb a xs) ≡ tally p (a ∷ xs)
tally-sort_into p a [] = refl
tally-sort_into p a (x ∷ xs) = ground (arith, tally-sort_into p a xs)

tally-sort_by : (p : ℕ → Bool) (xs : List ℕ) → tally p (sort_by leb xs) ≡ tally p xs
unfolding sort_by
tally-sort_by p [] = refl
tally-sort_by p (x ∷ xs) = ground (arith, tally-sort_into p x (sort_by leb xs), tally-sort_by p xs)

length-tally : (xs : List ℕ) → tally (λ x. true) xs ≡ length xs
length-tally [] = refl
length-tally (x ∷ xs) = ap suc (length-tally xs)

length-sort_by : (xs : List ℕ) → length (sort_by leb xs) ≡ length xs
length-sort_by xs =
    sym (length-tally (sort_by leb xs)) ∙ (tally-sort_by (λ x. true) xs ∙ length-tally xs)

nth-Ascending :
    (b i v : ℕ) (xs : List ℕ)
    → Ascending b xs
    → nth i xs ≡ some v
    → (b ≤ v) × (suc i ≤ tally (λ x. leb x v) xs)
nth-Ascending b i v [] s h = absurd cc
nth-Ascending b zero v (x ∷ xs) s h = ground (arith, h)
nth-Ascending b (suc i) v (x ∷ xs) s h = ground (arith, nth-Ascending x i v xs s.1 h)

nth_present : (i : ℕ) (xs : List ℕ) → i < length xs → (v : ℕ) × (nth i xs ≡ some v)
nth_present i [] l = absurd (omega (arith, l))
nth_present zero (x ∷ xs) l = (x, refl)
nth_present (suc i) (x ∷ xs) l = nth_present i xs (omega (arith, l))

contains-sort_into : (v a : ℕ) (xs : List ℕ) → contains (sort_into leb a xs) v ≡ contains (a ∷ xs) v
contains-sort_into v a [] = refl
contains-sort_into v a (x ∷ xs) = ground (arith, contains-sort_into v a xs)

contains-sort_by : (v : ℕ) (xs : List ℕ) → contains (sort_by leb xs) v ≡ contains xs v
unfolding sort_by
contains-sort_by v [] = refl
contains-sort_by v (x ∷ xs) =
    ground (arith, contains-sort_into v x (sort_by leb xs), contains-sort_by v xs)

contains-nth : (i v : ℕ) (xs : List ℕ) → nth i xs ≡ some v → contains xs v ≡ true
contains-nth i v [] h = absurd cc
contains-nth zero v (x ∷ xs) h = ground (arith, h)
contains-nth (suc i) v (x ∷ xs) h = ground (arith, contains-nth i v xs h)

none_below : (b v : ℕ) (xs : List ℕ) → v ≤ b → Ascending b xs → tally (λ x. ltb x v) xs ≡ 0
none_below b v [] l s = refl
none_below b v (x ∷ xs) l s = ground (arith, l, none_below x v xs, s)

-- In an ascending list at most `i` elements are below the one at `i`.
tally-below :
    (b i v : ℕ) (xs : List ℕ) → Ascending b xs → nth i xs ≡ some v → tally (λ x. ltb x v) xs ≤ i
tally-below b i v [] s h = absurd cc
tally-below b zero v (x ∷ xs) s h = ground (arith, h, none_below x v xs, s)
tally-below b (suc i) v (x ∷ xs) s h = ground (arith, tally-below x i v xs s.1 h)

keep_last-length :
    (window : ℕ) (xs : List ℕ) → length (keep_last window xs) ≡ min window (length xs)
unfolding keep_last
keep_last-length window [] = omega arith
keep_last-length window (x ∷ xs) = ground (arith, keep_last-length window xs)

keep_last-suffix :
    (window : ℕ) (xs : List ℕ) → (dropped : List ℕ) × (dropped ++ keep_last window xs ≡ xs)
unfolding keep_last
keep_last-suffix window [] = ([], refl)
keep_last-suffix window (x ∷ xs) = elim (Bool-cases (ltb window (length (x ∷ xs)))) [
  | inl y ↦
      let (dropped, e) = keep_last-suffix window xs in (x ∷ dropped, rw y (ap (λ ys. x ∷ ys) e))
  | inr n ↦ ([], rw n refl)
]

-- The index is in range, and is the smallest one that reaches the percentile.
percentile_index-bound :
    (n p : ℕ)
    → 0 < n
    → 1 ≤ p
    → p ≤ 100
    → (percentile_index n p < n)
      × (n * p ≤ (percentile_index n p + 1) * 100)
      × (percentile_index n p * 100 < n * p)
unfolding percentile_index
percentile_index-bound n p l a b = omega (arith, l, mul-le-mul_left n b, mul-pos l a)

-- A configuration that the constructors give.
abbrev pub IsTunable : AdaptiveHedgingConfig → Type 0
IsTunable config =
    (config.min_delay ≤ config.max_delay)
    × (0 < config.sample_window)
    × (1 ≤ config.percentile)
    × (config.percentile ≤ 100)

clamp_is :
    (value low high : Duration) → low ≤ high → clamp value low high ≡ max low (min value high)
unfolding clamp
clamp_is value low high h = ground (arith, h)

observe-some :
    (t : HedgeDelayTuner) (config : AdaptiveHedgingConfig) (elapsed v : Duration)
    → t.config ≡ some config
    → nth
        (percentile_index
          (length (sort_by leb (keep_last config.sample_window (t.samples ++ elapsed ∷ []))))
          config.percentile)
        (sort_by leb (keep_last config.sample_window (t.samples ++ elapsed ∷ [])))
      ≡ some v
    → observe t elapsed ≡ record t {
      samples = keep_last config.sample_window (t.samples ++ elapsed ∷ []);
      current = clamp v config.min_delay config.max_delay;
    }
unfolding observe
observe-some t config elapsed v c e = rw (c, e, observe) (cc c)

-- The value is the percentile of the samples by nearest rank: the smallest sample such that at
-- least `percentile` of a hundred samples are not above it.
abbrev pub IsPercentile : ℕ → List Duration → Duration → Type 0
IsPercentile percentile samples v =
    (contains samples v ≡ true)
    × (length samples * percentile ≤ tally (λ sample. leb sample v) samples * 100)
    × (tally (λ sample. ltb sample v) samples * 100 < length samples * percentile)

-- What an observation makes of a tuner.
abbrev pub Tunes : AdaptiveHedgingConfig → HedgeDelayTuner → Duration → HedgeDelayTuner → Type 0
Tunes config t elapsed u =
    (u.config ≡ t.config)
    × ((dropped : List Duration) × (dropped ++ u.samples ≡ t.samples ++ elapsed ∷ []))
    × (length u.samples ≡ min config.sample_window (length t.samples + 1))
    × (config.min_delay ≤ u.current)
    × (u.current ≤ config.max_delay)
    × ((v : Duration) × IsPercentile config.percentile u.samples v
        × (u.current ≡ max config.min_delay (min v config.max_delay)))

ordered-IsPercentile :
    (percentile : ℕ) (samples : List Duration)
    → 0 < length samples
    → 1 ≤ percentile
    → percentile ≤ 100
    → (v : Duration) × (nth
          (percentile_index (length (sort_by leb samples)) percentile)
          (sort_by leb samples)
        ≡ some v)
      × IsPercentile percentile samples v
ordered-IsPercentile percentile samples l a b =
    let size = length-sort_by samples in
    let index = percentile_index-bound (length samples) percentile l a b in
    let i = percentile_index (length samples) percentile in
    let (v, at) = nth_present i (sort_by leb samples) (omega (arith, size, index.0)) in
    let sorted = sort_by-Ascending samples in
    let upto = (nth-Ascending 0 i v (sort_by leb samples) sorted at).1 in
    let below = tally-below 0 i v (sort_by leb samples) sorted at in
    (
      v,
      ap (λ n. nth (percentile_index n percentile) (sort_by leb samples)) size ∙ at,
      (
        sym (contains-sort_by v samples) ∙ contains-nth i v (sort_by leb samples) at,
        omega (arith, index.1, upto, tally-sort_by (λ sample. leb sample v) samples),
        omega (arith, index.2, below, tally-sort_by (λ sample. ltb sample v) samples),
      ),
    )

-- With a configuration that the constructors give, an observation leaves the last samples with the
-- new one, as many as there are up to the window. The delay that it chooses is the percentile of
-- these samples by nearest rank, the smallest sample such that at least `percentile` of a hundred
-- of them are not above it, brought between the bounds of the configuration.
pub observe-Tunes :
    (t : HedgeDelayTuner) (config : AdaptiveHedgingConfig) (elapsed : Duration)
    → t.config ≡ some config
    → IsTunable config
    → Tunes config t elapsed (observe t elapsed)
observe-Tunes t config elapsed c i =
    let all : length (t.samples ++ elapsed ∷ []) ≡ length t.samples + 1 =
      length-append t.samples (elapsed ∷ []) in
    let kept = keep_last-length config.sample_window (t.samples ++ elapsed ∷ []) in
    let (v, at, chosen) =
      ordered-IsPercentile config.percentile samples (omega (arith, all, kept, i.1)) i.2 i.3 in
    let delay = clamp_is v config.min_delay config.max_delay i.0 in
    subst (Tunes config t elapsed) (sym (observe-some t config elapsed v c at)) (
      refl,
      keep_last-suffix config.sample_window (t.samples ++ elapsed ∷ []),
      omega (arith, kept, all),
      omega (arith, delay, i.0),
      omega (arith, delay, i.0),
      (v, chosen, delay),
    )
  where
    samples : List Duration
    samples = keep_last config.sample_window (t.samples ++ elapsed ∷ [])

-- The constructors of a configuration give only such.
pub constructors-IsTunable :
    (low high : Duration) (config made : AdaptiveHedgingConfig) (n : ℕ)
    → (new_hedging low high ≡ ok made → IsTunable made)
      × (IsTunable config → with_window config n ≡ ok made → IsTunable made)
      × (IsTunable config → with_percentile config n ≡ ok made → IsTunable made)
unfolding new_hedging with_window with_percentile
constructors-IsTunable low high config made n =
    (λ h. ground (arith, h), λ i h. ground (arith, i, h), λ i h. ground (arith, i, h))
