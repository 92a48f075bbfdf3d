-- ===== src/Schedule/Hedging.antt =====
-- src/runtime/schedule.rs: `AdaptiveHedgingConfig` and `HedgeDelayTuner`.
use rust_quepaxa.Prelude.{
  ℕ, ◌+◌, ◌*◌, ◌-◌, ◌/◌, not, ◌&&◌, List, [], ◌∷◌, ◌++◌, Option, none, some, ltb, leb,
  if◌then◌else◌, length, nth, min, ◌==◌, nat_eq,
}
use rust_quepaxa.Prelude.Sorting.{sort_by}
use rust_quepaxa.Error.{
  Result, ok, err, policy_error, minimum_above_maximum, zero_sample_window, percentile_out_of_range,
}
use rust_quepaxa.Policy.{Duration}
use rust_quepaxa.Policy.Adaptive.{keep_last}

pub record AdaptiveHedgingConfig : Type 0 where
  pub min_delay : Duration
  pub max_delay : Duration
  pub sample_window : ℕ
  pub percentile : ℕ

-- `AdaptiveHedgingConfig::new`
unfoldable pub new_hedging : Duration → Duration → Result AdaptiveHedgingConfig
new_hedging min_delay max_delay =
    if ltb max_delay min_delay
    then err (policy_error minimum_above_maximum)
    else ok (record {
      min_delay = min_delay;
      max_delay = max_delay;
      sample_window = 64;
      percentile = 90;
    })

unfoldable pub with_window : AdaptiveHedgingConfig → ℕ → Result AdaptiveHedgingConfig
with_window self sample_window =
    if sample_window == 0
    then err (policy_error zero_sample_window)
    else ok (record self { sample_window = sample_window })

unfoldable pub with_percentile : AdaptiveHedgingConfig → ℕ → Result AdaptiveHedgingConfig
with_percentile self percentile =
    if not (leb 1 percentile && leb percentile 100)
    then err (policy_error percentile_out_of_range)
    else ok (record self { percentile = percentile })

pub record HedgeDelayTuner : Type 0 where
  pub current : Duration
  pub config : Option AdaptiveHedgingConfig
  pub samples : List Duration

-- `Duration::clamp`
unfoldable pub clamp : Duration → Duration → Duration → Duration
clamp value low high = if ltb value low then low else if ltb high value then high else value

-- `HedgeDelayTuner::new`
unfoldable pub new_tuner : Duration → Option AdaptiveHedgingConfig → HedgeDelayTuner
new_tuner base_delay none = record { current = base_delay; config = none; samples = [] }
new_tuner base_delay (some config) = record {
  current = clamp base_delay config.min_delay config.max_delay;
  config = some config;
  samples = [];
}

-- The index of the percentile among `count` ordered samples.
unfoldable pub percentile_index : ℕ → ℕ → ℕ
percentile_index count percentile = min ((count * percentile + 99) / 100 - 1) (count - 1)

-- The window is not empty, so the index is in range.
unfoldable pub observe : HedgeDelayTuner → Duration → HedgeDelayTuner
observe self elapsed = elim self.config [
  | none ↦ self
  | some config ↦
      let samples = keep_last config.sample_window (self.samples ++ elapsed ∷ []) in
      let ordered = sort_by leb samples in
      elim (nth (percentile_index (length ordered) config.percentile) ordered) [
        | none ↦ record self { samples = samples }
        | some value ↦ record self {
          samples = samples;
          current = clamp value config.min_delay config.max_delay;
        }
      ]
]
