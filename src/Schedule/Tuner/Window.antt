-- ===== src/Schedule/Tuner/Window.antt =====
-- src/runtime/schedule.rs: which history the schedule of an epoch depends on.
use native.Mathlib.Nat.{div-mul-le_self}
use rust_quepaxa.Prelude.{
  ℕ, ◌+◌, ◌*◌, ◌-◌, ◌/◌, ◌%◌, ◌≤◌, ◌<◌, ◌≡◌, refl, sym, subst, ◌∙◌, ap, Bool, false, [], ◌∷◌, some,
  arith, ltb, leb, is_empty, length, if◌then◌else◌, Bool-cases, inl, inr, ◌⊎◌, ltb→lt,
}
use rust_quepaxa.Prelude.Maps.{BTreeMap, get, insert, retain, Entries, Entries-insert, Entries-imp}
use rust_quepaxa.Error.{Result, ok, err, Result-cases, policy_error, history_required}
use rust_quepaxa.Types.{SlotIndex}
use rust_quepaxa.Types.Clock.{Step, u64_mod}
use rust_quepaxa.Types.Keys.{ReplicaId}
use rust_quepaxa.Policy.{rotated}
use rust_quepaxa.Policy.Leader.{nonempty_length}
use rust_quepaxa.Schedule.Tuner.Derive.{warmup_derive}
use rust_quepaxa.Schedule.{EpochSchedule, new_schedule}
use rust_quepaxa.Schedule.Tuner.{
  EpochTuner, EpochStat, derive, ranking, required_history, total_through, rank_members,
  warmup_epochs, note_committed, note_led, prune_epochs, ensure_schedule, add_stat, stat_of,
  count_step,
}
use rust_quepaxa.Schedule.Tuner.Invariant.{IsTuned, IsRecent, frontier, ensure_schedule-IsTuned}
use rust_quepaxa.Schedule.Tuner.Noting.{idle, led, note_committed-Noted, ensure_schedule_same}

-- A statistic after the window does not count.
total_through-insert :
    (last epoch : ℕ) (stat : EpochStat) (m : BTreeMap EpochStat) (totals : BTreeMap (ℕ × ℕ))
    → last < epoch
    → total_through last (insert epoch stat m) totals ≡ total_through last m totals
unfolding total_through insert
total_through-insert last epoch stat [] totals l = ground (arith, l)
total_through-insert last epoch stat ((j, s) ∷ m) totals l = ground (
  arith,
  l,
  total_through-insert last epoch stat m totals l,
  total_through-insert last epoch stat m (add_stat s totals) l,
)

-- Nothing is dropped below a floor that every key reaches.
retain_all :
    (floor : ℕ) (m : BTreeMap EpochStat)
    → Entries (λ k stat. floor ≤ k) m
    → retain (leb floor) m ≡ m
unfolding retain
retain_all floor [] a = refl
retain_all floor ((j, s) ∷ m) a = ground (arith, a.0, retain_all floor m a.1)

required_history_is :
    (epoch_size epoch r : ℕ)
    → required_history epoch_size epoch ≡ ok r
    → r ≡ (epoch - 2 + 1) * epoch_size - 1
unfolding required_history
required_history_is epoch_size epoch r h = elim (Bool-cases (ltb (epoch - 2 + 1) u64_mod)) [
  | inr k ↦ absurd (ground (arith, k, h))
  | inl k ↦ elim (Bool-cases (ltb ((epoch - 2 + 1) * epoch_size) u64_mod)) [
    | inr n ↦ absurd (ground (arith, k, n, h))
    | inl n ↦ ground (arith, k, n, h)
  ]
]

-- What `derive` concludes from the required history, after the warm-up.
late : EpochTuner → ℕ → Result SlotIndex → Result EpochSchedule
late t epoch (err error) = err error
late t epoch (ok required) =
    if ltb t.stats_through required
    then err (policy_error (history_required epoch required))
    else new_schedule epoch (ranking t epoch)

derive-late :
    (t : EpochTuner) (epoch : ℕ)
    → ltb epoch (warmup_epochs t.members) ≡ false
    → derive t epoch ≡ late t epoch (required_history t.epoch_size epoch)
unfolding derive late
derive-late t epoch l = elim (Result-cases (required_history t.epoch_size epoch)) [
  | inl (r, e) ↦ ground (arith, l, e)
  | inr (error, e) ↦ ground (arith, l, e)
]

late_same :
    (t u : EpochTuner) (epoch : ℕ) (required : Result SlotIndex)
    → ranking u epoch ≡ ranking t epoch
    → t.stats_through ≤ u.stats_through
    → ((r : ℕ) → required ≡ ok r → r ≤ t.stats_through)
    → late u epoch required ≡ late t epoch required
unfolding late
late_same t u epoch (err error) e k f = refl
late_same t u epoch (ok r) e k f = ground (arith, e, k, f r refl)

-- Where the history that a schedule needs is there, what `derive` depends on.
derive_same :
    (t u : EpochTuner) (epoch : ℕ)
    → is_empty t.members ≡ false
    → u.members ≡ t.members
    → u.epoch_size ≡ t.epoch_size
    → (2 ≤ epoch → total_through (epoch - 2) u.stats [] ≡ total_through (epoch - 2) t.stats [])
    → (2 ≤ epoch → (epoch - 2 + 1) * t.epoch_size ≤ t.stats_through + 1)
    → t.stats_through ≤ u.stats_through
    → derive u epoch ≡ derive t epoch
unfolding ranking
derive_same t u epoch x m s w l k = elim (Bool-cases (ltb epoch (warmup_epochs t.members))) [
  | inl n ↦
      let early : epoch < warmup_epochs t.members = ltb→lt epoch (warmup_epochs t.members) n in
      let early' = subst (λ ms. epoch < warmup_epochs ms) (sym m) early in
      warmup_derive u epoch early'
      ∙ (ap (λ ms. new_schedule epoch (rotated ms (epoch % length ms))) m
          ∙ sym (warmup_derive t epoch early))
  | inr n ↦
      let n' = subst (λ ms. ltb epoch (warmup_epochs ms) ≡ false) (sym m) n in
      let second : 2 ≤ epoch = ground (arith, n, nonempty_length t.members x) in
      let rank : ranking u epoch ≡ ranking t epoch =
        ap (λ ms. rank_members ms (total_through (epoch - 2) u.stats []) epoch) m
        ∙ ap (λ totals. rank_members t.members totals epoch) (w second) in
      derive-late u epoch n'
      ∙ (ap (λ z. late u epoch (required_history z epoch)) s
          ∙ (late_same t u epoch (required_history t.epoch_size epoch) rank k
                (λ r e. omega (arith, required_history_is t.epoch_size epoch r e, l second))
              ∙ sym (derive-late t epoch n)))
]

note_led_same :
    (t : EpochTuner) (slot : SlotIndex) (step : Step) (first : ReplicaId)
    → IsTuned t
    → slot / t.epoch_size ≡ frontier t
    → (note_led t slot step first).stats
      ≡ insert (frontier t) (count_step step (stat_of first (get (frontier t) t.stats))) t.stats
unfolding note_led prune_epochs
note_led_same t slot step first i e =
    let stat = count_step step (stat_of first (get (frontier t) t.stats)) in
    let all = retain_all (frontier t - 64) (insert (frontier t) stat t.stats) (
      Entries-insert (λ k x. frontier t - 64 ≤ k) (frontier t) stat t.stats (omega arith)
        (Entries-imp (IsRecent t.members (frontier t)) (λ k x. frontier t - 64 ≤ k) t.stats
          (λ k x y. omega (arith, y.3)) i.recent)) in
    rw e (ground (arith, all))

note_led_rest :
    (t : EpochTuner) (slot : SlotIndex) (step : Step) (first : ReplicaId)
    → ((note_led t slot step first).members ≡ t.members)
      × ((note_led t slot step first).epoch_size ≡ t.epoch_size)
      × ((note_led t slot step first).stats_through ≡ slot)
unfolding note_led prune_epochs
note_led_rest t slot step first = ground arith

-- The schedule of an epoch does not depend on the moment at which it is derived within the epoch
-- before: while the last noted slot lies in that epoch, noting another slot of that epoch changes
-- nothing of what `derive` gives.
pub derive_settled :
    (t u : EpochTuner) (slot : SlotIndex) (step : Step) (epoch : ℕ) (r : Result Bool)
    → IsTuned t
    → note_committed t slot step ≡ some (u, r)
    → frontier t + 1 ≡ epoch
    → slot / t.epoch_size + 1 ≡ epoch
    → derive u epoch ≡ derive t epoch
derive_settled t u slot step epoch r i h f g = elim (note_committed-Noted t slot step i) [
  | idle v q e n w ↦
      let same : v ≡ u = cc (e, h) in
      subst (λ x. derive x epoch ≡ derive t epoch) same (unchanged v w)
  | led l c n e ↦
      let same : note_led ensured slot step l ≡ u = cc (e, h) in
      subst (λ x. derive x epoch ≡ derive t epoch) same (noted l (omega (arith, n)))
]
  where
    ensured : EpochTuner
    ensured = (ensure_schedule t (slot / t.epoch_size)).0

    rest :
        (ensured.members ≡ t.members)
        × (ensured.auto ≡ t.auto)
        × (ensured.epoch_size ≡ t.epoch_size)
        × (ensured.stats ≡ t.stats)
        × (ensured.stats_through ≡ t.stats_through)
    rest = ensure_schedule_same t (slot / t.epoch_size)

    enough : 2 ≤ epoch → (epoch - 2 + 1) * t.epoch_size ≤ t.stats_through + 1
    enough l =
        let last : epoch - 2 + 1 ≡ frontier t = omega (arith, f, l) in
        subst (λ z. z * t.epoch_size ≤ t.stats_through + 1) (sym last)
          (omega (arith, div-mul-le_self t.stats_through t.epoch_size))

    kept : derive ensured epoch ≡ derive t epoch
    kept =
        derive_same t ensured epoch i.manned rest.0 rest.2
          (λ l. ap (λ m. total_through (epoch - 2) m []) rest.3) enough (omega (arith, rest.4))

    unchanged : (v : EpochTuner) → (v ≡ t) ⊎ (v ≡ ensured) → derive v epoch ≡ derive t epoch
    unchanged v (inl e) = ap (λ x. derive x epoch) e
    unchanged v (inr e) = ap (λ x. derive x epoch) e ∙ kept

    same : frontier ensured ≡ frontier t
    same = ap (λ x. x / ensured.epoch_size) rest.4 ∙ ap (λ x. t.stats_through / x) rest.2

    tuned : IsTuned ensured
    tuned = ensure_schedule-IsTuned t (slot / t.epoch_size) i

    here : slot / ensured.epoch_size ≡ frontier ensured
    here =
        let size : slot / ensured.epoch_size ≡ slot / t.epoch_size = ap (λ x. slot / x) rest.2 in
        omega (arith, size, same, f, g)

    stat_for : ReplicaId → EpochStat
    stat_for l = count_step step (stat_of l (get (frontier ensured) ensured.stats))

    noted :
        (l : ReplicaId)
        → t.stats_through ≤ slot
        → derive (note_led ensured slot step l) epoch ≡ derive t epoch
    noted l n =
        let after = note_led_rest ensured slot step l in
        derive_same t (note_led ensured slot step l) epoch i.manned (after.0 ∙ rest.0)
          (after.1 ∙ rest.2)
          (λ k.
            (ap (λ m. total_through (epoch - 2) m []) (note_led_same ensured slot step l tuned here)
              ∙ (total_through-insert (epoch - 2) (frontier ensured) (stat_for l) ensured.stats []
                    (omega (arith, same, f, k))
                  ∙ ap (λ m. total_through (epoch - 2) m []) rest.3)))
          enough (omega (arith, after.2, n))
