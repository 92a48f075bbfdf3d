-- ===== src/Error.antt =====
-- src/error.rs: the errors, and the result type with its sequencing.
--
-- A text that the source builds is a constructor of `Message` or `Resource`; numbers that it
-- formats into the text are arguments. `Display` is not modelled.
use rust_quepaxa.Prelude.{
  ℕ, ◌≡◌, refl, ◌⊎◌, inl, inr, Bool, true, false, List, [], ◌∷◌, Option, none, some,
}

-- The name of a bounded resource in `ResourceLimit`.
pub data Resource : Type 0 where
  active_recorder_slots retained_decisions decision_value_ids proposal_value_ids : Resource
  known_decisions_in_one_request pending_value_ids retained_log_slots tracked_value_ids : Resource
  durable_deduplication_bytes : Resource

-- The files that the texts of storage errors name.
pub data Label : Type 0 where
  submission_journal exactly_once_state exactly_once_checkpoint : Label

-- The texts of the errors that carry one.
pub data Message : Type 0 where
  fault_tolerance_too_large : Message
  cannot_tolerate : ℕ → ℕ → ℕ → Message
  second_reconfiguration only_joint_can_be_finalized command_not_in_anchor : Message
  not_the_next_epoch anchor_not_retained later_slots_not_drained : Message
  zero_limits decision_key_mismatch slot_at_or_below_floor leaders_do_not_match_slots : Message
  unknown_leader_binding duplicate_decision_values duplicate_proposal_values : Message
  decision_for_another_slot priority_range_too_small workers_exited : Message
  untracked_value_id missing_genesis skipped_committed_slot future_slot_committed : Message
  store_failed randomness_unavailable : Message
  minimum_above_maximum zero_sample_window percentile_out_of_range zero_runtime_limits : Message
  epoch_shorter_than_pipeline inconsistent_statistics schedule_key_mismatch : Message
  schedules_are_derived statistics_not_contiguous : Message
  different_schedule no_schedule : ℕ → Message
  history_required : ℕ → ℕ → Message
  different_outcome zero_snapshot_limit lock_poisoned unexpected_value_id : Message
  export_not_implemented import_not_implemented : Message
  could_not_read could_not_encode could_not_encode_payload : Label → Message
  could_not_decode could_not_decode_payload : Label → Message
  could_not_open could_not_write could_not_sync could_not_replace : Label → Message
  could_not_sync_directory checksum_failed : Label → Message
  size_outside_bound unsupported_version : Label → ℕ → Message

pub data QuePaxaError : Type 0 where
  empty_cluster empty_proposal empty_decision missing_proposal missing_value : QuePaxaError
  duplicate_replica unknown_replica invalid_sender : ℕ → QuePaxaError
  invalid_recorder_reply : ℕ → ℕ → QuePaxaError
  duplicate_recorder_reply : ℕ → QuePaxaError
  invalid_quorum : ℕ → ℕ → QuePaxaError
  quorum_not_reached : ℕ → ℕ → QuePaxaError
  invalid_step : ℕ → ℕ → QuePaxaError
  step_overflow slot_overflow : QuePaxaError
  resource_limit : Resource → ℕ → QuePaxaError
  invalid_proposal transport_error storage_error : Message → QuePaxaError
  configuration_mismatch configuration_epoch_overflow : QuePaxaError
  invalid_reconfiguration : Message → QuePaxaError
  conflicting_decision schedule_mismatch slot_already_decided slot_pruned : ℕ → QuePaxaError
  step_limit_exceeded : ℕ → QuePaxaError
  policy_error : Message → QuePaxaError

pub data Result {ℓ} (T : Type ℓ) : Type ℓ where
  err : QuePaxaError → Result T
  ok : T → Result T

-- The operator `?`: an error ends the sequence.
infixl 5 ◌>>=◌
abbrev pub ◌>>=◌ {ℓ κ} : {T : Type ℓ} {U : Type κ} → Result T → (T → Result U) → Result U
◌>>=◌ r next = elim r [ err error ↦ err error | ok t ↦ next t ]

infixl 5 ◌>>◌
abbrev pub ◌>>◌ {κ} : {U : Type κ} → Result (Unit {0}) → Result U → Result U
◌>>◌ check next = elim check [ err error ↦ err error | ok _ ↦ next ]

-- `if test { return Err(e) }`
abbrev pub reject_if : Bool → QuePaxaError → Result (Unit {0})
reject_if true e = err e
reject_if false e = ok tt

-- `option.ok_or(e)?`
abbrev pub ok_or {ℓ} : {A : Type ℓ} → Option A → QuePaxaError → Result A
ok_or none e = err e
ok_or (some a) e = ok a

abbrev pub is_ok {ℓ} : {A : Type ℓ} → Result A → Bool
is_ok (ok a) = true
is_ok (err e) = false

abbrev pub is_err {ℓ} : {A : Type ℓ} → Result A → Bool
is_err (ok a) = false
is_err (err e) = true

-- `for item in items { check(item)?; }`
abbrev pub for_each {ℓ} : {A : Type ℓ} → (A → Result (Unit {0})) → List A → Result (Unit {0})
for_each check [] = ok tt
for_each check (x ∷ xs) = check x >> for_each check xs

-- A sequence succeeds only through its first step.
pub ok_of_sequence {ℓ κ} :
    {T : Type ℓ} {U : Type κ} (r : Result T) (next : T → Result U) {u : U}
    → (r >>= next) ≡ ok u
    → (t : T) × (r ≡ ok t) × (next t ≡ ok u)
ok_of_sequence (err error) next e = cc
ok_of_sequence (ok t) next e = (t, refl, e)

pub Result-cases {ℓ} :
    {A : Type ℓ} (r : Result A) → ((a : A) × (r ≡ ok a)) ⊎ ((e : QuePaxaError) × (r ≡ err e))
Result-cases (ok a) = inl (a, refl)
Result-cases (err e) = inr (e, refl)
