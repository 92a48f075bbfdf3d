-- ===== src/Examples/Pipeline.antt =====
-- The replica pipeline at concrete inputs.
use rust_quepaxa.Prelude.{
  ℕ, ◌≤◌, ◌<◌, ◌≡◌, refl, subst, true, false, take, drop, [], ◌∷◌, some, none, arith, nat_eq,
}
use rust_quepaxa.Prelude.Maps.{get, insert, contains_key}
use rust_quepaxa.Error.{ok, err, resource_limit, retained_log_slots}
use rust_quepaxa.Types.Clock.{checked_next}
use rust_quepaxa.Replica.{
  ReplicaCore, ReplicaConfig, default_replica_config, new, apply_decision, settle, commit_ready,
  commit_from, ensure_log_capacity, enqueue, next_proposal, next_open_slot, next_open_from,
  is_claimed, note_proposed, count_inflight, prune_through,
}
use rust_quepaxa.Replica.Apply.{Applied, IsReady, apply_decision-Applied}
use rust_quepaxa.Replica.Queue.{Proposes, new-IsReady, next_proposal-Proposes, batch_count}
use rust_quepaxa.Replica.Tracking.{next_proposal_loses_batch}
use rust_quepaxa.Replica.Enqueue.{Enqueues, enqueue-Enqueues}
use rust_quepaxa.Replica.Prune.{kept_at, prune_through-kept_at}
use rust_quepaxa.Replica.Restore.{
  restore, check_committed, is_ahead, Settled, NoneAhead, restore_sound,
}
use rust_quepaxa.Replica
use rust_quepaxa.Replica.{retained_slots}
use rust_quepaxa.Prelude.{length, ◌+◌}
use rust_quepaxa.Samples.{decide}

-- Room for one slot next to genesis and the slots that are there.
abbrev tight : ReplicaConfig
tight = record default_replica_config { max_log_slots = 1 }

abbrev begin : ReplicaConfig → ReplicaCore ℕ
unfolding new
begin config = new config

-- Slot 2 is decided, slot 1 is missing.
abbrev gap : ReplicaConfig → ReplicaCore ℕ
gap config = record (begin config) {
  log =
      (0, record { proposed = []; decision = none; committed = true })
      ∷ (2, record { proposed = []; decision = some (decide 2 3 20); committed = false })
      ∷ [];
  seen_value_ids = 20 ∷ [];
}

gap_opens :
    apply_decision (begin default_replica_config) (decide 2 3 20)
    ≡ (gap default_replica_config, ok [])
unfolding apply_decision settle commit_ready commit_from ensure_log_capacity get insert contains_key
    begin
gap_opens = refl

gap_closes :
    (apply_decision (gap default_replica_config) (decide 1 2 10)).1
    ≡ ok (decide 1 2 10 ∷ decide 2 3 20 ∷ [])
unfolding apply_decision settle commit_ready commit_from ensure_log_capacity get insert contains_key
    checked_next begin
gap_closes = refl

gap-IsReady : IsReady (gap default_replica_config)
unfolding begin new
gap-IsReady =
    (subst (λ x. Applied (begin default_replica_config) (decide 2 3 20) x.0 x.1) gap_opens
      (apply_decision-Applied (begin default_replica_config) (decide 2 3 20)
        (new-IsReady default_replica_config))).4

apply_decision-Applied_example :
    Applied
      (gap default_replica_config)
      (decide 1 2 10)
      (apply_decision (gap default_replica_config) (decide 1 2 10)).0
      (apply_decision (gap default_replica_config) (decide 1 2 10)).1
apply_decision-Applied_example =
    apply_decision-Applied (gap default_replica_config) (decide 1 2 10) gap-IsReady

-- Two values wait, and there is a gap to fill.
abbrev waiting : ReplicaConfig → ReplicaCore ℕ
waiting config = record (gap config) { pending = 5 ∷ 6 ∷ []; seen_value_ids = 5 ∷ 6 ∷ 20 ∷ [] }

waiting_proposes : (next_proposal (waiting default_replica_config)).1 ≡ ok (some (1, 5 ∷ 6 ∷ []))
unfolding next_proposal next_open_slot next_open_from is_claimed note_proposed count_inflight
    ensure_log_capacity get contains_key begin
waiting_proposes = refl

next_proposal-Proposes_example :
    Proposes
      (waiting default_replica_config)
      (next_proposal (waiting default_replica_config)).0
      (next_proposal (waiting default_replica_config)).1
next_proposal-Proposes_example = next_proposal-Proposes (waiting default_replica_config) gap-IsReady

tight_open : next_open_slot (waiting tight) ≡ ok 1
unfolding next_open_slot next_open_from is_claimed get begin
tight_open = refl

tight_fails : (next_proposal (waiting tight)).1 ≡ err (resource_limit retained_log_slots 1)
unfolding next_proposal next_open_slot next_open_from is_claimed note_proposed count_inflight
    ensure_log_capacity get contains_key begin
tight_fails = refl

next_proposal_loses_batch_example :
    ((next_proposal (waiting tight)).0.pending ≡ drop (batch_count (waiting tight)) (5 ∷ 6 ∷ []))
    × ((next_proposal (waiting tight)).0.log ≡ (waiting tight).log)
    × ((enqueue
          (next_proposal (waiting tight)).0
          (take (batch_count (waiting tight)) (5 ∷ 6 ∷ []))).0.pending
        ≡ drop (batch_count (waiting tight)) (5 ∷ 6 ∷ []))
next_proposal_loses_batch_example =
    next_proposal_loses_batch (waiting tight) 1 (resource_limit retained_log_slots 1)
      (refl, (refl, tt)) tight_open tight_fails

enqueue-Enqueues_example :
    Enqueues
      (waiting default_replica_config)
      (6 ∷ 7 ∷ [])
      (enqueue (waiting default_replica_config) (6 ∷ 7 ∷ [])).0
      (enqueue (waiting default_replica_config) (6 ∷ 7 ∷ [])).1
enqueue-Enqueues_example =
    enqueue-Enqueues (waiting default_replica_config) (6 ∷ 7 ∷ []) ((refl, (refl, tt)), refl)

-- Both slots are committed.
abbrev closed : ReplicaCore ℕ
closed = record (gap default_replica_config) {
  log =
      (0, record { proposed = []; decision = none; committed = true })
      ∷ (1, record { proposed = []; decision = some (decide 1 2 10); committed = true })
      ∷ (2, record { proposed = []; decision = some (decide 2 3 20); committed = true })
      ∷ [];
  next_commit = 3;
  seen_value_ids = 10 ∷ 20 ∷ [];
}

gap_becomes :
    apply_decision (gap default_replica_config) (decide 1 2 10)
    ≡ (closed, ok (decide 1 2 10 ∷ decide 2 3 20 ∷ []))
unfolding apply_decision settle commit_ready commit_from ensure_log_capacity get insert contains_key
    checked_next begin
gap_becomes = refl

closed-IsReady : IsReady closed
closed-IsReady =
    (subst (λ x. Applied (gap default_replica_config) (decide 1 2 10) x.0 x.1) gap_becomes
      (apply_decision-Applied (gap default_replica_config) (decide 1 2 10) gap-IsReady)).4

prune_through-kept_at_example :
    (get 1 (prune_through closed 1).log
      ≡ kept_at (prune_through closed 1).checkpointed_through 1 (get 1 closed.log))
    × (0 ≤ (prune_through closed 1).checkpointed_through)
    × ((prune_through closed 1).checkpointed_through < (prune_through closed 1).next_commit)
    × IsReady (prune_through closed 1)
unfolding begin
prune_through-kept_at_example =
    prune_through-kept_at closed 1 1 closed-IsReady
      ((omega arith, (omega arith, tt)), ((omega arith, tt), (tt, tt))) (omega arith)

closed_restores : restore default_replica_config (Replica.snapshot closed) ≡ ok closed
unfolding restore check_committed is_ahead Replica.snapshot get checked_next begin
closed_restores = refl

restore_sound_example :
    (Replica.snapshot closed ≡ Replica.snapshot closed)
    × (closed.checkpointed_through < closed.next_commit)
    × Settled closed.log (closed.checkpointed_through + 1) closed.next_commit
    × NoneAhead closed.next_commit closed.log
    × (length closed.pending ≤ default_replica_config.max_pending_values)
    × (retained_slots closed.log ≤ default_replica_config.max_log_slots)
    × (length closed.seen_value_ids ≤ default_replica_config.max_tracked_value_ids)
restore_sound_example =
    restore_sound default_replica_config (Replica.snapshot closed) closed closed_restores
