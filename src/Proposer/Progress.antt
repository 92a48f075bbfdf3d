-- ===== src/Proposer/Progress.antt =====
-- src/proposer.rs: the step after a pass of the loop.
use rust_quepaxa.Prelude.{
  ℕ, ◌+◌, ◌-◌, ◌≤◌, ◌<◌, ◌≡◌, false, ◌==◌, nat_eq, List, [], ◌∷◌, ◌++◌, Option, arith, Eq, leb,
  if◌then◌else◌, all, All, Option-cases, Bool-cases, ◌≢◌, inl, inr, subst,
}
use rust_quepaxa.Error.{ok, err}
use rust_quepaxa.Types.{Proposal, SlotIndex, new_decision}
use rust_quepaxa.Types.Clock.{Step, checked_next}
use rust_quepaxa.Types.Keys.{ReplicaId}
use rust_quepaxa.Messages.{RecordReply}
use rust_quepaxa.Cluster.{ClusterIdentity}
use rust_quepaxa.Proposer.{
  again, conclude_phase, advance, reported_decision, latest_from, decide_on, move_on,
}
use rust_quepaxa.Proposer.Collect.{
  Arrival, timed_out, arrived, collect_replies, check_reply, recorders_of,
}
use rust_quepaxa.Proposer.Quorum.{quorum_reached}

module _ {V : Type 0} where
  -- A reply that reports the step of the request or a later one.
  abbrev pub IsForward : Step → RecordReply V → Type 0
  IsForward step reply = step ≤ reply.summary.step

  abbrev pub IsForwardArrival : Step → Arrival V → Type 0
  IsForwardArrival step (arrived expected (ok reply)) = IsForward step reply
  IsForwardArrival step _ = Unit

  All-Forward-snoc :
      (step : Step) (rs : List (RecordReply V)) (r : RecordReply V)
      → All (IsForward step) rs
      → IsForward step r
      → All (IsForward step) (rs ++ r ∷ [])
  All-Forward-snoc step [] r a h = (h, tt)
  All-Forward-snoc step (q ∷ rs) r a h = (a.0, All-Forward-snoc step rs r a.1 h)

  pub collect_replies-Forward :
      (step : Step) (quorum : ℕ) (cluster : Option ClusterIdentity) (pending : ℕ)
      (replies : List (RecordReply V)) (events : List (Arrival V))
      (collected : List (RecordReply V))
      → All (IsForward step) replies
      → All (IsForwardArrival step) events
      → collect_replies quorum cluster pending replies events ≡ ok collected
      → All (IsForward step) collected
  unfolding collect_replies check_reply
  collect_replies-Forward step quorum cluster pending replies [] collected a f h =
      subst (All (IsForward step)) (ground (arith, h)) a
  collect_replies-Forward step quorum cluster pending replies (timed_out ∷ events) collected a f h =
      subst (All (IsForward step)) (ground (arith, h)) a
  collect_replies-Forward step quorum cluster pending replies (arrived expected (ok reply) ∷ events)
        collected a f h =
      elim (Bool-cases (quorum_reached (recorders_of replies) quorum cluster)) [
        | inl e ↦ subst (All (IsForward step)) (ground (arith, e, h)) a
        | inr e ↦
            collect_replies-Forward step quorum cluster (pending - 1) (replies ++ reply ∷ []) events
              collected (All-Forward-snoc step replies reply a f.0) f.1 (ground (arith, e, h))
      ]
  collect_replies-Forward step quorum cluster pending replies
        (arrived expected (err error) ∷ events) collected a f h =
      elim (Bool-cases (quorum_reached (recorders_of replies) quorum cluster)) [
        | inl e ↦ subst (All (IsForward step)) (ground (arith, e, h)) a
        | inr e ↦
            collect_replies-Forward step quorum cluster (pending - 1) replies events collected a f.1
              (ground (arith, e, h))
      ]

  later_of :
      (best r : RecordReply V)
      → (best.summary.step
          ≤ (if leb best.summary.step r.summary.step then r else best).summary.step)
        × (r.summary.step ≤ (if leb best.summary.step r.summary.step then r else best).summary.step)
  later_of best r = ground arith

  latest_from-upper :
      (best : RecordReply V) (rs : List (RecordReply V))
      → (best.summary.step ≤ (latest_from best rs).summary.step)
        × All (λ r. r.summary.step ≤ (latest_from best rs).summary.step) rs
  latest_from-upper best [] = (grind arith, tt)
  latest_from-upper best (r ∷ rs) =
      let next = (if leb best.summary.step r.summary.step then r else best) in
      let bounds = later_of best r in
      let ih = latest_from-upper next rs in
      (omega (arith, bounds.0, ih.0), (omega (arith, bounds.1, ih.0), ih.1))

  -- Replies that all are forward but not all at the step have one after it.
  some_later :
      (step m : Step) (rs : List (RecordReply V))
      → All (IsForward step) rs
      → All (λ r. r.summary.step ≤ m) rs
      → all (λ r. r.summary.step == step) rs ≡ false
      → step < m
  some_later step m [] a b h = absurd cc
  some_later step m (r ∷ rs) a b h = elim (Bool-cases (r.summary.step == step)) [
    | inl e ↦ some_later step m rs a.1 b.1 (ground (arith, e, h))
    | inr e ↦ ground (arith, e, a.0, b.0)
  ]

module _ {V : Type 0} ⦃e : Eq V⦄ where
  move_on-moves :
      (step step' : Step) (p p' : Proposal V)
      → move_on step p ≡ ok (again step' p')
      → step' ≡ step + 1
  unfolding checked_next
  move_on-moves step step' p p' h = ground (arith, h)

  decide_on-stops :
      (slot : SlotIndex) (step s step' : Step) (p p' : Proposal V)
      → decide_on slot step p ≢ ok (again step' p')
  unfolding new_decision
  decide_on-stops slot step s step' p p' h = ground (arith, h)

  conclude_phase-moves :
      (slot : SlotIndex) (leader : Option ReplicaId) (step step' : Step) (p p' : Proposal V)
      (replies : List (RecordReply V))
      → conclude_phase slot leader step p replies ≡ ok (again step' p')
      → step' ≡ step + 1
  unfolding conclude_phase checked_next new_decision
  conclude_phase-moves slot leader step step' p p' replies h = ground (arith, h)

  -- Where no reply reports an earlier step, a pass that does not end the loop goes on at a later step.
  pub advance-Progresses :
      (slot : SlotIndex) (leader : Option ReplicaId) (step step' : Step) (p p' : Proposal V)
      (replies : List (RecordReply V))
      → All (IsForward step) replies
      → advance slot leader step p replies ≡ ok (again step' p')
      → step < step'
  unfolding advance
  advance-Progresses slot leader step step' p p' [] a h =
      ground (arith, h, conclude_phase-moves slot leader step step' p p' [])
  advance-Progresses slot leader step step' p p' (r ∷ rs) a h =
      elim (Option-cases (reported_decision (r ∷ rs))) [
        | inr (d, k) ↦ absurd (ground (arith, k, h))
        | inl k ↦ elim (Bool-cases (all (λ q. q.summary.step == step) (r ∷ rs))) [
          | inl b ↦
              let moved =
                conclude_phase-moves slot leader step step' p p' (r ∷ rs)
                  (ground (arith, k, b, h)) in
              ground (arith, moved)
          | inr b ↦
              let later =
                some_later step (latest_from r rs).summary.step (r ∷ rs) a (latest_from-upper r rs)
                  b in
              ground (arith, k, b, later, h)
        ]
      ]
