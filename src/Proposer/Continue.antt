-- ===== src/Proposer/Continue.antt =====
-- src/proposer.rs: why a pass of the loop goes on, at which step and with which proposal.
use rust_quepaxa.Prelude.{
  ◌+◌, ◌<◌, ◌≡◌, ◌≢◌, refl, sym, ◌∙◌, ap, inl, inr, true, false, List, [], ◌∷◌, Option, none, some,
  arith, Eq, ◌==◌, nat_eq, In, here, there, Option-cases, Bool-cases, leb, ltb, ◌⊎◌,
}
use rust_quepaxa.Error.{ok}
use rust_quepaxa.Types.{Proposal, proposal_eq, SlotIndex, new_decision}
use rust_quepaxa.Types.Clock.{Step, u64_mod, phase, checked_next}
use rust_quepaxa.Types.Keys.{ReplicaId}
use rust_quepaxa.Types.Selection.{max_proposal_by_key}
use rust_quepaxa.Messages.{RecordReply}
use rust_quepaxa.Proposer.{
  again, conclude_phase, advance, priors, firsts, reported_decision, decide_on, move_on,
  latest_from, fast_path_winner,
}
use rust_quepaxa.Proposer.Advance.{all_at}

one_or_two :
    (step : Step)
    → (phase step == 0) ≡ false
    → (phase step == 3) ≡ false
    → (phase step ≡ 1) ⊎ (phase step ≡ 2)
unfolding phase
one_or_two step k m = ground (arith, k, m)

module _ {V : Type 0} ⦃e : Eq V⦄ where
  -- From replies at `step` to requests with `proposal`, the pass goes on at `next` with `p`.
  pub data Continues (step : Step) (proposal : Proposal V) (replies : List (RecordReply V))
      (next : Step) (p : Proposal V) : Type 0 where
    stays : next ≡ step → p ≡ proposal → Continues step proposal replies next p
    catches_up :
        (r : RecordReply V)
        → In r replies
        → step < r.summary.step
        → r.summary.first ≡ some p
        → next ≡ r.summary.step
        → Continues step proposal replies next p
    chooses_first :
        all_at step replies ≡ true
        → next ≡ step + 1
        → next < u64_mod
        → phase step ≡ 0
        → max_proposal_by_key (firsts replies) ≡ some p
        → Continues step proposal replies next p
    holds :
        all_at step replies ≡ true
        → next ≡ step + 1
        → next < u64_mod
        → (phase step ≡ 1) ⊎ (phase step ≡ 2)
        → p ≡ proposal
        → Continues step proposal replies next p
    chooses_prior :
        all_at step replies ≡ true
        → next ≡ step + 1
        → next < u64_mod
        → phase step ≡ 3
        → max_proposal_by_key (priors replies) ≡ some p
        → Continues step proposal replies next p
    finds_none :
        all_at step replies ≡ true
        → next ≡ step + 1
        → next < u64_mod
        → phase step ≡ 3
        → max_proposal_by_key (priors replies) ≡ none
        → p ≡ proposal
        → Continues step proposal replies next p

  move_on-again :
      (step next : Step) (q p : Proposal V)
      → move_on step q ≡ ok (again next p)
      → (next ≡ step + 1) × (next < u64_mod) × (p ≡ q)
  unfolding checked_next
  move_on-again step next q p h = ground (arith, h)

  decide_on_ends :
      (slot : SlotIndex) (step next : Step) (q p : Proposal V)
      → decide_on slot step q ≢ ok (again next p)
  unfolding new_decision
  decide_on_ends slot step next q p h = ground (arith, h)

  keep_first :
      {m best r : RecordReply V} {rs : List (RecordReply V)}
      → In m (best ∷ rs)
      → In m (best ∷ r ∷ rs)
  keep_first (here e) = here e
  keep_first (there i) = there (there i)

  latest_from-In :
      (best : RecordReply V) (rs : List (RecordReply V)) → In (latest_from best rs) (best ∷ rs)
  latest_from-In best [] = here refl
  latest_from-In best (r ∷ rs) = elim (Bool-cases (leb best.summary.step r.summary.step)) [
    | inl k ↦ rw k (there (latest_from-In r rs))
    | inr k ↦ rw k (keep_first (latest_from-In best rs))
  ]

  -- A pass in phase one or two that does not decide keeps the proposal.
  not_deciding :
      (slot : SlotIndex) (leader : Option ReplicaId) (step next : Step) (q p : Proposal V)
      (replies : List (RecordReply V))
      → (phase step == 0) ≡ false
      → (phase step == 3) ≡ false
      → conclude_phase slot leader step q replies ≡ ok (again next p)
      → move_on step q ≡ ok (again next p)
  unfolding conclude_phase
  not_deciding slot leader step next q p replies k m h = elim (Bool-cases (phase step == 2)) [
    | inr n ↦ ground (arith, k, m, n, h)
    | inl n ↦ elim (Option-cases (max_proposal_by_key (priors replies))) [
      | inl o ↦ ground (arith, k, n, o, h)
      | inr (best, o) ↦ elim (Bool-cases (q == best)) [
        | inl r ↦ absurd (decide_on_ends slot step next q p (ground (arith, k, n, o, r, h)))
        | inr r ↦ ground (arith, k, n, o, r, h)
      ]
    ]
  ]

  conclude_phase-Continues :
      (slot : SlotIndex) (leader : Option ReplicaId) (step next : Step) (q p : Proposal V)
      (replies : List (RecordReply V))
      → all_at step replies ≡ true
      → conclude_phase slot leader step q replies ≡ ok (again next p)
      → Continues step q replies next p
  unfolding conclude_phase phase
  conclude_phase-Continues slot leader step next q p replies a h =
      elim (Bool-cases (phase step == 0)) [
        | inl k ↦ elim (Option-cases (fast_path_winner step replies leader)) [
          | inr (w, m) ↦ absurd (decide_on_ends slot step next w p (ground (arith, k, m, h)))
          | inl m ↦ elim (Option-cases (max_proposal_by_key (firsts replies))) [
            | inl n ↦ absurd (ground (arith, k, m, n, h))
            | inr (best, n) ↦
                let moved = move_on-again step next best p (ground (arith, k, m, n, h)) in
                chooses_first a moved.0 moved.1 (ground (arith, k)) (n ∙ ap some (sym moved.2))
          ]
        ]
        | inr k ↦ elim (Bool-cases (phase step == 3)) [
          | inr m ↦
              let facts =
                move_on-again step next q p
                  (not_deciding slot leader step next q p replies k m h) in
              holds a facts.0 facts.1 (one_or_two step k m) facts.2
          | inl m ↦ elim (Option-cases (max_proposal_by_key (priors replies))) [
            | inl n ↦
                let facts = move_on-again step next q p (ground (arith, k, m, n, h)) in
                finds_none a facts.0 facts.1 (ground (arith, m)) n facts.2
            | inr (best, n) ↦
                let facts = move_on-again step next best p (ground (arith, k, m, n, h)) in
                chooses_prior a facts.0 facts.1 (ground (arith, m)) (n ∙ ap some (sym facts.2))
          ]
        ]
      ]

  from_latest :
      (slot : SlotIndex) (leader : Option ReplicaId) (step next : Step) (q p : Proposal V)
      (replies : List (RecordReply V))
      → reported_decision replies ≡ none
      → all_at step replies ≡ false
      → advance slot leader step q replies ≡ ok (again next p)
      → Continues step q replies next p
  unfolding advance
  from_latest slot leader step next q p [] k a h = absurd cc
  from_latest slot leader step next q p (r ∷ rs) k a h =
      let last = latest_from r rs in
      elim (Bool-cases (ltb step last.summary.step)) [
        | inr l ↦
            let facts : (next ≡ step) × (p ≡ q) = ground (arith, k, a, l, h) in
            stays facts.0 facts.1
        | inl l ↦ elim (Option-cases last.summary.first) [
          | inl n ↦ absurd (ground (arith, k, a, l, n, h))
          | inr (first, n) ↦
              let facts : (next ≡ last.summary.step) × (p ≡ first) =
                ground (arith, k, a, l, n, h) in
              catches_up last (latest_from-In r rs) (ground (arith, l)) (n ∙ ap some (sym facts.1))
                facts.0
        ]
      ]

  pub advance-Continues :
      (slot : SlotIndex) (leader : Option ReplicaId) (step next : Step) (q p : Proposal V)
      (replies : List (RecordReply V))
      → advance slot leader step q replies ≡ ok (again next p)
      → Continues step q replies next p
  unfolding advance
  advance-Continues slot leader step next q p replies h =
      elim (Option-cases (reported_decision replies)) [
        | inr (d, k) ↦ absurd (ground (arith, k, h))
        | inl k ↦ elim (Bool-cases (all_at step replies)) [
          | inl a ↦
              conclude_phase-Continues slot leader step next q p replies a (ground (arith, k, a, h))
          | inr a ↦ from_latest slot leader step next q p replies k a h
        ]
      ]
