-- ===== src/Protocol/FastPath.antt =====
-- src/proposer.rs: what a decision of the fast path forces on the tickets of the next step.
use rust_quepaxa.Prelude.{
  ◌+◌, ◌≤◌, ◌<◌, ◌≡◌, sym, ap, ◌∙◌, subst, inl, inr, true, List, some, arith, nat_eq, option_eq,
  option_beq_iff, Option-cases,
}
use rust_quepaxa.Types.{Proposal, with_priority}
use rust_quepaxa.Types.Clock.{Step, phase, round_one_phase_zero}
use rust_quepaxa.Types.Keys.{ReplicaId, ProposalKey, key_leb, key_leb_priority, priority_max}
use rust_quepaxa.Cluster.{is_well_formed}
use rust_quepaxa.Isr.History.{Call, after}
use rust_quepaxa.Protocol.{Setting, World}
use rust_quepaxa.Protocol.History.{Suffix, Suffix-total, first_stays, first_present}
use rust_quepaxa.Protocol.Evidence.{
  QuorumOf, QuorumOf-meet, below, FirstBelow, FirstIs, Somewhere, HasTicket, Owned, chosen_first,
  spread, kept, chosen_prior, unchosen,
}
use rust_quepaxa.Protocol.Provenance.{Inv}
use rust_quepaxa.Protocol.Dominance.{same_key, ticket-Backed}

module _ {V : Type 0} (σ : Setting V) (w : World V) (inv : Inv σ w)
    (f : is_well_formed σ.cluster ≡ true) where
  -- One proposal came first to a recorder at a step.
  same_first_key :
      (s : Step) (k : ProposalKey) (g h : List (Call V)) (i : ReplicaId) (p : Proposal V)
      → 0 < s
      → Suffix g (w.history i)
      → Suffix h (w.history i)
      → (after g).step ≡ s
      → (after h).step ≡ s
      → (after g).first ≡ some p
      → below (after h).first k ≡ true
      → key_leb p.key k ≡ true
  same_first_key s k g h i p o x y a b e l = elim (Suffix-total x y) [
    | inl z ↦ ground (arith, first_stays p z (a ∙ sym b) e, l)
    | inr z ↦ elim (Option-cases (after h).first) [
      | inl n ↦ absurd (omega (arith, first_present h n, b, o))
      | inr (q, n) ↦ ground (arith, first_stays q z (b ∙ sym a) n, e, n, l)
    ]
  ]

  first_key_unique :
      (s : Step) (k k' : ProposalKey) (i : ReplicaId)
      → FirstIs w.history s k i
      → FirstIs w.history s k' i
      → k ≡ k'
  first_key_unique s k k' i (g, x, a, (p, e, m)) (h, y, b, (q, n, o)) = elim (Suffix-total x y) [
    | inl z ↦ cc (first_stays p z (a ∙ sym b) e, n, m, o)
    | inr z ↦ cc (first_stays q z (b ∙ sym a) n, e, m, o)
  ]

  -- At the first step only the leader of round one sends the reserved priority.
  reserved_values :
      (l q : Proposal V)
      → Owned σ l
      → σ.leader ≡ some l.key.proposer_id
      → Somewhere w.history round_one_phase_zero q
      → priority_max ≤ q.key.priority
      → q.value_ids ≡ l.value_ids
  unfolding with_priority phase
  reserved_values l q o a n b =
      let from = inv.origin round_one_phase_zero q n in
      let t = from.0 in
      let is_first : t.at ≡ round_one_phase_zero = from.2 in
      let valid = inv.valid t from.1 in
      elim from.3 [
        | inr (d, (k, c, e)) ↦ absurd (ground (arith, b, c, e))
        | inl (d, e) ↦ elim valid.2 [
          | inr (g, x) ↦ absurd (omega (arith, g, is_first))
          | inl opens ↦
              let leads : σ.leader ≡ some t.sender =
                ground (arith, d, is_first, option_beq_iff σ.leader (some t.sender)) in
              let proposer : q.key.proposer_id ≡ l.key.proposer_id =
                ground (arith, leads, a, e, opens) in
              let own : Owned σ q = subst (Owned σ) (sym e) valid.0 in
              let lane : q.key.lane_id ≡ l.key.lane_id =
                own.1 (a ∙ ap some (sym proposer)) ∙ sym (o.1 a) in
              own.0
              ∙ (ap (λ j. σ.values j q.key.lane_id) proposer
                  ∙ (ap (λ k. σ.values l.key.proposer_id k) lane ∙ sym o.0))
        ]
      ]

  -- After the fast path, every ticket of the next step has the leader's values.
  pub fast_values :
      (l q : Proposal V)
      → Owned σ l
      → l.key.priority ≡ priority_max
      → σ.leader ≡ some l.key.proposer_id
      → QuorumOf σ (FirstIs w.history round_one_phase_zero l.key)
      → HasTicket w.tickets (round_one_phase_zero + 1) q
      → q.value_ids ≡ l.value_ids
  unfolding phase
  fast_values l q o m a first t =
      elim (ticket-Backed σ w inv f (round_one_phase_zero + 1) q (omega arith) t) [
        | spread s0 b c d ↦ absurd (omega (arith, c))
        | kept s0 b c n ↦ absurd (omega (arith, c))
        | chosen_prior s0 p0 b c v d n ↦ absurd (omega (arith, c))
        | unchosen s0 p0 b c v d n ↦ absurd (omega (arith, c))
        | chosen_first s0 b c d n ↦
            let same : s0 ≡ round_one_phase_zero = omega (arith, b) in
            let n' = subst (λ x. Somewhere w.history x q) same n in
            let shared =
              QuorumOf-meet σ (FirstIs w.history round_one_phase_zero l.key)
                (FirstBelow w.history s0 q.key) f first d in
            let is = shared.1 in
            let low = shared.2 in
            let key =
              same_first_key round_one_phase_zero q.key is.0 low.0 shared.0 is.3.0 (omega arith)
                is.1 low.1 is.2 (low.2 ∙ same) is.3.1 low.3 in
            let bound =
              key_leb_priority l.key q.key (subst (λ k. key_leb k q.key ≡ true) is.3.2 key) in
            reserved_values l q o a n' (omega (arith, bound, m))
      ]

  -- The fast path has one winner.
  pub fast_unique :
      (l l' : Proposal V)
      → Owned σ l
      → Owned σ l'
      → QuorumOf σ (FirstIs w.history round_one_phase_zero l.key)
      → QuorumOf σ (FirstIs w.history round_one_phase_zero l'.key)
      → l.value_ids ≡ l'.value_ids
  fast_unique l l' o o' x y =
      let shared =
        QuorumOf-meet σ (FirstIs w.history round_one_phase_zero l.key)
          (FirstIs w.history round_one_phase_zero l'.key) f x y in
      same_key σ w inv f l l' o o'
        (first_key_unique round_one_phase_zero l.key l'.key shared.0 shared.1 shared.2)
