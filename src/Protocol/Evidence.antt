-- ===== src/Protocol/Evidence.antt =====
-- src/proposer.rs: what the recorders' histories show for a ticket and for a decision.
use rust_quepaxa.Prelude.{
  ◌+◌, ◌<◌, ◌≡◌, ◌⊎◌, inl, inr, Bool, true, List, [], ◌∷◌, Option, none, some, nat_eq, contains,
  eqb, subst, arith, All, In, Bool-cases,
}
use rust_quepaxa.Types.{Proposal, Decision}
use rust_quepaxa.Types.Clock.{Step, phase, u64_mod, round_one_phase_zero}
use rust_quepaxa.Types.Keys.{ReplicaId, ProposalKey, key_leb, priority_max}
use rust_quepaxa.Cluster.{has_quorum, is_well_formed}
use rust_quepaxa.Cluster.Quorums.{quorums-Meet}
use rust_quepaxa.Isr.History.{Call, after}
use rust_quepaxa.Protocol.{Setting, Ticket}
use rust_quepaxa.Protocol.History.{Suffix, call, Entry}

All-contains :
    (P : ReplicaId → Type 0) (xs : List ReplicaId) (i : ReplicaId)
    → All P xs
    → contains xs i ≡ true
    → P i
All-contains P [] i a h = absurd (ground (arith, h))
All-contains P (x ∷ xs) i a h = elim (Bool-cases (eqb i x)) [
  | inl k ↦ let same : x ≡ i = ground (arith, k) in subst P same a.0
  | inr k ↦ All-contains P xs i a.1 (ground (arith, k, h))
]

All-imp :
    (P R : ReplicaId → Type 0) (xs : List ReplicaId)
    → ((i : ReplicaId) → P i → R i)
    → All P xs
    → All R xs
All-imp P R [] f a = tt
All-imp P R (x ∷ xs) f a = (f x a.0, All-imp P R xs f a.1)

abbrev pub Histories : Type 0 → Type 0
Histories V = ReplicaId → List (Call V)

module _ {V : Type 0} where
  -- A quorum of recorders, each of which satisfies `P`.
  abbrev pub QuorumOf : Setting V → (ReplicaId → Type 0) → Type 0
  QuorumOf σ P = (voters : List ReplicaId) × (has_quorum σ.cluster voters ≡ true) × All P voters

  pub QuorumOf-imp :
      (σ : Setting V) (P R : ReplicaId → Type 0)
      → ((i : ReplicaId) → P i → R i)
      → QuorumOf σ P
      → QuorumOf σ R
  QuorumOf-imp σ P R f q = (q.0, q.1, All-imp P R q.0 f q.2)

  -- Two quorums share a recorder, which satisfies both.
  pub QuorumOf-meet :
      (σ : Setting V) (P R : ReplicaId → Type 0)
      → is_well_formed σ.cluster ≡ true
      → QuorumOf σ P
      → QuorumOf σ R
      → (i : ReplicaId) × P i × R i
  QuorumOf-meet σ P R w p r =
      let shared = quorums-Meet σ.cluster p.0 r.0 w p.1 r.1 in
      (shared.0, All-contains P p.0 shared.0 p.2 shared.1, All-contains R r.0 shared.0 r.2 shared.2)

  -- No key above the given one is held.
  abbrev pub below : Option (Proposal V) → ProposalKey → Bool
  below none k = true
  below (some f) k = key_leb f.key k

  -- The recorder took `p` in at step `s`, when it was at that step.
  abbrev pub Took : Histories V → Step → Proposal V → ReplicaId → Type 0
  Took H s p i =
      (h0 : List (Call V)) × Suffix (call s p ∷ h0) (H i) × ((after (call s p ∷ h0)).step ≡ s)

  -- As before, and it then held no prior aggregate above `p`.
  abbrev pub TookBest : Histories V → Step → Proposal V → ReplicaId → Type 0
  TookBest H s p i =
      (h0 : List (Call V)) × Suffix (call s p ∷ h0) (H i)
      × ((after (call s p ∷ h0)).step ≡ s)
      × (below (after (call s p ∷ h0)).prior_aggregate p.key ≡ true)

  -- At step `s` the recorder held no first proposal above the key.
  abbrev pub FirstBelow : Histories V → Step → ProposalKey → ReplicaId → Type 0
  FirstBelow H s k i =
      (h : List (Call V)) × Suffix h (H i) × ((after h).step ≡ s) × (below (after h).first k ≡ true)

  abbrev pub FirstIs : Histories V → Step → ProposalKey → ReplicaId → Type 0
  FirstIs H s k i =
      (h : List (Call V)) × Suffix h (H i)
      × ((after h).step ≡ s)
      × ((f : Proposal V) × ((after h).first ≡ some f) × (f.key ≡ k))

  abbrev pub PriorBelow : Histories V → Step → ProposalKey → ReplicaId → Type 0
  PriorBelow H s k i =
      (h : List (Call V)) × Suffix h (H i)
      × ((after h).step ≡ s)
      × (below (after h).prior_aggregate k ≡ true)

  abbrev pub NoPrior : Histories V → Step → ReplicaId → Type 0
  NoPrior H s i =
      (h : List (Call V)) × Suffix h (H i)
      × ((after h).step ≡ s)
      × ((after h).prior_aggregate ≡ none)

  abbrev pub Somewhere : Histories V → Step → Proposal V → Type 0
  Somewhere H s p = (i : ReplicaId) × Entry (H i) s p

  abbrev pub HasTicket : List (Ticket V) → Step → Proposal V → Type 0
  HasTicket T s p = (j : ReplicaId) × In (record { sender = j; at = s; proposal = p }) T

  -- What stands behind a proposal at a step after the first one, by its phase.
  pub data Backed (σ : Setting V) (H : Histories V) (T : List (Ticket V)) (s : Step)
      (p : Proposal V) : Type 0 where
    chosen_first :
        (s0 : Step)
        → s ≡ s0 + 1
        → phase s ≡ 1
        → QuorumOf σ (FirstBelow H s0 p.key)
        → Somewhere H s0 p
        → Backed σ H T s p
    spread : (s0 : Step) → s ≡ s0 + 1 → phase s ≡ 2 → QuorumOf σ (Took H s0 p) → Backed σ H T s p
    kept : (s0 : Step) → s ≡ s0 + 1 → phase s ≡ 3 → HasTicket T s0 p → Backed σ H T s p
    chosen_prior :
        (s0 : Step) (p0 : Proposal V)
        → s ≡ s0 + 2
        → phase s ≡ 0
        → p.value_ids ≡ p0.value_ids
        → QuorumOf σ (PriorBelow H (s0 + 1) p0.key)
        → Somewhere H s0 p0
        → Backed σ H T s p
    unchosen :
        (s0 : Step) (p0 : Proposal V)
        → s ≡ s0 + 2
        → phase s ≡ 0
        → p.value_ids ≡ p0.value_ids
        → QuorumOf σ (NoPrior H (s0 + 1))
        → HasTicket T (s0 + 1) p0
        → Backed σ H T s p

  -- The values and the lane of a proposal are those of its proposer.
  abbrev pub Owned : Setting V → Proposal V → Type 0
  Owned σ p =
      (p.value_ids ≡ σ.values p.key.proposer_id p.key.lane_id)
      × (σ.leader ≡ some p.key.proposer_id → p.key.lane_id ≡ σ.leader_lane)

  abbrev pub Opens : Ticket V → Type 0
  Opens t =
      (t.at ≡ round_one_phase_zero)
      × (t.proposal.key.proposer_id ≡ t.sender)
      × (t.proposal.key.priority ≡ priority_max)

  abbrev pub IsValid : Setting V → Histories V → List (Ticket V) → Ticket V → Type 0
  IsValid σ H T t =
      Owned σ t.proposal
      × (t.at < u64_mod)
      × (Opens t ⊎ ((round_one_phase_zero < t.at) × Backed σ H T t.at t.proposal))

  -- What stands behind a decision.
  pub data Decreed (σ : Setting V) (H : Histories V) (T : List (Ticket V)) (d : Decision V)
      : Type 0 where
    settles :
        (s : Step) (p : Proposal V)
        → phase s ≡ 2
        → round_one_phase_zero < s
        → d.value_ids ≡ p.value_ids
        → HasTicket T s p
        → QuorumOf σ (TookBest H s p)
        → Decreed σ H T d
    takes_first :
        (w : Proposal V)
        → d.value_ids ≡ w.value_ids
        → Owned σ w
        → w.key.priority ≡ priority_max
        → σ.leader ≡ some w.key.proposer_id
        → QuorumOf σ (FirstIs H round_one_phase_zero w.key)
        → Decreed σ H T d
