-- ===== src/Policy/Leader.antt =====
-- src/policy.rs: who stands first, and how the others are delayed.
use rust_quepaxa.Prelude.{
  ℕ, zero, suc, ◌/◌, ◌%◌, ◌<◌, ◌≡◌, refl, sym, subst, ◌∙◌, ap, false, List, [], ◌∷◌, ◌++◌, Option,
  some, arith, nat_eq, ◌==◌, length, position, take, drop, nth, Bool-cases, Option-cases, inl, inr,
  is_empty,
}
use rust_quepaxa.Error.{ok, Result-cases}
use rust_quepaxa.Types.{SlotIndex}
use rust_quepaxa.Types.Keys.{ReplicaId}
use rust_quepaxa.Policy.{
  validate_replicas, rotated, RoundRobinPolicy, LastWinnerPolicy, round_robin_sequence,
  last_winner_sequence,
}
use rust_quepaxa.Policy.Order.{validate_replicas_iff}

nth-drop : (n : ℕ) (xs ys : List ReplicaId) → n < length xs → nth 0 (drop n xs ++ ys) ≡ nth n xs
nth-drop zero [] ys l = absurd (omega (arith, l))
nth-drop zero (x ∷ xs) ys l = refl
nth-drop (suc n) [] ys l = absurd (omega (arith, l))
nth-drop (suc n) (x ∷ xs) ys l = nth-drop n xs ys (omega (arith, l))

pub nth-rotated :
    (replicas : List ReplicaId) (offset : ℕ)
    → offset < length replicas
    → nth 0 (rotated replicas offset) ≡ nth offset replicas
unfolding rotated
nth-rotated replicas offset l = nth-drop offset replicas (take offset replicas) l

pub nonempty_length : (xs : List ReplicaId) → is_empty xs ≡ false → 0 < length xs
nonempty_length [] h = absurd cc
nonempty_length (x ∷ xs) h = omega arith

position-nth :
    (a : ReplicaId) (xs : List ReplicaId) (place : ℕ)
    → position (λ candidate. candidate == a) xs ≡ some place
    → (place < length xs) × (nth place xs ≡ some a)
position-nth a [] place h = absurd cc
position-nth a (x ∷ xs) place h = elim (Bool-cases (x == a)) [
  | inl e ↦
      let facts : (0 ≡ place) × (x ≡ a) = ground (arith, e, h) in
      subst (λ z. (z < length (x ∷ xs)) × (nth z (x ∷ xs) ≡ some a)) facts.0
        (omega arith, ap some facts.1)
  | inr e ↦ elim (Option-cases (position (λ candidate. candidate == a) xs)) [
    | inl k ↦ absurd (ground (arith, e, k, h))
    | inr (n, k) ↦
        let next : suc n ≡ place = ground (arith, e, k, h) in
        let ih = position-nth a xs n k in
        subst (λ z. (z < length (x ∷ xs)) × (nth z (x ∷ xs) ≡ some a)) next
          (omega (arith, ih.0), ih.1)
  ]
]

-- The round-robin policy puts the replica first whose position is the number of the slot's epoch,
-- modulo the number of replicas.
pub round_robin_leader :
    (self : RoundRobinPolicy) (slot : SlotIndex) (replicas : List ReplicaId)
    (winner : Option ReplicaId) (order : List ReplicaId)
    → round_robin_sequence self slot replicas winner ≡ ok order
    → nth 0 order ≡ nth ((slot / self.epoch_size) % length replicas) replicas
unfolding round_robin_sequence
round_robin_leader self slot replicas winner order h =
    elim (Result-cases (validate_replicas replicas)) [
      | inr (error, k) ↦ absurd (ground (arith, k, h))
      | inl (u, k) ↦
          let present = nonempty_length replicas ((validate_replicas_iff replicas).0 k).0 in
          let offset = (slot / self.epoch_size) % length replicas in
          let small : offset < length replicas = grind (arith, present) in
          let same : rotated replicas offset ≡ order = ground (arith, k, h) in
          ap (nth 0) (sym same) ∙ nth-rotated replicas offset small
    ]

-- A previous winner that is a replica stands first.
pub last_winner_leader :
    (self : LastWinnerPolicy) (slot : SlotIndex) (replicas : List ReplicaId) (winner : ReplicaId)
    (order : List ReplicaId)
    → last_winner_sequence self slot replicas (some winner) ≡ ok order
    → nth 0 order ≡ some winner
unfolding last_winner_sequence
last_winner_leader self slot replicas winner order h =
    elim (Option-cases (position (λ replica. replica == winner) replicas)) [
      | inl k ↦ absurd (ground (arith, k, h))
      | inr (offset, k) ↦ elim (Result-cases (validate_replicas replicas)) [
        | inr (error, m) ↦ absurd (ground (arith, k, m, h))
        | inl (u, m) ↦
            let at = position-nth winner replicas offset k in
            let same : rotated replicas offset ≡ order = ground (arith, k, m, h) in
            ap (nth 0) (sym same) ∙ (nth-rotated replicas offset at.0 ∙ at.1)
      ]
    ]
