-- ===== src/Policy/Order.antt =====
-- src/policy.rs: every sequence is an order of the replicas.
use rust_quepaxa.Prelude.{
  ℕ, suc, ◌+◌, ◌*◌, ◌-◌, ◌/◌, ◌%◌, ◌≤◌, ◌≡◌, refl, sym, subst, ◌↔◌, Bool, true, false, List, [],
  ◌∷◌, ◌++◌, Option, none, some, arith, nat_eq, ◌==◌, eqb, ltb, length, tally, contains, is_empty,
  find, position, take, drop, take-drop, remove_at, Bool-cases, Option-cases, inl, inr,
}
use rust_quepaxa.Prelude.Sorting.{sort_by, sort_by-Perm}
use mathlib.Core.List.{Perm, perm_append_comm}
use mathlib.Core.List.Perm
use rust_quepaxa.Error.{Result, ok, ◌>>◌, Result-cases}
use rust_quepaxa.Types.{SlotIndex}
use rust_quepaxa.Types.Keys.{ReplicaId}
use rust_quepaxa.Cluster.Sorting.{to_set, Distinct}
use rust_quepaxa.Cluster.Sets.{to_set-length-Distinct, Distinct-to_set-length, once-Distinct}
use rust_quepaxa.Policy.{
  is_repeated, validate_replicas, rotated, RoundRobinPolicy, LastWinnerPolicy, fixed_sequence,
  round_robin_sequence, leaderless_sequence, last_winner_sequence,
}
use rust_quepaxa.Policy.Adaptive.{
  AdaptivePolicy, adaptive_sequence, promote, reexplored, ranks_at_most,
}

-- No element that the test finds is listed.
find-none :
    (p : ReplicaId → Bool) (xs : List ReplicaId) (a : ReplicaId)
    → find p xs ≡ none
    → contains xs a ≡ true
    → p a ≡ false
find-none p [] a h k = absurd cc
find-none p (x ∷ xs) a h k = elim (Bool-cases (p x)) [
  | inl e ↦ absurd (ground (arith, e, h))
  | inr e ↦ elim (Bool-cases (eqb a x)) [
    | inl m ↦ let same : x ≡ a = ground (arith, m) in subst (λ z. p z ≡ false) same e
    | inr m ↦ find-none p xs a (ground (arith, e, h)) (ground (arith, m, k))
  ]
]

tally_absent :
    (a : ReplicaId) (xs : List ReplicaId)
    → contains xs a ≡ false
    → tally (λ candidate. candidate == a) xs ≡ 0
tally_absent a [] h = refl
tally_absent a (x ∷ xs) h = ground (arith, h, tally_absent a xs)

-- Where no replica is found to be listed twice, none is.
unrepeated-Distinct :
    (replicas : List ReplicaId) → find (is_repeated replicas) replicas ≡ none → Distinct replicas
unrepeated-Distinct replicas h = once-Distinct replicas once
  where
    once : (a : ReplicaId) → tally (λ candidate. candidate == a) replicas ≤ 1
    once a = elim (Bool-cases (contains replicas a)) [
      | inl k ↦ ground (arith, find-none (is_repeated replicas) replicas a h k)
      | inr k ↦ ground (arith, tally_absent a replicas k)
    ]

-- The check accepts exactly the nonempty lists without repetitions.
pub validate_replicas_iff :
    (replicas : List ReplicaId)
    → (validate_replicas replicas ≡ ok tt) ↔ ((is_empty replicas ≡ false) × Distinct replicas)
unfolding validate_replicas
validate_replicas_iff replicas =
    (accepted, λ v. ground (arith, v.0, Distinct-to_set-length replicas v.1))
  where
    accepted : validate_replicas replicas ≡ ok tt → (is_empty replicas ≡ false) × Distinct replicas
    accepted h = elim (Bool-cases (length (to_set replicas) == length replicas)) [
      | inl e ↦ (ground (arith, h), to_set-length-Distinct replicas (ground (arith, e)))
      | inr e ↦ elim (Option-cases (find (is_repeated replicas) replicas)) [
        | inl k ↦ (ground (arith, h), unrepeated-Distinct replicas k)
        | inr (a, k) ↦ absurd (ground (arith, e, k, h))
      ]
    ]

pub rotated-Perm :
    (replicas : List ReplicaId) (offset : ℕ) → Perm (rotated replicas offset) replicas
unfolding rotated
rotated-Perm replicas offset =
    subst (Perm (drop offset replicas ++ take offset replicas)) (take-drop offset replicas)
      (perm_append_comm (drop offset replicas) (take offset replicas))

-- The replica at a position, put first.
front-Perm :
    (a : ReplicaId) (xs : List ReplicaId) (place : ℕ)
    → position (λ candidate. candidate == a) xs ≡ some place
    → Perm (a ∷ remove_at place xs) xs
front-Perm a [] place h = absurd cc
front-Perm a (x ∷ xs) place h = elim (Bool-cases (x == a)) [
  | inl e ↦
      let facts : (place ≡ 0) × (a ≡ x) = ground (arith, e, h) in
      subst (λ z. Perm (a ∷ remove_at z (x ∷ xs)) (x ∷ xs)) (sym facts.0)
        (subst (λ z. Perm (z ∷ xs) (x ∷ xs)) (sym facts.1) (Perm.refl (x ∷ xs)))
  | inr e ↦ elim (Option-cases (position (λ candidate. candidate == a) xs)) [
    | inl k ↦ absurd (ground (arith, e, k, h))
    | inr (n, k) ↦
        let next : place ≡ suc n = ground (arith, e, k, h) in
        subst (λ z. Perm (a ∷ remove_at z (x ∷ xs)) (x ∷ xs)) (sym next)
          (Perm.trans (Perm.swap x a (remove_at n xs)) (Perm.cons x (front-Perm a xs n k)))
  ]
]

pub promote-Perm : (a : ReplicaId) (xs : List ReplicaId) → Perm (promote a xs) xs
unfolding promote
promote-Perm a xs = elim (Option-cases (position (λ candidate. candidate == a) xs)) [
  | inl e ↦ rw (e, promote) (Perm.refl xs)
  | inr (place, e) ↦ rw (e, promote) (front-Perm a xs place e)
]

-- What a sequence of the replicas promises.
abbrev pub Orders : List ReplicaId → Result (List ReplicaId) → Type 0
Orders replicas sequence =
    (order : List ReplicaId)
    → sequence ≡ ok order
    → Perm order replicas × (is_empty replicas ≡ false) × Distinct replicas

-- A policy that reorders the replicas after the check.
checked-Orders :
    (replicas order : List ReplicaId)
    → Perm order replicas
    → Orders replicas (validate_replicas replicas >> ok order)
checked-Orders replicas order p found h = elim (Result-cases (validate_replicas replicas)) [
  | inr (error, k) ↦ absurd (ground (arith, k, h))
  | inl (u, k) ↦
      let valid = (validate_replicas_iff replicas).0 k in
      let same : order ≡ found = ground (arith, k, h) in
      (subst (λ o. Perm o replicas) same p, valid.0, valid.1)
]

last_winner-Orders :
    (self : LastWinnerPolicy) (slot : SlotIndex) (replicas : List ReplicaId)
    (winner : Option ReplicaId)
    → Orders replicas (last_winner_sequence self slot replicas winner)
unfolding last_winner_sequence
last_winner-Orders self slot replicas none order h =
    checked-Orders replicas replicas (Perm.refl replicas) order h
last_winner-Orders self slot replicas (some winner) order h =
    elim (Option-cases (position (λ replica. replica == winner) replicas)) [
      | inl k ↦ absurd (ground (arith, k, h))
      | inr (offset, k) ↦
          checked-Orders replicas (rotated replicas offset) (rotated-Perm replicas offset) order
            (ground (arith, k, h))
    ]

adaptive-Orders :
    (self : AdaptivePolicy) (slot : SlotIndex) (replicas : List ReplicaId)
    (winner : Option ReplicaId)
    → Orders replicas (adaptive_sequence self slot replicas winner)
unfolding adaptive_sequence
adaptive-Orders self slot replicas winner order h = elim (Bool-cases (ltb epoch warmup)) [
  | inl k ↦
      checked-Orders replicas (rotated replicas (epoch % length replicas))
        (rotated-Perm replicas (epoch % length replicas)) order (ground (arith, k, h))
  | inr k ↦ elim (Option-cases (reexplored self.reexplore_every_epochs (epoch - warmup) replicas)) [
    | inl m ↦ checked-Orders replicas ranked ranked-Perm order (ground (arith, k, m, h))
    | inr (a, m) ↦
        checked-Orders replicas (promote a ranked) (Perm.trans (promote-Perm a ranked) ranked-Perm)
          order (ground (arith, k, m, h))
  ]
]
  where
    epoch : ℕ
    epoch = slot / self.epoch_size

    warmup : ℕ
    warmup = 2 * length replicas + 1

    ranked : List ReplicaId
    ranked = sort_by (ranks_at_most self) replicas

    ranked-Perm : Perm ranked replicas
    ranked-Perm = sort_by-Perm (ranks_at_most self) replicas

-- The sequence that any of the five policies gives for a slot lists each replica exactly once, and
-- none is given for an empty list of replicas or one with a repetition.
pub sequences-Orders :
    (round_robin : RoundRobinPolicy) (adaptive : AdaptivePolicy) (slot : SlotIndex)
    (replicas : List ReplicaId) (winner : Option ReplicaId)
    → Orders replicas (fixed_sequence record {} slot replicas winner)
      × Orders replicas (round_robin_sequence round_robin slot replicas winner)
      × Orders replicas (leaderless_sequence record {} slot replicas winner)
      × Orders replicas (last_winner_sequence record {} slot replicas winner)
      × Orders replicas (adaptive_sequence adaptive slot replicas winner)
unfolding fixed_sequence round_robin_sequence leaderless_sequence
sequences-Orders round_robin adaptive slot replicas winner = (
  checked-Orders replicas replicas (Perm.refl replicas),
  checked-Orders replicas (rotated replicas ((slot / round_robin.epoch_size) % length replicas))
      (rotated-Perm replicas ((slot / round_robin.epoch_size) % length replicas)),
  checked-Orders replicas replicas (Perm.refl replicas),
  last_winner-Orders record {} slot replicas winner,
  adaptive-Orders adaptive slot replicas winner,
)
