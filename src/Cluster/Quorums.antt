-- ===== src/Cluster/Quorums.antt =====
-- src/types.rs: `has_quorum` and `quorum_size`. Quorums of one epoch meet in a voter.
use rust_quepaxa.Prelude.{
  ℕ, ◌+◌, ◌-◌, ◌≤◌, ◌<◌, ◌≡◌, refl, sym, ◌∙◌, Bool, true, false, ◌&&◌, List, [], ◌∷◌, none, some,
  arith, nat_eq, eqb_iff, length, contains, all, tally, tally_overlap, tally-le-length, keep,
  length-keep, ap, and_split, Option-cases, Bool-cases, inl, inr,
}
use rust_quepaxa.Types.Keys.{ReplicaId}
use rust_quepaxa.Cluster.{
  ClusterIdentity, JointMembership, has_quorum, quorum_size, is_well_formed, is_successor_of,
}
use rust_quepaxa.Cluster.Validity.{well_formed-stable, well_formed-joint, joint_distinct}
use rust_quepaxa.Cluster.Transitions.{successor-cases, successor_well_formed}
use rust_quepaxa.Cluster.Sorting.{
  binary_search, Distinct, Strict-Distinct, to_set, contains-to_set, to_set-Strict,
}

-- Some replica that both tests accept.
abbrev pub Shared : (ReplicaId → Bool) → (ReplicaId → Bool) → Type 0
Shared p q = (a : ReplicaId) × (p a ≡ true) × (q a ≡ true)

tally_witness :
    (p : ReplicaId → Bool) (xs : List ReplicaId) → 0 < tally p xs → (a : ReplicaId) × (p a ≡ true)
tally_witness p [] h = absurd (omega arith)
tally_witness p (x ∷ xs) h = elim (Bool-cases (p x)) [
  | inl e ↦ (x, e)
  | inr e ↦ tally_witness p xs (ground arith)
]

-- Two tests that together accept more than the whole list accept a common element.
pub majorities_meet :
    (p q : ReplicaId → Bool) (xs : List ReplicaId)
    → length xs < tally p xs + tally q xs
    → Shared p q
majorities_meet p q xs h =
    let (a, e) = tally_witness (λ x. p x && q x) xs (omega (arith, tally_overlap p q xs)) in
    let both = and_split e in (a, both.0, both.1)

tally_mono :
    (p q : ReplicaId → Bool) (xs : List ReplicaId)
    → ((a : ReplicaId) → p a ≡ true → q a ≡ true)
    → tally p xs ≤ tally q xs
tally_mono p q [] h = omega arith
tally_mono p q (x ∷ xs) h = ground (arith, h x, tally_mono p q xs h)

-- A listed element that is new to the test adds to the count.
tally_cons :
    (v : ReplicaId) (vs xs : List ReplicaId)
    → contains xs v ≡ true
    → contains vs v ≡ false
    → tally (contains vs) xs + 1 ≤ tally (contains (v ∷ vs)) xs
tally_cons v vs [] h n = absurd (cc)
tally_cons v vs (x ∷ xs) h n = ground (
  arith,
  tally_cons v vs xs,
  tally_mono (contains vs) (contains (v ∷ vs)) xs (λ a e. ground arith),
  eqb_iff v x,
)

-- Distinct listed voters are counted among the list.
pub length-le-tally :
    (vs xs : List ReplicaId)
    → Distinct vs
    → all (contains xs) vs ≡ true
    → length vs ≤ tally (contains vs) xs
length-le-tally [] xs d h = omega arith
length-le-tally (v ∷ vs) xs d h = ground (arith, length-le-tally vs xs d.1, tally_cons v vs xs)

distinct_voters :
    (vs xs : List ReplicaId)
    → all (contains xs) (to_set vs) ≡ true
    → length (to_set vs) ≤ tally (contains vs) xs
distinct_voters vs xs h = omega (
  arith,
  length-le-tally (to_set vs) xs (Strict-Distinct (to_set vs) (to_set-Strict vs)) h,
  tally_mono (contains (to_set vs)) (contains vs) xs (λ a e. sym (contains-to_set a vs) ∙ e),
)

-- The voters that a component of the membership counts.
abbrev Counted : ℕ → List ReplicaId → List ReplicaId → Type 0
Counted needed members voters = needed ≤ tally (contains voters) members

has_quorum-stable :
    (c : ClusterIdentity) (vs : List ReplicaId)
    → c.joint ≡ none
    → has_quorum c vs ≡ true
    → Counted (length c.members - c.max_faults) c.members vs
unfolding has_quorum binary_search
has_quorum-stable c vs s h = ground (arith, distinct_voters vs c.members)

tally-to_set : (vs xs : List ReplicaId) → tally (contains (to_set vs)) xs ≤ tally (contains vs) xs
tally-to_set vs xs = tally_mono _ _ xs (λ a e. sym (contains-to_set a vs) ∙ e)

has_quorum-joint :
    (c : ClusterIdentity) (j : JointMembership) (vs : List ReplicaId)
    → c.joint ≡ some j
    → has_quorum c vs ≡ true
    → Counted (length j.old_members - j.old_max_faults) j.old_members vs
      × Counted (length j.new_members - c.max_faults) j.new_members vs
unfolding has_quorum
has_quorum-joint c j vs s h =
    ground (arith, tally-to_set vs j.old_members, tally-to_set vs j.new_members)

abbrev pub Meet : List ReplicaId → List ReplicaId → Type 0
Meet vs ws = Shared (contains vs) (contains ws)

-- Any two voter sets that `has_quorum` accepts under one well-formed membership, stable or
-- joint, have a voter in common.
pub quorums-Meet :
    (c : ClusterIdentity) (vs ws : List ReplicaId)
    → is_well_formed c ≡ true
    → has_quorum c vs ≡ true
    → has_quorum c ws ≡ true
    → Meet vs ws
quorums-Meet c vs ws w p q = elim (Option-cases c.joint) [
  | inl e ↦ majorities_meet _ _ c.members (
      omega
        (arith, has_quorum-stable c vs e p, has_quorum-stable c ws e q, well_formed-stable c w e))
  | inr (j, e) ↦ majorities_meet _ _ j.old_members (
      omega (
        arith,
        has_quorum-joint c j vs e p,
        has_quorum-joint c j ws e q,
        well_formed-joint c j w e,
      ))
]

-- Where `is_successor_of` accepts a membership change, every quorum of the next epoch has a
-- voter in common with every quorum of the epoch before.
pub successor_quorums-Meet :
    (previous next : ClusterIdentity) (vs ws : List ReplicaId)
    → is_successor_of next previous ≡ true
    → has_quorum previous vs ≡ true
    → has_quorum next ws ≡ true
    → Meet vs ws
successor_quorums-Meet previous next vs ws s p q = elim (successor-cases next previous s) [
  | inl (j, e, d, m, f) ↦ majorities_meet _ _ previous.members (
      ground (
        arith,
        has_quorum-stable previous vs d p,
        has_quorum-joint next j ws e q,
        well_formed-joint next j (successor_well_formed next previous s).0 e,
      ))
  | inr (j, e, d, m, f) ↦ majorities_meet _ _ next.members (
      ground (
        arith,
        has_quorum-joint previous j vs d p,
        has_quorum-stable next ws e q,
        well_formed-joint previous j (successor_well_formed next previous s).1 d,
      ))
]

contains-keep :
    (p : ReplicaId → Bool) (xs : List ReplicaId) (a : ReplicaId)
    → contains (keep p xs) a ≡ (contains xs a && p a)
contains-keep p [] a = refl
contains-keep p (x ∷ xs) a = ground (arith, contains-keep p xs a, ap p {x = a} {y = x})

keep-Distinct : (p : ReplicaId → Bool) (xs : List ReplicaId) → Distinct xs → Distinct (keep p xs)
keep-Distinct p [] d = tt
keep-Distinct p (x ∷ xs) d = ground (arith, keep-Distinct p xs, contains-keep p xs x)

pub all_of :
    (q : ReplicaId → Bool) (xs : List ReplicaId)
    → ((a : ReplicaId) → contains xs a ≡ true → q a ≡ true)
    → all q xs ≡ true
all_of q [] h = refl
all_of q (x ∷ xs) h = ground (arith, h x, all_of q xs (λ a e. h a (ground (arith, e))))

-- Counting the accepted elements of a distinct list inside another list that holds them.
tally_inject :
    (p q : ReplicaId → Bool) (xs ys : List ReplicaId)
    → Distinct xs
    → ((a : ReplicaId) → p a ≡ true → contains xs a ≡ true → (contains ys a ≡ true) × (q a ≡ true))
    → tally p xs ≤ tally q ys
tally_inject p q xs ys d h = omega (
  arith,
  length-keep p xs,
  length-le-tally (keep p xs) ys (keep-Distinct p xs d)
      (all_of (contains ys) (keep p xs) (λ a e. (h a (kept a e).0 (kept a e).1).0)),
  tally_mono (contains (keep p xs)) q ys (λ a e. (h a (kept a e).0 (kept a e).1).1),
)
  where
    kept : (a : ReplicaId) → contains (keep p xs) a ≡ true → (p a ≡ true) × (contains xs a ≡ true)
    kept a e = ground (arith, e, contains-keep p xs a)

-- A distinct list holds at least the union of what it shares with two distinct lists.
union_bound :
    (olds news vs : List ReplicaId)
    → Distinct olds
    → Distinct news
    → Distinct vs
    → (tally (contains vs) olds ≤ length vs)
      × (tally (contains vs) news ≤ length vs)
      × (tally (contains vs) olds + tally (contains vs) news
          ≤ length vs + tally (contains news) olds)
union_bound olds news vs d e f = omega (
  arith,
  tally_inject (contains vs) (contains olds) olds vs d (λ a p q. (p, q)),
  tally_inject (contains vs) (contains news) news vs e (λ a p q. (p, q)),
  tally_inject (λ a. contains olds a && contains news a) (contains news) vs olds f
      (λ a p q. let both = and_split p in (both.0, both.1)),
  tally_overlap (contains olds) (contains news) vs,
  tally-le-length (contains olds) vs,
  tally-le-length (contains news) vs,
)

pub set-Distinct : (vs : List ReplicaId) → Distinct (to_set vs)
set-Distinct vs = Strict-Distinct (to_set vs) (to_set-Strict vs)

quorum_size_stable :
    (c : ClusterIdentity) (vs : List ReplicaId)
    → c.joint ≡ none
    → has_quorum c vs ≡ true
    → quorum_size c ≤ length (to_set vs)
unfolding has_quorum
quorum_size_stable c vs e h = ground arith

quorum_size_joint :
    (c : ClusterIdentity) (j : JointMembership) (vs : List ReplicaId)
    → is_well_formed c ≡ true
    → c.joint ≡ some j
    → has_quorum c vs ≡ true
    → quorum_size c ≤ length (to_set vs)
unfolding has_quorum binary_search
quorum_size_joint c j vs w e h =
    let (olds, news) = joint_distinct c j w e in
    ground (
      arith,
      union_bound j.old_members j.new_members (to_set vs) (Strict-Distinct j.old_members olds)
          (Strict-Distinct j.new_members news) (set-Distinct vs),
    )

-- No voter set with fewer distinct members than `quorum_size` is a quorum of a well-formed
-- membership, stable or joint.
pub quorum_size-le :
    (c : ClusterIdentity) (vs : List ReplicaId)
    → is_well_formed c ≡ true
    → has_quorum c vs ≡ true
    → quorum_size c ≤ length (to_set vs)
quorum_size-le c vs w h = elim (Option-cases c.joint) [
  | inl e ↦ quorum_size_stable c vs e h
  | inr (j, e) ↦ quorum_size_joint c j vs w e h
]
