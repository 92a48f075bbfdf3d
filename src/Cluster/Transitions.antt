-- ===== src/Cluster/Transitions.antt =====
-- src/types.rs: `begin_joint`, `finalize_joint` and `is_successor_of`.
use rust_quepaxa.Prelude.{
  ℕ, ◌+◌, ◌<◌, ◌≡◌, sym, ◌⊎◌, true, List, none, some, arith, nat_eq, list_eq, beq_refl, subst,
  list_beq_iff, length, Option-cases, inl, inr,
}
use rust_quepaxa.Error.{ok, is_ok}
use rust_quepaxa.Types.Clock.{u64_mod}
use rust_quepaxa.Types.Keys.{ReplicaId}
use rust_quepaxa.Cluster.Sorting.{members_are_normalized}
use rust_quepaxa.Cluster.Validity.{
  finalized, finalize_joint-finalized, finalized-is_well_formed, joined, begin_joint-joined,
  joined-is_well_formed,
}
use rust_quepaxa.Cluster.{
  ClusterIdentity, JointMembership, validate_fault_tolerance, begin_joint, finalize_joint,
  is_well_formed, is_successor_of,
}

module _ (next previous : ClusterIdentity) (s : is_successor_of next previous ≡ true) where
  pub successor_well_formed : (is_well_formed next ≡ true) × (is_well_formed previous ≡ true)
  unfolding is_successor_of
  successor_well_formed = ground arith

  pub successor_epoch : next.epoch ≡ previous.epoch + 1
  unfolding is_successor_of
  successor_epoch = ground arith

  -- The only two transitions: stable to joint, and joint to stable.
  pub successor-cases :
      ((j : JointMembership) × (next.joint ≡ some j)
        × (previous.joint ≡ none)
        × (j.old_members ≡ previous.members)
        × (j.old_max_faults ≡ previous.max_faults))
      ⊎ ((j : JointMembership) × (next.joint ≡ none)
          × (previous.joint ≡ some j)
          × (next.members ≡ j.new_members)
          × (next.max_faults ≡ previous.max_faults))
  unfolding is_successor_of
  successor-cases = elim (Option-cases next.joint) [
    | inr (j, e) ↦ inl (
      j,
      e,
      ground arith,
      ground (arith, list_beq_iff j.old_members previous.members),
      ground arith,
    )
    | inl e ↦ elim (Option-cases previous.joint) [
      | inl d ↦ absurd (ground arith)
      | inr (j, d) ↦
          inr (j, e, d, ground (arith, list_beq_iff next.members j.new_members), ground arith)
    ]
  ]

joined-is_successor_of :
    (c : ClusterIdentity) (sorted : List ReplicaId) (f : ℕ)
    → is_well_formed c ≡ true
    → c.joint ≡ none
    → members_are_normalized sorted ≡ true
    → is_ok (validate_fault_tolerance (length sorted) f) ≡ true
    → c.epoch + 1 < u64_mod
    → is_successor_of (joined c sorted f) c ≡ true
unfolding is_successor_of
joined-is_successor_of c sorted f w s n v b =
    ground (arith, joined-is_well_formed c sorted f w s n v, beq_refl c.members)

-- From a well-formed membership `begin_joint` returns only memberships that `is_successor_of`
-- accepts.
pub begin_joint-is_successor_of :
    (c : ClusterIdentity) (members : List ReplicaId) (f : ℕ) (next : ClusterIdentity)
    → is_well_formed c ≡ true
    → begin_joint c members f ≡ ok next
    → is_successor_of next c ≡ true
begin_joint-is_successor_of c members f next w h =
    let (sorted, n, v, s, b, e) = begin_joint-joined c members f next h in
    subst (λ k. is_successor_of k c ≡ true) (sym e) (joined-is_successor_of c sorted f w s n v b)

finalized-is_successor_of :
    (c : ClusterIdentity) (j : JointMembership)
    → is_well_formed c ≡ true
    → c.joint ≡ some j
    → c.epoch + 1 < u64_mod
    → is_successor_of (finalized c j) c ≡ true
unfolding is_successor_of
finalized-is_successor_of c j w e b =
    ground (arith, finalized-is_well_formed c j w e, beq_refl j.new_members)

-- From a well-formed joint epoch `finalize_joint` returns only legal successors.
pub finalize_joint-is_successor_of :
    (c next : ClusterIdentity)
    → is_well_formed c ≡ true
    → finalize_joint c ≡ ok next
    → is_successor_of next c ≡ true
unfolding finalize_joint
finalize_joint-is_successor_of c next w h = elim (Option-cases c.joint) [
  | inl e ↦ absurd (ground arith)
  | inr (j, e) ↦ ground (arith, finalize_joint-finalized c j w e, finalized-is_successor_of c j w e)
]
