-- ===== src/Cluster/Validity.antt =====
-- src/types.rs: `validate_fault_tolerance` and `is_well_formed`, and that every constructor of
-- `ClusterIdentity` returns a well-formed membership.
use rust_quepaxa.Prelude.{
  ℕ, ◌+◌, ◌*◌, ◌≤◌, ◌<◌, ◌≡◌, refl, sym, subst, ◌∙◌, ◌↔◌, ◌⊎◌, true, false, List, [], ◌∷◌, ◌++◌,
  none, some, arith, nat_eq, list_eq, beq_refl, ltb, if◌then◌else◌, length, contains, is_empty,
  Option-cases, Bool-cases, inl, inr,
}
use rust_quepaxa.Error.{
  ok_of_sequence, Result, ok, err, reject_if, is_ok, configuration_epoch_overflow, empty_cluster,
  duplicate_replica,
}
use rust_quepaxa.Types.Clock.{u64_mod}
use rust_quepaxa.Types.Keys.{ReplicaId}
use rust_quepaxa.Cluster.Sorting.{
  sort, dedup, find_duplicate, members_are_normalized, is_increasing_iff, Strict, sort-Strict,
  find_duplicate-Strict, to_set, to_set-Strict, dedup_nil, sort-Ascending, find_duplicate-contains,
  find_duplicate-none, contains-sort, length-sort,
}
use rust_quepaxa.Cluster.{
  ClusterIdentity, JointMembership, normalize_members, validate_fault_tolerance, stable,
  begin_joint, finalize_joint, is_well_formed, is_joint,
}

-- A fault budget f is accepted for n < 2^64 replicas exactly when 2 f + 1 ≤ n, also where 2 f +
-- 1 overflows.
pub validate_fault_tolerance_iff :
    (n f : ℕ) → n < u64_mod → (is_ok (validate_fault_tolerance n f) ≡ true) ↔ (2 * f + 1 ≤ n)
unfolding validate_fault_tolerance
validate_fault_tolerance_iff n f h = ground arith

pub validate_fault_tolerance_sound :
    (n f : ℕ) → is_ok (validate_fault_tolerance n f) ≡ true → 2 * f + 1 ≤ n
unfolding validate_fault_tolerance
validate_fault_tolerance_sound n f h = ground arith

abbrev IsStable : ClusterIdentity → Type 0
IsStable c = (members_are_normalized c.members ≡ true) × (2 * c.max_faults + 1 ≤ length c.members)

-- What `is_well_formed` has checked of a stable epoch, and of a joint one.
pub well_formed-stable :
    (c : ClusterIdentity)
    → is_well_formed c ≡ true
    → c.joint ≡ none
    → (members_are_normalized c.members ≡ true) × (2 * c.max_faults + 1 ≤ length c.members)
unfolding is_well_formed
well_formed-stable c w s =
    ground (arith, validate_fault_tolerance_sound (length c.members) c.max_faults)

abbrev pub JointBudgets : ClusterIdentity → JointMembership → Type 0
JointBudgets c j =
    (2 * j.old_max_faults + 1 ≤ length j.old_members)
    × (2 * c.max_faults + 1 ≤ length j.new_members)

pub well_formed-joint :
    (c : ClusterIdentity) (j : JointMembership)
    → is_well_formed c ≡ true
    → c.joint ≡ some j
    → JointBudgets c j
unfolding is_well_formed
well_formed-joint c j w s = ground (
  arith,
  validate_fault_tolerance_sound (length j.old_members) j.old_max_faults,
  validate_fault_tolerance_sound (length j.new_members) c.max_faults,
)

-- What `normalize_members` promises.
abbrev pub Normalizes : List ReplicaId → Result (List ReplicaId) → Type 0
Normalizes members (ok sorted) =
    (members_are_normalized sorted ≡ true)
    × ((a : ReplicaId) → contains sorted a ≡ contains members a)
    × (length sorted ≡ length members)
Normalizes members (err e) =
    ((members ≡ []) × (e ≡ empty_cluster))
    ⊎ ((a : ReplicaId) × (contains members a ≡ true) × (e ≡ duplicate_replica a))

sort_nil : (members : List ReplicaId) → is_empty (sort members) ≡ true → members ≡ []
sort_nil [] h = refl
sort_nil (m ∷ ms) h = absurd (ground (arith, length-sort (m ∷ ms)))

-- `normalize_members` returns the same members in strictly increasing order, or reports that
-- there is none or that a listed member is repeated.
pub normalize_members-Normalizes :
    (members : List ReplicaId) → Normalizes members (normalize_members members)
unfolding normalize_members members_are_normalized
normalize_members-Normalizes members = elim (Bool-cases (is_empty (sort members))) [
  | inl e ↦ rw (e, normalize_members) (inl (sort_nil members e, refl))
  | inr e ↦ elim (Option-cases (find_duplicate (sort members))) [
    | inl f ↦
        rw (e, f, normalize_members)
          (increasing e f, λ a. contains-sort a members, length-sort members)
    | inr (a, f) ↦
        rw (e, f, normalize_members)
          (inr
            (a, sym (contains-sort a members) ∙ find_duplicate-contains a (sort members) f, refl))
  ]
]
  where
    increasing :
        is_empty (sort members) ≡ false
        → find_duplicate (sort members) ≡ none
        → members_are_normalized (sort members) ≡ true
    increasing e f = ground (
      arith,
      e,
      is_increasing_iff (sort members),
      find_duplicate-none 0 (sort members) (sort-Ascending members) f,
    )

normalized_length :
    (members sorted : List ReplicaId)
    → normalize_members members ≡ ok sorted
    → members_are_normalized sorted ≡ true
normalized_length members sorted e =
    (subst (Normalizes members) e (normalize_members-Normalizes members)).0

-- A stable membership that is returned is well formed and has the requested epoch and budget.
pub stable-is_well_formed :
    (epoch f : ℕ) (members : List ReplicaId) (c : ClusterIdentity)
    → stable epoch members f ≡ ok c
    → (is_well_formed c ≡ true) × (c.epoch ≡ epoch) × (c.max_faults ≡ f) × (c.joint ≡ none)
unfolding stable is_well_formed
stable-is_well_formed epoch f members c h =
    let (sorted, e, k) = ok_of_sequence (normalize_members members) _ h in
    ground (arith, normalized_length members sorted e, k)

append_empty : (xs ys : List ReplicaId) → is_empty xs ≡ false → is_empty (xs ++ ys) ≡ false
append_empty [] ys h = absurd (cc)
append_empty (x ∷ xs) ys h = refl

normalized-nonempty : (xs : List ReplicaId) → members_are_normalized xs ≡ true → is_empty xs ≡ false
unfolding members_are_normalized
normalized-nonempty xs h = ground arith

to_set-is_normalized :
    (members : List ReplicaId)
    → is_empty members ≡ false
    → members_are_normalized (dedup (sort members)) ≡ true
unfolding members_are_normalized to_set
to_set-is_normalized members h = ground (
  arith,
  sort_nil members,
  dedup_nil (sort members),
  is_increasing_iff (dedup (sort members)),
  to_set-Strict members,
)

-- The joint epoch that `begin_joint` builds.
abbrev pub joined : ClusterIdentity → List ReplicaId → ℕ → ClusterIdentity
joined c sorted f = record {
  members = dedup (sort (c.members ++ sorted));
  max_faults = f;
  epoch = c.epoch + 1;
  joint =
      some
        (record { old_members = c.members; old_max_faults = c.max_faults; new_members = sorted });
}

pub begin_joint-joined :
    (c : ClusterIdentity) (members : List ReplicaId) (f : ℕ) (next : ClusterIdentity)
    → begin_joint c members f ≡ ok next
    → (sorted : List ReplicaId) × (members_are_normalized sorted ≡ true)
      × (is_ok (validate_fault_tolerance (length sorted) f) ≡ true)
      × (c.joint ≡ none)
      × (c.epoch + 1 < u64_mod)
      × (next ≡ joined c sorted f)
unfolding begin_joint
begin_joint-joined c members f next h =
    let (_, stable_now, k) = ok_of_sequence (reject_if (is_joint c) _) _ h in
    let (sorted, e, k2) = ok_of_sequence (normalize_members members) _ k in
    (
      sorted,
      normalized_length members sorted e,
      ground (arith, k2),
      ground (arith, stable_now),
      ground (arith, k2),
      ground (arith, k2),
    )

-- A joint epoch over a well-formed stable one is well formed.
pub joined-is_well_formed :
    (c : ClusterIdentity) (sorted : List ReplicaId) (f : ℕ)
    → is_well_formed c ≡ true
    → c.joint ≡ none
    → members_are_normalized sorted ≡ true
    → is_ok (validate_fault_tolerance (length sorted) f) ≡ true
    → is_well_formed (joined c sorted f) ≡ true
unfolding is_well_formed
joined-is_well_formed c sorted f w s n v =
    let now = well_formed-stable c w s in
    ground (
      arith,
      now.0,
      to_set-is_normalized (c.members ++ sorted),
      beq_refl (dedup (sort (c.members ++ sorted))),
      append_empty c.members sorted,
      normalized-nonempty c.members,
    )

normalized-Strict :
    (members : List ReplicaId) → members_are_normalized members ≡ true → Strict members
unfolding members_are_normalized
normalized-Strict members h = ground (arith, is_increasing_iff members)

pub normalize_members-normalized :
    (members : List ReplicaId)
    → members_are_normalized members ≡ true
    → normalize_members members ≡ ok members
unfolding normalize_members
normalize_members-normalized members h = ground (
  arith,
  sort-Strict members (normalized-Strict members h),
  find_duplicate-Strict members (normalized-Strict members h),
  normalized-nonempty members h,
)

abbrev pub finalized : ClusterIdentity → JointMembership → ClusterIdentity
finalized c j = record {
  members = j.new_members;
  max_faults = c.max_faults;
  epoch = c.epoch + 1;
  joint = none;
}

pub joint_distinct :
    (c : ClusterIdentity) (j : JointMembership)
    → is_well_formed c ≡ true
    → c.joint ≡ some j
    → Strict j.old_members × Strict j.new_members
unfolding is_well_formed members_are_normalized
joint_distinct c j w e = (
  ground (arith, is_increasing_iff j.old_members),
  ground (arith, is_increasing_iff j.new_members),
)

finalized_parts :
    (c : ClusterIdentity) (j : JointMembership)
    → is_well_formed c ≡ true
    → c.joint ≡ some j
    → (members_are_normalized j.new_members ≡ true)
      × (is_ok (validate_fault_tolerance (length j.new_members) c.max_faults) ≡ true)
unfolding is_well_formed
finalized_parts c j w e = ground arith

-- On a well-formed joint membership `finalize_joint` returns the new voters with their fault
-- budget in the next epoch, and fails only where the epoch would overflow.
pub finalize_joint-finalized :
    (c : ClusterIdentity) (j : JointMembership)
    → is_well_formed c ≡ true
    → c.joint ≡ some j
    → finalize_joint c
      ≡ (if ltb (c.epoch + 1) u64_mod then ok (finalized c j) else err configuration_epoch_overflow)
unfolding finalize_joint stable
finalize_joint-finalized c j w e =
    let parts = finalized_parts c j w e in
    ground (arith, normalize_members-normalized j.new_members parts.0, parts.1)

pub finalized-is_well_formed :
    (c : ClusterIdentity) (j : JointMembership)
    → is_well_formed c ≡ true
    → c.joint ≡ some j
    → is_well_formed (finalized c j) ≡ true
unfolding is_well_formed
finalized-is_well_formed c j w e = ground (arith, finalized_parts c j w e)
