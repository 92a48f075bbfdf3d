-- ===== src/Examples/Membership.antt =====
-- Memberships and quorums at concrete inputs.
use rust_quepaxa.Prelude.{◌≡◌, refl, true, false, [], ◌∷◌}
use rust_quepaxa.Error.{ok}
use rust_quepaxa.Cluster.{
  has_quorum, is_well_formed, is_successor_of, begin_joint, normalize_members,
  validate_fault_tolerance,
}
use rust_quepaxa.Cluster.Sorting.{
  binary_search, members_are_normalized, sort, dedup, to_set, find_duplicate,
}
use rust_quepaxa.Cluster.Quorums.{Meet, quorums-Meet, successor_quorums-Meet}
use rust_quepaxa.Samples.{three, joint_three, moved}

three_well_formed : is_well_formed three ≡ true
unfolding is_well_formed members_are_normalized validate_fault_tolerance
three_well_formed = refl

joint_well_formed : is_well_formed joint_three ≡ true
unfolding is_well_formed members_are_normalized validate_fault_tolerance sort dedup
joint_well_formed = refl

moved_follows : is_successor_of moved joint_three ≡ true
unfolding is_successor_of is_well_formed members_are_normalized validate_fault_tolerance sort dedup
moved_follows = refl

three_begins_joint : begin_joint three (5 ∷ 3 ∷ 4 ∷ []) 1 ≡ ok joint_three
unfolding begin_joint normalize_members find_duplicate validate_fault_tolerance sort dedup
three_begins_joint = refl

-- Half of the old voters is no quorum of the joint epoch.
joint_needs_both : has_quorum joint_three (1 ∷ 2 ∷ 3 ∷ []) ≡ false
unfolding has_quorum to_set
joint_needs_both = refl

quorum_joint : has_quorum joint_three (1 ∷ 3 ∷ 4 ∷ []) ≡ true
unfolding has_quorum to_set
quorum_joint = refl

quorum_moved : has_quorum moved (4 ∷ 3 ∷ []) ≡ true
unfolding has_quorum to_set binary_search
quorum_moved = refl

quorums-Meet_example : Meet (1 ∷ 3 ∷ 4 ∷ []) (1 ∷ 3 ∷ 4 ∷ [])
quorums-Meet_example =
    quorums-Meet joint_three (1 ∷ 3 ∷ 4 ∷ []) (1 ∷ 3 ∷ 4 ∷ []) joint_well_formed quorum_joint
      quorum_joint

successor_quorums-Meet_example : Meet (1 ∷ 3 ∷ 4 ∷ []) (4 ∷ 3 ∷ [])
successor_quorums-Meet_example =
    successor_quorums-Meet joint_three moved (1 ∷ 3 ∷ 4 ∷ []) (4 ∷ 3 ∷ []) moved_follows
      quorum_joint quorum_moved
