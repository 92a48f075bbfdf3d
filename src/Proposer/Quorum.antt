-- ===== src/Proposer/Quorum.antt =====
-- src/proposer.rs: `quorum_size`, `validate_recorders` and `quorum_reached`.
use rust_quepaxa.Prelude.{
  ℕ, ◌+◌, ◌/◌, ◌≤◌, ◌<◌, ◌≡◌, Bool, true, ◌||◌, not, List, [], ◌∷◌, Option, none, some, arith, ◌!=◌,
  nat_eq, list_eq, option_eq, eqb, ltb, leb, if◌then◌else◌, length, contains,
}
use rust_quepaxa.Error.{
  Result, ok, err, ◌>>=◌, ◌>>◌, reject_if, empty_cluster, duplicate_replica, unknown_replica,
  configuration_mismatch, invalid_quorum,
}
use rust_quepaxa.Types.Keys.{ReplicaId}
use rust_quepaxa.Cluster.{ClusterIdentity, has_quorum}
use rust_quepaxa.Cluster
use rust_quepaxa.Cluster.Sorting.{to_set}

-- A simple majority.
unfoldable pub quorum_size : ℕ → Result ℕ
quorum_size replica_count =
    if eqb replica_count 0 then err empty_cluster else ok (replica_count / 2 + 1)

-- The first recorder that is listed a second time: the loop over `members.insert`.
unfoldable pub repeated : List ReplicaId → List ReplicaId → Option ReplicaId
repeated seen [] = none
repeated seen (r ∷ rs) =
    let rest = repeated (r ∷ seen) rs in if contains seen r then some r else rest

-- `members != configured_members`, as sets, and the quorum of the membership.
unfoldable pub check_cluster :
    List ReplicaId → ℕ → Option ℕ → Option ClusterIdentity → Result (Unit {0})
check_cluster recorders majority configured none = ok tt
check_cluster recorders majority configured (some cluster) = do
  reject_if (to_set recorders != to_set cluster.members) configuration_mismatch
  reject_if (configured != some (Cluster.quorum_size cluster)) (
      invalid_quorum (length recorders)
        (elim configured [ none ↦ majority | some quorum ↦ quorum ]))

unfoldable pub choose_quorum : ℕ → ℕ → Option ℕ → Result ℕ
choose_quorum count majority none = ok majority
choose_quorum count majority (some quorum) =
    if ltb quorum majority || ltb count quorum then err (invalid_quorum count quorum) else ok quorum

unfoldable pub validate_recorders :
    List ReplicaId → ReplicaId → Option ℕ → Option ClusterIdentity → Result ℕ
validate_recorders recorders proposer configured expected = do
  majority ← quorum_size (length recorders)
  elim (repeated [] recorders) [ none ↦ ok tt | some r ↦ err (duplicate_replica r) ]
  reject_if (not (contains recorders proposer)) (unknown_replica proposer)
  check_cluster recorders majority configured expected
  choose_quorum (length recorders) majority configured

unfoldable pub quorum_reached : List ReplicaId → ℕ → Option ClusterIdentity → Bool
quorum_reached replied quorum none = leb quorum (length replied)
quorum_reached replied quorum (some cluster) = has_quorum cluster replied

-- Every quorum that `validate_recorders` accepts is more than half of the recorders and at most
-- all of them; the proposer is one of the recorders and none is listed twice.
pub validate_recorders_sound :
    (recorders : List ReplicaId) (proposer : ReplicaId) (configured : Option ℕ)
    (expected : Option ClusterIdentity) (quorum : ℕ)
    → validate_recorders recorders proposer configured expected ≡ ok quorum
    → (length recorders < quorum + quorum)
      × (quorum ≤ length recorders)
      × (contains recorders proposer ≡ true)
      × (repeated [] recorders ≡ none)
unfolding validate_recorders quorum_size choose_quorum
validate_recorders_sound recorders proposer configured expected quorum h = ground (arith, h)
