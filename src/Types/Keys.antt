-- ===== src/Types/Keys.antt =====
-- src/types.rs: replica and lane identifiers, priorities, and the order on proposal keys.
use rust_quepaxa.Prelude.{
  ℕ, ◌≤◌, ◌≡◌, ◌↔◌, Bool, true, false, ◌&&◌, arith, ltb, leb, eqb, if◌then◌else◌, Eq, ◌==◌, nat_eq,
}
use rust_quepaxa.Types.Clock.{u64_max}

abbrev pub ReplicaId : Type 0
ReplicaId = ℕ

abbrev pub LaneId : Type 0
LaneId = ℕ

abbrev pub Priority : Type 0
Priority = ℕ

abbrev pub priority_min : Priority
priority_min = 0

abbrev pub priority_max : Priority
priority_max = u64_max

unfoldable pub is_leader_priority : Priority → Bool
is_leader_priority p = p == priority_max

pub record ProposalKey : Type 0 where
  pub priority : Priority
  pub proposer_id : ReplicaId
  pub lane_id : LaneId

abbrev pub key_beq : ProposalKey → ProposalKey → Bool
key_beq a b = a.priority == b.priority && a.proposer_id == b.proposer_id && a.lane_id == b.lane_id

pub key_beq_iff : (a b : ProposalKey) → (key_beq a b ≡ true) ↔ (a ≡ b)
key_beq_iff a b = ground arith

instance abbrev pub key_eq : Eq ProposalKey
key_eq = record { beq = key_beq; beq_iff = key_beq_iff }

-- The derived `Ord`: lexicographic, in the order of the fields.
unfoldable pub key_leb : ProposalKey → ProposalKey → Bool
key_leb a b =
    if eqb a.priority b.priority
    then (if eqb a.proposer_id b.proposer_id
        then leb a.lane_id b.lane_id
        else ltb a.proposer_id b.proposer_id)
    else ltb a.priority b.priority

pub key_leb_refl : (a : ProposalKey) → key_leb a a ≡ true
unfolding key_leb
key_leb_refl a = ground arith

pub key_leb_trans :
    (a b c : ProposalKey) → key_leb a b ≡ true → key_leb b c ≡ true → key_leb a c ≡ true
unfolding key_leb
key_leb_trans a b c h k = ground arith

pub key_leb_antisymm : (a b : ProposalKey) → key_leb a b ≡ true → key_leb b a ≡ true → a ≡ b
unfolding key_leb
key_leb_antisymm a b h k = ground arith

pub key_leb_total : (a b : ProposalKey) → key_leb a b ≡ false → key_leb b a ≡ true
unfolding key_leb
key_leb_total a b h = ground arith

-- A larger priority wins whatever the identifiers are.
pub key_leb_priority : (a b : ProposalKey) → key_leb a b ≡ true → a.priority ≤ b.priority
unfolding key_leb
key_leb_priority a b h = ground arith
