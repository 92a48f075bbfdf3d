-- ===== src/Types.antt =====
-- src/types.rs: identifiers, the logical clock, proposals, decisions, requests and replies.
--
-- The newtypes over `u64` are the numbers themselves; `u64_mod` bounds them where it matters.
pub mod Clock
pub mod Keys
pub mod Selection
use rust_quepaxa.Prelude.{
  ℕ, ◌≡◌, refl, ◌↔◌, Bool, true, false, ◌&&◌, List, [], ◌∷◌, Option, none, some, arith, Eq, ◌==◌,
  nat_eq, list_eq, option_eq, list_beq_iff, is_empty, if◌then◌else◌,
}
use rust_quepaxa.Error.{Result, ok, err, empty_proposal, empty_decision}
use Clock.{Step}
use Keys.{Priority, ReplicaId, ProposalKey, key_beq, key_beq_iff}

abbrev pub SlotIndex : Type 0
SlotIndex = ℕ

pub record Proposal (V : Type 0) : Type 0 where
  pub key : ProposalKey
  pub value_ids : List V

module _ {V : Type 0} where
  -- `Proposal::new`
  unfoldable pub new_proposal : ProposalKey → List V → Result (Proposal V)
  new_proposal key value_ids =
      if is_empty value_ids
      then err empty_proposal
      else ok (record { key = key; value_ids = value_ids })

  unfoldable pub with_priority : Proposal V → Priority → Proposal V
  with_priority p priority = record p { key = record (p.key) { priority = priority } }

pub record Decision (V : Type 0) : Type 0 where
  pub slot : SlotIndex
  pub value_ids : List V
  pub proposer : ReplicaId
  pub decided_step : Step

-- `Decision::new`
unfoldable pub new_decision :
    {V : Type 0} → SlotIndex → List V → ReplicaId → Step → Result (Decision V)
new_decision slot value_ids proposer decided_step =
    if is_empty value_ids
    then err empty_decision
    else ok (record {
      slot = slot;
      value_ids = value_ids;
      proposer = proposer;
      decided_step = decided_step;
    })

pub record RecordRequest (V : Type 0) : Type 0 where
  pub sender : ReplicaId
  pub slot : SlotIndex
  pub round_one_leader : Option ReplicaId
  pub step : Step
  pub proposal : Proposal V
  pub known_decisions : List (Decision V)

pub record RecordSummary (V : Type 0) : Type 0 where
  pub step : Step
  pub first : Option (Proposal V)
  pub prior_aggregate : Option (Proposal V)

module _ {V : Type 0} ⦃e : Eq V⦄ where
  abbrev pub proposal_beq : Proposal V → Proposal V → Bool
  proposal_beq p q = key_beq p.key q.key && p.value_ids == q.value_ids

  pub proposal_beq_iff : (p q : Proposal V) → (proposal_beq p q ≡ true) ↔ (p ≡ q)
  proposal_beq_iff p q =
      ground (arith, key_beq_iff p.key q.key, list_beq_iff p.value_ids q.value_ids)

  instance abbrev pub proposal_eq : Eq (Proposal V)
  proposal_eq = record { beq = proposal_beq; beq_iff = proposal_beq_iff }

  abbrev pub decision_beq : Decision V → Decision V → Bool
  decision_beq c d =
      c.slot == d.slot
      && c.value_ids == d.value_ids
      && c.proposer == d.proposer
      && c.decided_step == d.decided_step

  pub decision_beq_iff : (c d : Decision V) → (decision_beq c d ≡ true) ↔ (c ≡ d)
  decision_beq_iff c d = ground (arith, list_beq_iff c.value_ids d.value_ids)

  instance abbrev pub decision_eq : Eq (Decision V)
  decision_eq = record { beq = decision_beq; beq_iff = decision_beq_iff }
