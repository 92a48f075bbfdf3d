-- ===== src/Protocol.antt =====
-- src/proposer.rs with src/isr.rs: proposers and recorders of one slot, interleaved in any order.
--
-- A proposer at a step with a proposal is a ticket; it stays in the world, so that a request may be
-- delivered late, again or never, and a proposer may stop at any time.
pub mod History
mod Trace
mod Evidence
mod Growth
mod Provenance
mod Dominance
mod FastPath
mod Uniform
mod Replies
mod Gather
mod Proceed
mod Decide
mod Invariant
pub mod Recording
pub mod Sending
pub mod Agreement
use rust_quepaxa.Prelude.{
  ℕ, ◌<◌, ◌≡◌, ◌⊎◌, Bool, true, false, ◌&&◌, ◌||◌, List, [], ◌∷◌, Option, none, some, Eq, ◌==◌,
  ◌!=◌, nat_eq, option_eq, eqb, ltb, if◌then◌else◌, All, In,
}
use rust_quepaxa.Error.{ok}
use rust_quepaxa.Types.{Proposal, Decision, SlotIndex, with_priority}
use rust_quepaxa.Types.Clock.{Step, phase, round_one_phase_zero}
use rust_quepaxa.Types.Keys.{ReplicaId, LaneId, Priority, priority_max}
use rust_quepaxa.Cluster.{ClusterIdentity, is_well_formed}
use rust_quepaxa.Messages.{RecordReply}
use rust_quepaxa.Isr.{summary}
use rust_quepaxa.Isr.History.{Call, after}
use rust_quepaxa.Proposer.{decided, again, advance}
use rust_quepaxa.Proposer.Collect.{IsQuorum}
use History.{Suffix, call}

-- What all proposers of a slot share. `values` gives the values that a replica proposes on a lane;
-- `leader_lane` is the one lane on which the leader proposes.
pub record Setting (V : Type 0) : Type 0 where
  pub cluster : ClusterIdentity
  pub quorum : ℕ
  pub slot : SlotIndex
  pub leader : Option ReplicaId
  pub leader_lane : LaneId
  pub values : ReplicaId → LaneId → List V

-- A proposer that has reached a step with a proposal.
pub record Ticket (V : Type 0) : Type 0 where
  pub sender : ReplicaId
  pub at : Step
  pub proposal : Proposal V

pub record World (V : Type 0) : Type 0 where
  pub history : ReplicaId → List (Call V)
  pub tickets : List (Ticket V)
  pub decisions : List (Decision V)

module _ {V : Type 0} where
  abbrev pub empty_world : World V
  empty_world = record { history = λ i. []; tickets = []; decisions = [] }

  -- The ticket of a proposer that starts.
  abbrev pub opening : Setting V → ReplicaId → LaneId → Ticket V
  opening σ j lane = record {
    sender = j;
    at = round_one_phase_zero;
    proposal = record {
      key = record { priority = priority_max; proposer_id = j; lane_id = lane };
      value_ids = σ.values j lane;
    };
  }

  -- `make_request` draws a priority in phase zero, but not for the leader of round one.
  abbrev pub draws : Setting V → Ticket V → Bool
  draws σ t = phase t.at == 0 && (ltb round_one_phase_zero t.at || σ.leader != some t.sender)

  -- A request of the ticket carries the proposal `q`.
  abbrev pub Requests : Setting V → Ticket V → Proposal V → Type 0
  Requests σ t q =
      ((draws σ t ≡ false) × (q ≡ t.proposal))
      ⊎ ((draws σ t ≡ true)
          × ((k : Priority) × (k < priority_max) × (q ≡ with_priority t.proposal k)))

  -- A reply to a request of the ticket: the summary of the recorder's register right after it has
  -- recorded the request, and a decision only if one has been made.
  abbrev pub Answers : Setting V → World V → Ticket V → RecordReply V → Type 0
  Answers σ w t r =
      (q : Proposal V) × (h0 : List (Call V)) × Requests σ t q
      × Suffix (call t.at q ∷ h0) (w.history r.recorder)
      × (r.summary ≡ summary (after (call t.at q ∷ h0)))
      × ((r.decision ≡ none) ⊎ ((d : Decision V) × (r.decision ≡ some d) × In d w.decisions))

  abbrev pub deliver_to : World V → ReplicaId → Call V → ReplicaId → List (Call V)
  deliver_to w i c k = if eqb k i then c ∷ w.history k else w.history k

module _ {V : Type 0} ⦃e : Eq V⦄ where
  -- A proposer has the replies of a quorum to its requests.
  abbrev pub Collected : Setting V → World V → Ticket V → List (RecordReply V) → Type 0
  Collected σ w t replies = IsQuorum σ.quorum (some σ.cluster) replies × All (Answers σ w t) replies

  pub data Move (σ : Setting V) (w : World V) : World V → Type 0 where
    join :
        (j : ReplicaId) (lane : LaneId)
        → (σ.leader ≡ some j → lane ≡ σ.leader_lane)
        → Move σ w (record w { tickets = opening σ j lane ∷ w.tickets })
    deliver :
        (t : Ticket V) (i : ReplicaId) (q : Proposal V)
        → In t w.tickets
        → Requests σ t q
        → Move σ w (record w { history = deliver_to w i (call t.at q) })
    proceed :
        (t : Ticket V) (replies : List (RecordReply V)) (s : Step) (p : Proposal V)
        → In t w.tickets
        → Collected σ w t replies
        → advance σ.slot σ.leader t.at t.proposal replies ≡ ok (again s p)
        → Move σ w
            (record w { tickets = record { sender = t.sender; at = s; proposal = p } ∷ w.tickets })
    decide :
        (t : Ticket V) (replies : List (RecordReply V)) (d : Decision V)
        → In t w.tickets
        → Collected σ w t replies
        → advance σ.slot σ.leader t.at t.proposal replies ≡ ok (decided d)
        → Move σ w (record w { decisions = d ∷ w.decisions })

  pub data Reach (σ : Setting V) : World V → Type 0 where
    start : Reach σ empty_world
    later : {w u : World V} → Reach σ w → Move σ w u → Reach σ u
