-- ===== src/Protocol/Agreement.antt =====
-- src/proposer.rs, src/isr.rs: what the proposers of a slot decide.
use rust_quepaxa.Prelude.{◌≡◌, true, List, ◌∷◌, All, some, Eq, In, ◌∙◌}
use rust_quepaxa.Error.{ok, ok_of_sequence}
use rust_quepaxa.Types.{Decision}
use rust_quepaxa.Types.Keys.{ReplicaId, LaneId}
use rust_quepaxa.Cluster.{is_well_formed}
use rust_quepaxa.Messages.{RecordReply}
use rust_quepaxa.Proposer.{Outcome, decided, again, pass, advance}
use rust_quepaxa.Proposer.Collect.{Arrivals, collect_quorum, collect_quorum-IsQuorum}
use rust_quepaxa.Protocol.{Setting, Ticket, World, Collected, Answers, Move, proceed, decide, Reach}
use rust_quepaxa.Protocol.Evidence.{settles, takes_first}
use rust_quepaxa.Protocol.Provenance.{ticket-Owned}
use rust_quepaxa.Protocol.Invariant.{Reach-Inv}
use rust_quepaxa.Protocol.Uniform.{Decreed-agree}

module _ {V : Type 0} ⦃e : Eq V⦄ where
  -- In every state that proposers and recorders of one slot reach by their moves, in any order and
  -- with any loss, delay or repetition of requests, any two decisions have the same values, provided
  -- the membership is well formed and the leader of round one proposes on one lane.
  pub decisions_agree :
      (σ : Setting V) (w : World V) (d d' : Decision V)
      → is_well_formed σ.cluster ≡ true
      → Reach σ w
      → In d w.decisions
      → In d' w.decisions
      → d.value_ids ≡ d'.value_ids
  decisions_agree σ w d d' f r i j =
      let inv = Reach-Inv σ r in Decreed-agree σ w inv f d d' (inv.decreed d i) (inv.decreed d' j)

  -- In every reachable state, the values of a decision are those that some replica proposes on one
  -- of its lanes.
  pub decisions_proposed :
      (σ : Setting V) (w : World V) (d : Decision V)
      → Reach σ w
      → In d w.decisions
      → (j : ReplicaId) × ((lane : LaneId) × (d.value_ids ≡ σ.values j lane))
  decisions_proposed σ w d r i =
      let inv = Reach-Inv σ r in
      elim (inv.decreed d i) [
        | settles s p f l v t q ↦
            (p.key.proposer_id, (p.key.lane_id, v ∙ (ticket-Owned σ w inv s p t).0))
        | takes_first p v o m l q ↦ (p.key.proposer_id, (p.key.lane_id, v ∙ o.0))
      ]

  -- What a pass of the loop makes of the replies to a ticket's requests is a move: it adds the
  -- ticket of the next step, or a decision.
  abbrev pub Advances : Setting V → World V → Ticket V → Outcome V → Type 0
  Advances σ w t (again s p) =
      Move σ w
        (record w { tickets = record { sender = t.sender; at = s; proposal = p } ∷ w.tickets })
  Advances σ w t (decided d) = Move σ w (record w { decisions = d ∷ w.decisions })

  -- A pass of the proposer's loop is a move: for a ticket of the state, where what the channel gives
  -- has the answers of recorders to the ticket's requests as its replies, a pass that does not fail
  -- adds the ticket of the next step or a decision to the state.
  pub pass-Advances :
      (σ : Setting V) (w : World V) (t : Ticket V) (arrivals : Arrivals V) (outcome : Outcome V)
      → In t w.tickets
      → ((replies : List (RecordReply V))
          → collect_quorum σ.quorum (some σ.cluster) arrivals ≡ ok replies
          → All (Answers σ w t) replies)
      → pass σ.quorum (some σ.cluster) σ.slot σ.leader t.at t.proposal arrivals ≡ ok outcome
      → Advances σ w t outcome
  pass-Advances σ w t arrivals outcome i a h =
      let collected = ok_of_sequence (collect_quorum σ.quorum (some σ.cluster) arrivals) _ h in
      let quorum =
        collect_quorum-IsQuorum σ.quorum (some σ.cluster) arrivals collected.0 collected.1 in
      moved outcome collected.0 (quorum, a collected.0 collected.1) collected.2
    where
      moved :
          (o : Outcome V) (replies : List (RecordReply V))
          → Collected σ w t replies
          → advance σ.slot σ.leader t.at t.proposal replies ≡ ok o
          → Advances σ w t o
      moved (again s p) replies c k = proceed t replies s p i c k
      moved (decided d) replies c k = decide t replies d i c k
