-- ===== src/Protocol/Recording.antt =====
-- src/recorder.rs: a recorder that answers a proposer makes the move of the slot's protocol.
use rust_quepaxa.Prelude.{
  ◌≡◌, sym, ap, ◌∙◌, subst, ◌⊎◌, inl, inr, List, [], ◌∷◌, none, some, arith, Eq, All, In, eqb,
  if◌then◌else◌, Option-cases,
}
use rust_quepaxa.Prelude.Maps.{get, get-insert}
use rust_quepaxa.Error.{ok, Result-cases}
use rust_quepaxa.Types.{Decision, RecordRequest, SlotIndex}
use rust_quepaxa.Types.Keys.{ReplicaId}
use rust_quepaxa.Messages.{RecordReply}
use rust_quepaxa.Isr.{summary, recorded}
use rust_quepaxa.Isr.History.{Call, after}
use rust_quepaxa.Recorder.{
  RecorderCore, record_request, inform_decision, inform_decisions, or_default,
}
use rust_quepaxa.Recorder.Behaviour.{record_request-recorded}
use rust_quepaxa.Recorder.Cases.{
  inform_decision-cases, inform_decisions-SameSlots, next_register, accept-cases, with_decision,
}
use rust_quepaxa.Protocol.{Setting, Ticket, World, Requests, Answers, Move, deliver, deliver_to}
use rust_quepaxa.Protocol.History.{Suffix, whole, call}

module _ {V : Type 0} ⦃e : Eq V⦄ where
  -- The recorder's register of the slot is that of its history, and a decision that it retains for
  -- the slot has been made.
  pub record IsView (σ : Setting V) (w : World V) (core : RecorderCore V) : Type 0 where
    pub register : or_default (get σ.slot core.slots) ≡ after (w.history core.config.id)
    pub retained : (d : Decision V) → get σ.slot core.decisions ≡ some d → In d w.decisions

  -- A request that a proposer with the ticket may send.
  pub record Carries (σ : Setting V) (w : World V) (t : Ticket V) (request : RecordRequest V)
      : Type 0 where
    pub slot : request.slot ≡ σ.slot
    pub at : request.step ≡ t.at
    pub proposal : Requests σ t request.proposal
    pub known : All (λ d. d.slot ≡ σ.slot → In d w.decisions) request.known_decisions

  -- A decision that is retained afterwards was retained before or has just been reported.
  inform_decision_source :
      (core : RecorderCore V) (d c : Decision V) (slot : SlotIndex)
      → get slot (inform_decision core d).0.decisions ≡ some c
      → (get slot core.decisions ≡ some c) ⊎ ((slot ≡ d.slot) × (c ≡ d))
  inform_decision_source core d c slot h = elim (inform_decision-cases core d) [
    | inl k ↦ inl (subst (λ x. get slot x.decisions ≡ some c) k h)
    | inr (k, f, n, m, v) ↦
        let found : get slot (with_decision core d).decisions ≡ some c =
          subst (λ x. get slot x.decisions ≡ some c) k h in
        ground (arith, found, get-insert d.slot slot d core.decisions)
  ]

  inform_decisions_retained :
      (σ : Setting V) (w : World V) (core : RecorderCore V) (ds : List (Decision V))
      → ((d : Decision V) → get σ.slot core.decisions ≡ some d → In d w.decisions)
      → All (λ d. d.slot ≡ σ.slot → In d w.decisions) ds
      → (c : Decision V) → get σ.slot (inform_decisions core ds).0.decisions ≡ some c
      → In c w.decisions
  unfolding inform_decisions
  inform_decisions_retained σ w core [] r k c h = r c h
  inform_decisions_retained σ w core (d ∷ ds) r k c h =
      elim (Result-cases (inform_decision core d).1) [
        | inr (error, m) ↦ told c (ground (arith, m, h))
        | inl (u, m) ↦
            inform_decisions_retained σ w (inform_decision core d).0 ds told k.1 c
              (ground (arith, m, h))
      ]
    where
      told :
          (c : Decision V)
          → get σ.slot (inform_decision core d).0.decisions ≡ some c
          → In c w.decisions
      told c h = elim (inform_decision_source core d c σ.slot h) [
        | inl m ↦ r c m
        | inr (m, n) ↦ subst (λ x. In x w.decisions) (sym n) (k.0 (sym m))
      ]

  record_request_decisions :
      (core : RecorderCore V) (request : RecordRequest V) (reply : RecordReply V)
      → (record_request core request).1 ≡ ok reply
      → (record_request core request).0.decisions
        ≡ (inform_decisions core request.known_decisions).0.decisions
  unfolding record_request
  record_request_decisions core request reply h =
      ground (arith, h, accept-cases (inform_decisions core request.known_decisions).0 request)

  record_request_config :
      (core : RecorderCore V) (request : RecordRequest V) (reply : RecordReply V)
      → (record_request core request).1 ≡ ok reply
      → (record_request core request).0.config ≡ core.config
  unfolding record_request
  record_request_config core request reply h = ground (
    arith,
    h,
    inform_decisions-SameSlots core request.known_decisions,
    accept-cases (inform_decisions core request.known_decisions).0 request,
  )

  delivered : (w : World V) (i : ReplicaId) (c : Call V) → deliver_to w i c i ≡ c ∷ w.history i
  delivered w i c = ground arith

  -- The world after the recorder has taken a request in.
  abbrev pub taking : World V → RecorderCore V → RecordRequest V → World V
  taking w core request = record w {
    history = deliver_to w core.config.id (call request.step request.proposal);
  }

  next_register-after :
      (σ : Setting V) (w : World V) (t : Ticket V) (core : RecorderCore V)
      (request : RecordRequest V)
      → Carries σ w t request
      → IsView σ w core
      → next_register core request
        ≡ after (call request.step request.proposal ∷ w.history core.config.id)
  unfolding after
  next_register-after σ w t core request c v =
      let held : or_default (get request.slot core.slots) ≡ after (w.history core.config.id) =
        subst (λ s. or_default (get s core.slots) ≡ after (w.history core.config.id)) (sym c.slot)
          v.register in
      ap (λ r. recorded r request.step request.proposal) held

  -- A recorder whose register is that of its history answers a request of a proposer by a move of
  -- the protocol: the request joins its history, its register is again that of its history and its
  -- retained decision one that has been made, and the reply is an answer to the proposer's ticket.
  pub record_request-Delivers :
      (σ : Setting V) (w : World V) (t : Ticket V) (core : RecorderCore V)
      (request : RecordRequest V) (reply : RecordReply V)
      → In t w.tickets
      → Carries σ w t request
      → IsView σ w core
      → (record_request core request).1 ≡ ok reply
      → Move σ w (taking w core request)
        × IsView σ (taking w core request) (record_request core request).0
        × Answers σ (taking w core request) t reply
  unfolding after
  record_request-Delivers σ w t core request reply i c v h =
      let told = record_request-recorded core request reply request.slot h in
      let next = next_register-after σ w t core request c v in
      (
        subst (λ s. Move σ w (record w { history = deliver_to w id (call s request.proposal) }))
            (sym c.at) (deliver t id request.proposal i c.proposal),
        record { register = register told.0 next; retained = decisions },
        (
          request.proposal,
          w.history id,
          c.proposal,
          subst (λ s. Suffix (call s request.proposal ∷ w.history id) (H reply.recorder)) c.at
              (latest told.2),
          subst (λ s. reply.summary ≡ summary (after (call s request.proposal ∷ w.history id))) c.at
              (told.1 ∙ ap summary next),
          answered told.4,
        ),
      )
    where
      id : ReplicaId
      id = core.config.id

      H : ReplicaId → List (Call V)
      H = deliver_to w id (call request.step request.proposal)

      decisions :
          (d : Decision V)
          → get σ.slot (record_request core request).0.decisions ≡ some d
          → In d w.decisions
      decisions d k =
          inform_decisions_retained σ w core request.known_decisions v.retained c.known d
            (ap (get σ.slot) (sym (record_request_decisions core request reply h)) ∙ k)

      register :
          get request.slot (record_request core request).0.slots ≡ (
            if eqb request.slot request.slot
            then some (next_register core request)
            else get request.slot core.slots)
          → next_register core request ≡ after (call request.step request.proposal ∷ w.history id)
          → or_default (get σ.slot (record_request core request).0.slots)
            ≡ after (H (record_request core request).0.config.id)
      register k n =
          let written : get σ.slot (record_request core request).0.slots
              ≡ some (next_register core request) =
            ground (arith, k, c.slot) in
          ap or_default written
          ∙ (n
              ∙ ap after (
                  sym (delivered w id (call request.step request.proposal))
                  ∙ ap (λ x. H x.id) (sym (record_request_config core request reply h))))

      latest :
          reply.recorder ≡ id
          → Suffix (call request.step request.proposal ∷ w.history id) (H reply.recorder)
      latest k =
          subst (λ x. Suffix (call request.step request.proposal ∷ w.history id) x)
            (sym (delivered w id (call request.step request.proposal)) ∙ ap H (sym k)) whole

      answered :
          reply.decision ≡ get request.slot (record_request core request).0.decisions
          → (reply.decision ≡ none)
            ⊎ ((d : Decision V) × (reply.decision ≡ some d) × In d w.decisions)
      answered k = elim (Option-cases reply.decision) [
        | inl n ↦ inl n
        | inr (d, n) ↦
            let held : get σ.slot (record_request core request).0.decisions ≡ some d =
              subst (λ s. get s (record_request core request).0.decisions ≡ some d) c.slot
                (sym k ∙ n) in
            inr (d, n, decisions d held)
      ]
