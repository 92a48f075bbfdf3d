-- ===== src/Recorder/Attribution.antt =====
-- src/recorder.rs: `record`, `inform_decision`, `inform_decisions` and `prune_through` keep every
-- recorded replica inside the membership, which is one of the conditions under which `restore`
-- accepts a snapshot. `install_membership` need not keep it.
use rust_quepaxa.Prelude.{
  ◌≤◌, ◌≡◌, refl, sym, ◌⊎◌, inl, inr, false, List, [], ◌∷◌, Option, none, some, arith, Eq, ltb,
  Option-cases, Bool-cases, subst,
}
use rust_quepaxa.Prelude.Maps.{
  get, contains_key, Entries, Entries-insert, Entries-retain, Entries-get,
}
use rust_quepaxa.Error.{ok}
use rust_quepaxa.Types.{Proposal, Decision, RecordRequest, SlotIndex}
use rust_quepaxa.Types.Clock.{Step}
use rust_quepaxa.Types.Selection.{best_proposal}
use rust_quepaxa.Types.Keys.{ReplicaId}
use rust_quepaxa.Isr.{IntervalSummaryRegister, recorded}
use rust_quepaxa.Isr
use rust_quepaxa.Recorder.{
  RecorderCore, prune_through, inform_decision, inform_decisions, accept, admit, record_request,
  or_insert, or_default, unknown_leader,
}
use rust_quepaxa.Recorder.Validation.{
  RecorderConfig, validate_proposal, validate_present, validate_isr_snapshot,
}
use rust_quepaxa.Recorder.Cases.{
  inform_decision-cases, inform_decisions-SameSlots, with_register, next_register, accept-cases,
  admit_checked,
}
use rust_quepaxa.Recorder.Restore.{IsAttributed}

module _ {V : Type 0} ⦃e : Eq V⦄ where
  best_proposal-valid :
      (config : RecorderConfig) (o : Option (Proposal V)) (p : Proposal V)
      → validate_present config o ≡ ok tt
      → validate_proposal config p ≡ ok tt
      → validate_proposal config (best_proposal o p) ≡ ok tt
  unfolding best_proposal
  best_proposal-valid config none p h k = k
  best_proposal-valid config (some q) p h k = ground arith

  -- Recording a checked proposal at a checked step leaves a register that `restore` accepts.
  recorded-valid :
      (config : RecorderConfig) (r : IntervalSummaryRegister V) (step : Step) (p : Proposal V)
      → (r ≡ Isr.new) ⊎ (validate_isr_snapshot config (Isr.snapshot r) ≡ ok tt)
      → validate_proposal config p ≡ ok tt
      → 4 ≤ step
      → step ≤ config.limits.max_step
      → validate_isr_snapshot config (Isr.snapshot (recorded r step p)) ≡ ok tt
  unfolding recorded validate_isr_snapshot Isr.snapshot Isr.new
  recorded-valid config r step p (inl h) k low high =
      ground (arith, best_proposal-valid config none p refl k)
  recorded-valid config r step p (inr h) k low high =
      ground (arith, best_proposal-valid config r.current_aggregate p)

  pub inform_decision-IsAttributed :
      (core : RecorderCore V) (d : Decision V)
      → IsAttributed core
      → IsAttributed (inform_decision core d).0
  inform_decision-IsAttributed core d a = elim (inform_decision-cases core d) [
    | inl h ↦ subst IsAttributed (sym h) a
    | inr c ↦ subst IsAttributed (sym c.0) (record {
      decisions_valid = Entries-insert _ d.slot d core.decisions c.4 a.decisions_valid;
      registers_valid = a.registers_valid;
      leaders_known = a.leaders_known;
    })
  ]

  pub inform_decisions-IsAttributed :
      (core : RecorderCore V) (ds : List (Decision V))
      → IsAttributed core
      → IsAttributed (inform_decisions core ds).0
  unfolding inform_decisions
  inform_decisions-IsAttributed core [] a = a
  inform_decisions-IsAttributed core (d ∷ ds) a = ground (
    arith,
    inform_decision-IsAttributed core d a,
    inform_decisions-IsAttributed (inform_decision core d).0 ds,
  )

  slot_register :
      (core : RecorderCore V) (slot : SlotIndex)
      → IsAttributed core
      → (or_default (get slot core.slots) ≡ Isr.new)
        ⊎ (validate_isr_snapshot core.config (Isr.snapshot (or_default (get slot core.slots)))
            ≡ ok tt)
  slot_register core slot a = elim (Option-cases (get slot core.slots)) [
    | inl h ↦ rw h (inl refl)
    | inr (r, h) ↦ rw h (inr (Entries-get _ slot r core.slots a.registers_valid h))
  ]

  or_insert-known :
      (core : RecorderCore V) (slot : SlotIndex) (leader : Option ReplicaId)
      → IsAttributed core
      → unknown_leader core.config leader ≡ false
      → Entries
          (λ s l. unknown_leader core.config l ≡ false)
          (or_insert slot leader core.round_one_leaders)
  unfolding or_insert
  or_insert-known core slot leader a k =
      elim (Bool-cases (contains_key slot core.round_one_leaders)) [
        | inl h ↦ rw (h, or_insert) a.leaders_known
        | inr h ↦
            rw (h, or_insert)
              (Entries-insert _ slot leader core.round_one_leaders k a.leaders_known)
      ]

  -- What an admitted request has shown, under the membership that the core has.
  record IsChecked (config : RecorderConfig) (request : RecordRequest V) : Type 0 where
    proposal_ok : validate_proposal config request.proposal ≡ ok tt
    step_low : 4 ≤ request.step
    step_high : request.step ≤ config.limits.max_step
    leader_known : unknown_leader config request.round_one_leader ≡ false

  with_register-IsAttributed :
      (core : RecorderCore V) (request : RecordRequest V)
      → IsAttributed core
      → IsChecked core.config request
      → IsAttributed
          (with_register core request.slot request.round_one_leader (next_register core request))
  with_register-IsAttributed core request a c = record {
    decisions_valid = a.decisions_valid;
    registers_valid =
        Entries-insert _ request.slot (next_register core request) core.slots
          (recorded-valid core.config _ request.step request.proposal
            (slot_register core request.slot a) c.proposal_ok c.step_low c.step_high)
          a.registers_valid;
    leaders_known = or_insert-known core request.slot request.round_one_leader a c.leader_known;
  }

  accept-IsAttributed :
      (core : RecorderCore V) (request : RecordRequest V)
      → IsAttributed core
      → IsChecked core.config request
      → IsAttributed (accept core request).0
  accept-IsAttributed core request a c = elim (accept-cases core request) [
    | inl h ↦ subst (λ p. IsAttributed p.0) (sym h) a
    | inr h ↦ subst (λ p. IsAttributed p.0) (sym h.0) (with_register-IsAttributed core request a c)
  ]

  told-IsChecked :
      (core : RecorderCore V) (request : RecordRequest V)
      → admit core request ≡ ok tt
      → IsChecked (inform_decisions core request.known_decisions).0.config request
  told-IsChecked core request h =
      let checked = admit_checked core request h in
      subst (λ config. IsChecked config request)
        (sym (inform_decisions-SameSlots core request.known_decisions).same_config)
        (record {
          proposal_ok = checked.0;
          step_low = checked.1;
          step_high = checked.2;
          leader_known = checked.3;
        })

  -- `record` keeps every retained decision, recorded proposal and bound leader valid under the
  -- installed membership.
  pub record_request-IsAttributed :
      (core : RecorderCore V) (request : RecordRequest V)
      → IsAttributed core
      → IsAttributed (record_request core request).0
  unfolding record_request
  record_request-IsAttributed core request a = ground (
    arith,
    told-IsChecked core request,
    inform_decisions-IsAttributed core request.known_decisions a,
    accept-IsAttributed (inform_decisions core request.known_decisions).0 request,
  )

  pub prune_through-IsAttributed :
      (core : RecorderCore V) (slot : SlotIndex)
      → IsAttributed core
      → IsAttributed (prune_through core slot)
  unfolding prune_through
  prune_through-IsAttributed core slot a = record {
    decisions_valid = Entries-retain _ (ltb slot) core.decisions a.decisions_valid;
    registers_valid = Entries-retain _ (ltb slot) core.slots a.registers_valid;
    leaders_known = Entries-retain _ (ltb slot) core.round_one_leaders a.leaders_known;
  }
