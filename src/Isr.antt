-- ===== src/Isr.antt =====
-- src/isr.rs: the interval summary register.
pub mod History
use rust_quepaxa.Prelude.{◌≡◌, refl, Option, none, some, eqb, ltb, if◌then◌else◌}
use rust_quepaxa.Types.{Proposal, RecordSummary}
use rust_quepaxa.Types.Clock.{Step, initial, is_next_after}
use rust_quepaxa.Types.Selection.{best_proposal}

-- The snapshot has the same fields.
pub record IntervalSummarySnapshot (V : Type 0) : Type 0 where
  pub step : Step
  pub first : Option (Proposal V)
  pub current_aggregate : Option (Proposal V)
  pub prior_aggregate : Option (Proposal V)

pub record IntervalSummaryRegister (V : Type 0) : Type 0 where
  pub step : Step
  pub first : Option (Proposal V)
  pub current_aggregate : Option (Proposal V)
  pub prior_aggregate : Option (Proposal V)

module _ {V : Type 0} where
  -- `Default::default`
  unfoldable pub new : IntervalSummaryRegister V
  new = record { step = initial; first = none; current_aggregate = none; prior_aggregate = none }

  unfoldable pub snapshot : IntervalSummaryRegister V → IntervalSummarySnapshot V
  snapshot r = record {
    step = r.step;
    first = r.first;
    current_aggregate = r.current_aggregate;
    prior_aggregate = r.prior_aggregate;
  }

  unfoldable pub restore : IntervalSummarySnapshot V → IntervalSummaryRegister V
  restore s = record {
    step = s.step;
    first = s.first;
    current_aggregate = s.current_aggregate;
    prior_aggregate = s.prior_aggregate;
  }

  pub restore-snapshot : (r : IntervalSummaryRegister V) → restore (snapshot r) ≡ r
  unfolding restore snapshot
  restore-snapshot r = refl

  -- `get_or_insert_with`
  abbrev get_or_insert : Option (Proposal V) → Proposal V → Option (Proposal V)
  get_or_insert none p = some p
  get_or_insert (some q) p = some q

  -- The state that `record` leaves.
  unfoldable pub recorded :
      IntervalSummaryRegister V → Step → Proposal V → IntervalSummaryRegister V
  recorded r step proposal =
      if eqb step r.step
      then record r {
        first = get_or_insert r.first proposal;
        current_aggregate = some (best_proposal r.current_aggregate proposal);
      }
      else if ltb r.step step
      then record {
        step = step;
        first = some proposal;
        current_aggregate = some proposal;
        prior_aggregate = if is_next_after step r.step then r.current_aggregate else none;
      }
      else r

  unfoldable pub summary : IntervalSummaryRegister V → RecordSummary V
  summary r = record { step = r.step; first = r.first; prior_aggregate = r.prior_aggregate }

  -- `record`: the new state and the reply.
  unfoldable pub isr_record :
      IntervalSummaryRegister V → Step → Proposal V → IntervalSummaryRegister V × RecordSummary V
  unfolding recorded summary
  isr_record r step proposal = let r' = recorded r step proposal in (r', summary r')
