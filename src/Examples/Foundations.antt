-- ===== src/Examples/Foundations.antt =====
-- Clock, selection and the interval summary register at concrete inputs.
use rust_quepaxa.Prelude.{ℕ, ◌≡◌, refl, none, some, List, [], ◌∷◌, arith}
use rust_quepaxa.Types.Clock.{is_next_after}
use rust_quepaxa.Types.Keys.{key_leb}
use rust_quepaxa.Types.Selection.{best_proposal, max_proposal_by_key}
use rust_quepaxa.Isr.{IntervalSummaryRegister, recorded}
use rust_quepaxa.Isr
use rust_quepaxa.Isr.History.{Call, after, summarise, after-summarise}
use rust_quepaxa.Samples.{propose}

-- On a tie the earlier proposal is kept.
max_keeps_first : max_proposal_by_key (propose 5 1 1 ∷ propose 5 1 2 ∷ []) ≡ some (propose 5 1 1)
unfolding max_proposal_by_key key_leb
max_keeps_first = refl

-- Two calls at step 4, one at step 5 and a stale one, the newest first.
abbrev calls : List (Call ℕ)
calls =
    record { at = 4; proposal = propose 9 3 90 }
    ∷ record { at = 5; proposal = propose 2 1 20 }
    ∷ record { at = 4; proposal = propose 7 2 70 }
    ∷ record { at = 4; proposal = propose 3 1 30 }
    ∷ []

after-summarise_example : after calls ≡ summarise calls
after-summarise_example = after-summarise calls (omega arith)

-- The step that is left shows its best proposal as the prior aggregate.
prior_is_best :
    recorded (recorded (recorded Isr.new 4 (propose 3 1 30)) 4 (propose 7 2 70)) 5 (propose 2 1 20)
    ≡ record {
      step = 5;
      first = some (propose 2 1 20);
      current_aggregate = some (propose 2 1 20);
      prior_aggregate = some (propose 7 2 70);
    }
unfolding recorded Isr.new best_proposal key_leb is_next_after
prior_is_best = refl

-- A skipped step leaves no prior aggregate.
skipped_resets :
    (recorded (recorded Isr.new 4 (propose 3 1 30)) 6 (propose 2 1 20)).prior_aggregate ≡ none
unfolding recorded Isr.new is_next_after
skipped_resets = refl
