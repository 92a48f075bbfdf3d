-- ===== src/Examples/Agreement.antt =====
-- Proposers and recorders of one slot at a concrete run: replica 1 settles its value at step 6 with
-- the recorders 1 and 2, and replica 3 then learns it from a recorder.
use rust_quepaxa.Prelude.{
  ℕ, ◌≡◌, refl, List, [], ◌∷◌, Option, none, some, arith, inl, inr, here, there, nat_eq, In, All,
  subst, ◌*◌,
}
use rust_quepaxa.Error.{ok}
use rust_quepaxa.Types.{Proposal, Decision, with_priority, new_decision}
use rust_quepaxa.Types.Clock.{Step, phase, checked_next, is_next_after}
use rust_quepaxa.Types.Keys.{ReplicaId, LaneId, key_leb, is_leader_priority}
use rust_quepaxa.Types.Selection.{max_proposal_by_key, best_proposal, fold_best}
use rust_quepaxa.Cluster.{
  is_well_formed, has_quorum, has_member, quorum_size, validate_fault_tolerance,
}
use rust_quepaxa.Cluster.Sorting.{to_set, binary_search, members_are_normalized}
use rust_quepaxa.Messages.{RecordReply}
use rust_quepaxa.Isr.{summary, recorded, new}
use rust_quepaxa.Isr.History.{after}
use rust_quepaxa.Proposer.{decided, advance, conclude_phase, fast_path_winner}
use rust_quepaxa.Proposer.Collect.{
  Arrivals, arrived, timed_out, collect_quorum, collect_replies, check_reply,
}
use rust_quepaxa.Proposer.Quorum.{quorum_reached}
use rust_quepaxa.Protocol.{
  Setting, Ticket, World, join, deliver, proceed, decide, Reach, start, later, opening, empty_world,
  deliver_to, Requests, Answers, Collected,
}
use rust_quepaxa.Protocol.History.{call, whole}
use rust_quepaxa.Protocol.Agreement.{decisions_agree, decisions_proposed, Advances, pass-Advances}
use rust_quepaxa.Samples.{three}

abbrev pub own_values : ReplicaId → LaneId → List ℕ
own_values j lane = j * 10 ∷ []

abbrev pub leaderless : Setting ℕ
leaderless = record {
  cluster = three;
  quorum = 2;
  slot = 7;
  leader = none;
  leader_lane = 0;
  values = own_values;
}

-- The proposal of a replica with a drawn priority.
abbrev pub drawn : ReplicaId → ℕ → Proposal ℕ
drawn j k = record {
  key = record { priority = k; proposer_id = j; lane_id = 0 };
  value_ids = own_values j 0;
}

abbrev ticket : ReplicaId → Step → Proposal ℕ → Ticket ℕ
ticket j s p = record { sender = j; at = s; proposal = p }

abbrev record_at : World ℕ → ReplicaId → Step → Proposal ℕ → World ℕ
record_at w i s p = record w { history = deliver_to w i (call s p) }

abbrev add_ticket : World ℕ → Ticket ℕ → World ℕ
add_ticket w t = record w { tickets = t ∷ w.tickets }

abbrev add_decision : World ℕ → Decision ℕ → World ℕ
add_decision w d = record w { decisions = d ∷ w.decisions }

abbrev reply_of : World ℕ → ReplicaId → Option (Decision ℕ) → RecordReply ℕ
unfolding summary after recorded
reply_of w i d = record {
  recorder = i;
  cluster = three;
  summary = summary (after (w.history i));
  decision = d;
}

abbrev pub first_ticket : Ticket ℕ
first_ticket = opening leaderless 1 0

-- The recorders 1 and 2 take a proposal in at a step.
abbrev both_record : World ℕ → Step → Proposal ℕ → World ℕ
both_record w s p = record_at (record_at w 1 s p) 2 s p

abbrev pub joined : World ℕ
joined = add_ticket empty_world first_ticket

abbrev at_four : World ℕ
at_four = both_record joined 4 (drawn 1 5)

abbrev at_five : World ℕ
at_five = both_record (add_ticket at_four (ticket 1 5 (drawn 1 5))) 5 (drawn 1 5)

abbrev at_six : World ℕ
at_six = both_record (add_ticket at_five (ticket 1 6 (drawn 1 5))) 6 (drawn 1 5)

abbrev decision : Decision ℕ
decision = record { slot = 7; value_ids = 10 ∷ []; proposer = 1; decided_step = 6 }

abbrev settled : World ℕ
settled = add_decision at_six decision

abbrev second_ticket : Ticket ℕ
second_ticket = opening leaderless 3 0

abbrev joined_again : World ℕ
joined_again = add_ticket settled second_ticket

abbrev asked_again : World ℕ
asked_again = record_at (record_at joined_again 2 4 (drawn 3 9)) 3 4 (drawn 3 9)

abbrev learned : World ℕ
learned = add_decision asked_again decision

abbrev both_reply : World ℕ → List (RecordReply ℕ)
both_reply w = reply_of w 1 none ∷ reply_of w 2 none ∷ []

both :
    (w : World ℕ) (t : Ticket ℕ) (p : Proposal ℕ)
    → Reach leaderless w
    → In t w.tickets
    → Requests leaderless t p
    → Reach leaderless (both_record w t.at p)
both w t p r i q = later (later r (deliver t 1 p i q)) (deliver t 2 p i q)

at_four-Collected : Collected leaderless at_four first_ticket (both_reply at_four)
unfolding with_priority phase after recorded summary new quorum_reached has_quorum has_member to_set
    binary_search advance conclude_phase max_proposal_by_key fold_best best_proposal
    fast_path_winner key_leb checked_next is_next_after new_decision quorum_size is_leader_priority
at_four-Collected = (
  (refl, refl, (refl, (refl, tt))),
  (
    (drawn 1 5, [], inr (refl, (5, omega arith, refl)), whole, refl, inl refl),
    ((drawn 1 5, [], inr (refl, (5, omega arith, refl)), whole, refl, inl refl), tt),
  ),
)

reach_four : Reach leaderless at_four
unfolding with_priority phase
reach_four =
    both joined first_ticket (drawn 1 5) (later start (join 1 0 (λ e. refl))) (here refl)
      (inr (refl, (5, omega arith, refl)))

reach_five : Reach leaderless at_five
unfolding with_priority phase after recorded summary new quorum_reached has_quorum has_member to_set
    binary_search advance conclude_phase max_proposal_by_key fold_best best_proposal
    fast_path_winner key_leb checked_next is_next_after new_decision quorum_size is_leader_priority
reach_five =
    both (add_ticket at_four (ticket 1 5 (drawn 1 5))) (ticket 1 5 (drawn 1 5)) (drawn 1 5)
      (later reach_four (
        proceed first_ticket (both_reply at_four) 5 (drawn 1 5) (here refl) at_four-Collected refl))
      (here refl) (inl (refl, refl))

at_five-Collected : Collected leaderless at_five (ticket 1 5 (drawn 1 5)) (both_reply at_five)
unfolding with_priority phase after recorded summary new quorum_reached has_quorum has_member to_set
    binary_search advance conclude_phase max_proposal_by_key fold_best best_proposal
    fast_path_winner key_leb checked_next is_next_after new_decision quorum_size is_leader_priority
at_five-Collected = (
  (refl, refl, (refl, (refl, tt))),
  (
    (drawn 1 5, _, inl (refl, refl), whole, refl, inl refl),
    ((drawn 1 5, _, inl (refl, refl), whole, refl, inl refl), tt),
  ),
)

reach_six : Reach leaderless at_six
unfolding with_priority phase after recorded summary new quorum_reached has_quorum has_member to_set
    binary_search advance conclude_phase max_proposal_by_key fold_best best_proposal
    fast_path_winner key_leb checked_next is_next_after new_decision quorum_size is_leader_priority
reach_six =
    both (add_ticket at_five (ticket 1 6 (drawn 1 5))) (ticket 1 6 (drawn 1 5)) (drawn 1 5)
      (later reach_five (
        proceed (ticket 1 5 (drawn 1 5)) (both_reply at_five) 6 (drawn 1 5) (here refl)
          at_five-Collected refl))
      (here refl) (inl (refl, refl))

at_six-Collected : Collected leaderless at_six (ticket 1 6 (drawn 1 5)) (both_reply at_six)
unfolding with_priority phase after recorded summary new quorum_reached has_quorum has_member to_set
    binary_search advance conclude_phase max_proposal_by_key fold_best best_proposal
    fast_path_winner key_leb checked_next is_next_after new_decision quorum_size is_leader_priority
at_six-Collected = (
  (refl, refl, (refl, (refl, tt))),
  (
    (drawn 1 5, _, inl (refl, refl), whole, refl, inl refl),
    ((drawn 1 5, _, inl (refl, refl), whole, refl, inl refl), tt),
  ),
)

reach_settled : Reach leaderless settled
unfolding with_priority phase after recorded summary new quorum_reached has_quorum has_member to_set
    binary_search advance conclude_phase max_proposal_by_key fold_best best_proposal
    fast_path_winner key_leb checked_next is_next_after new_decision quorum_size is_leader_priority
reach_settled =
    later reach_six (
      decide (ticket 1 6 (drawn 1 5)) (both_reply at_six) decision (here refl) at_six-Collected
        refl)

abbrev last_replies : List (RecordReply ℕ)
last_replies = reply_of asked_again 2 (some decision) ∷ reply_of asked_again 3 none ∷ []

asked_again-Collected : Collected leaderless asked_again second_ticket last_replies
unfolding with_priority phase after recorded summary new quorum_reached has_quorum has_member to_set
    binary_search advance conclude_phase max_proposal_by_key fold_best best_proposal
    fast_path_winner key_leb checked_next is_next_after new_decision quorum_size is_leader_priority
asked_again-Collected = (
  (refl, refl, (refl, (refl, tt))),
  (
    (
      drawn 3 9,
      _,
      inr (refl, (9, omega arith, refl)),
      whole,
      refl,
      inr (decision, refl, here refl),
    ),
    ((drawn 3 9, _, inr (refl, (9, omega arith, refl)), whole, refl, inl refl), tt),
  ),
)

reach_learned : Reach leaderless learned
unfolding with_priority phase after recorded summary new quorum_reached has_quorum has_member to_set
    binary_search advance conclude_phase max_proposal_by_key fold_best best_proposal
    fast_path_winner key_leb checked_next is_next_after new_decision quorum_size is_leader_priority
reach_learned =
    later
      (later
        (later (later reach_settled (join 3 0 (λ e. refl)))
          (deliver second_ticket 2 (drawn 3 9) (here refl) (inr (refl, (9, omega arith, refl)))))
        (deliver second_ticket 3 (drawn 3 9) (here refl) (inr (refl, (9, omega arith, refl)))))
      (decide second_ticket last_replies decision (here refl) asked_again-Collected refl)

decisions_agree_example : decision.value_ids ≡ decision.value_ids
unfolding is_well_formed members_are_normalized validate_fault_tolerance
decisions_agree_example =
    decisions_agree leaderless learned decision decision refl reach_learned (here refl)
      (there (here refl))

decisions_proposed_example :
    (j : ReplicaId) × ((lane : LaneId) × (decision.value_ids ≡ own_values j lane))
decisions_proposed_example =
    decisions_proposed leaderless learned decision reach_learned (here refl)

abbrev channel : Arrivals ℕ
channel = record {
  launched = 3;
  events =
      arrived 1 (ok (reply_of at_six 1 none))
      ∷ arrived 2 (ok (reply_of at_six 2 none))
      ∷ timed_out
      ∷ [];
}

collected_channel :
    (replies : List (RecordReply ℕ))
    → collect_quorum 2 (some three) channel ≡ ok replies
    → All (Answers leaderless at_six (ticket 1 6 (drawn 1 5))) replies
unfolding with_priority phase after recorded summary new quorum_reached has_quorum has_member to_set
    binary_search advance conclude_phase max_proposal_by_key fold_best best_proposal
    fast_path_winner key_leb checked_next is_next_after new_decision quorum_size collect_quorum
    collect_replies check_reply is_leader_priority
collected_channel replies h =
    let same : both_reply at_six ≡ replies = cc h in
    subst (All (Answers leaderless at_six (ticket 1 6 (drawn 1 5)))) same at_six-Collected.1

pass-Advances_example : Advances leaderless at_six (ticket 1 6 (drawn 1 5)) (decided decision)
unfolding with_priority phase after recorded summary new quorum_reached has_quorum has_member to_set
    binary_search advance conclude_phase max_proposal_by_key fold_best best_proposal
    fast_path_winner key_leb checked_next is_next_after new_decision quorum_size collect_quorum
    collect_replies check_reply is_leader_priority
pass-Advances_example =
    pass-Advances leaderless at_six (ticket 1 6 (drawn 1 5)) channel (decided decision) (here refl)
      collected_channel refl
