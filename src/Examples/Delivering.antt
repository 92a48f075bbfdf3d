-- ===== src/Examples/Delivering.antt =====
-- A proposer's request and a recorder's answer as moves, at concrete inputs.
use rust_quepaxa.Prelude.{ℕ, refl, [], ◌∷◌, none, some, nat_eq, here}
use rust_quepaxa.Types.{RecordRequest, with_priority}
use rust_quepaxa.Types.Clock.{phase, is_next_after, checked_next}
use rust_quepaxa.Types.Keys.{priority_max}
use rust_quepaxa.Recorder.{RecorderCore, record_request, admit, accept, inform_decisions}
use rust_quepaxa.Isr.{new, isr_record, recorded, summary}
use rust_quepaxa.Isr.History.{after}
use rust_quepaxa.Prelude.Maps.{get, insert, contains_key}
use rust_quepaxa.Cluster.{has_member}
use rust_quepaxa.Cluster.Sorting.{binary_search}
use rust_quepaxa.Types.Selection.{best_proposal}
use rust_quepaxa.Recorder.Validation.{
  default_limits, validate_request, validate_proposal, contains_replica,
}
use rust_quepaxa.Messages.{RecordReply}
use rust_quepaxa.Proposer.{ProposerCore, make_request}
use rust_quepaxa.Proposer.Random.{OsRandom, os_source, os_next_below, os_next_below-InRange}
use rust_quepaxa.Protocol.{Move, Answers}
use rust_quepaxa.Protocol.Recording.{IsView, Carries, taking, record_request-Delivers}
use rust_quepaxa.Protocol.Sending.{make_request-Carries}
use rust_quepaxa.Examples.Agreement.{leaderless, drawn, joined, first_ticket}
use rust_quepaxa.Samples.{three, available}

-- Replica 1, whose generator next reads the word 4.
abbrev proposer : ProposerCore OsRandom
proposer = record {
  replica_id = 1;
  lane_id = 0;
  rng = record { words = 4 ∷ [] };
  config = record { max_steps = 1027; quorum = some 2; cluster = some three };
}

abbrev sent : RecordRequest ℕ
sent = record {
  sender = 1;
  slot = 7;
  round_one_leader = none;
  step = 4;
  proposal = drawn 1 5;
  known_decisions = [];
}

make_request-Carries_example : Carries leaderless joined first_ticket sent
unfolding make_request phase os_next_below with_priority
make_request-Carries_example =
    make_request-Carries proposer leaderless joined first_ticket [] proposer.rng sent
      (os_next_below-InRange proposer.rng priority_max) refl tt refl

abbrev recorder : RecorderCore ℕ
recorder = record {
  config = record { id = 2; cluster = three; limits = default_limits };
  availability = available;
  slots = [];
  round_one_leaders = [];
  decisions = [];
  pruned_through = 0;
}

abbrev answer : RecordReply ℕ
answer = record {
  recorder = 2;
  cluster = three;
  summary = record { step = 4; first = some (drawn 1 5); prior_aggregate = none };
  decision = none;
}

record_request-Delivers_example :
    Move leaderless joined (taking joined recorder sent)
    × IsView leaderless (taking joined recorder sent) (record_request recorder sent).0
    × Answers leaderless (taking joined recorder sent) first_ticket answer
unfolding record_request after get insert new admit validate_request contains_replica has_member
    binary_search validate_proposal accept isr_record recorded summary inform_decisions
    best_proposal contains_key is_next_after checked_next
record_request-Delivers_example =
    record_request-Delivers leaderless joined first_ticket recorder sent answer (here refl)
      make_request-Carries_example (record { register = refl; retained = λ d k. absurd cc }) refl
