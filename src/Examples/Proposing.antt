-- ===== src/Examples/Proposing.antt =====
-- The proposer at concrete inputs.
use rust_quepaxa.Prelude.{
  ℕ, ◌+◌, ◌<◌, ◌≤◌, ◌≡◌, ◌≢◌, refl, true, false, List, [], ◌∷◌, Option, none, some, arith, length,
  contains, nat_eq, is_empty,
}
use rust_quepaxa.Error.{Result, ok}
use rust_quepaxa.Types.{Decision, Proposal}
use rust_quepaxa.Messages.{RecordReply}
use rust_quepaxa.Proposer.Advance.{decision_of}
use rust_quepaxa.Proposer.FastDecision.{leader_decides}
use rust_quepaxa.Types.Keys.{ReplicaId}
use rust_quepaxa.Recorder.{
  RecorderCore, new, record_request, admit, accept, inform_decision, inform_decisions, or_insert,
}
use rust_quepaxa.Recorder.Validation.{default_limits}
use rust_quepaxa.Proposer.{
  ProposerCore, ProposerConfig, advance, conclude_phase, fast_path_winner, make_request,
  make_requests, propose_loop, prepare, decided, pass,
}
use rust_quepaxa.Proposer
use rust_quepaxa.Proposer.Random.{
  XorShift64, InRange, os_source, xorshift_source, os_next_below, os_next_below-InRange,
}
use rust_quepaxa.Proposer.Quorum.{
  validate_recorders, quorum_size, repeated, check_cluster, choose_quorum, quorum_reached,
  validate_recorders_sound,
}
use rust_quepaxa.Proposer.Collect.{
  Arrivals, arrived, timed_out, collect_quorum, collect_replies, check_reply,
}
use rust_quepaxa.Proposer.Recorders.{recorders_network, recorders_network-Forward}
use rust_quepaxa.Proposer.Termination.{propose_ends}
use rust_quepaxa.Proposer.Decisions.{Justified, propose-Justified}
use rust_quepaxa.Cluster.Sorting.{to_set, binary_search, dedup, sort}
use rust_quepaxa.Cluster
use rust_quepaxa.Cluster.{has_member, has_quorum}
use rust_quepaxa.Types.{new_proposal, new_decision}
use rust_quepaxa.Types.Clock.{phase}
use rust_quepaxa.Isr
use rust_quepaxa.Isr.{isr_record, recorded, summary}
use rust_quepaxa.Prelude.Maps.{contains_key, get, insert}
use rust_quepaxa.Recorder.Validation.{
  contains_replica, validate_decision, validate_proposal, validate_request,
}
use rust_quepaxa.Types.Keys.{is_leader_priority, key_leb}
use rust_quepaxa.Types.Selection.{best_proposal}
use rust_quepaxa.Samples.{three, available, decide}

abbrev everyone : List ReplicaId
everyone = 1 ∷ 2 ∷ 3 ∷ []

-- Recorders that have served no request.
abbrev fresh : ℕ → ReplicaId → RecorderCore ℕ
unfolding new
fresh n id = new (record { id = id; cluster = three; limits = default_limits }) available

-- Replica 2 with the membership of the recorders.
abbrev second : ProposerCore XorShift64
second = record {
  replica_id = 2;
  lane_id = 1;
  rng = record { state = 99 };
  config = record { max_steps = 1027; quorum = some 2; cluster = some three };
}

abbrev one_round : Option (XorShift64 × Result (Decision ℕ))
one_round = Proposer.propose 1028 second 7 (10 ∷ []) (some 2) everyone [] (recorders_network fresh)

one_round_decides : one_round ≡ some (second.rng, ok (decide 7 2 10))
unfolding Proposer.propose prepare validate_recorders quorum_size repeated check_cluster
    choose_quorum propose_loop make_requests make_request collect_quorum collect_replies
    record_request admit check_reply quorum_reached advance conclude_phase fast_path_winner accept
    inform_decision inform_decisions or_insert to_set binary_search dedup sort Cluster.quorum_size
    has_member has_quorum new_proposal new_decision phase Isr.new isr_record recorded summary
    contains_key get insert contains_replica validate_decision validate_proposal validate_request
    is_leader_priority key_leb best_proposal fresh
one_round_decides = refl

propose_ends_example :
    Proposer.propose 1028 second 7 (10 ∷ []) (some 2) everyone [] (recorders_network fresh) ≢ none
propose_ends_example =
    propose_ends 1028 second 7 (10 ∷ []) (some 2) everyone [] (recorders_network fresh)
      (recorders_network-Forward fresh) (omega arith)

propose-Justified_example :
    ((decide 7 2 10).slot ≡ 7)
    × (is_empty (decide 7 2 10).value_ids ≡ false)
    × ((quorum : ℕ) × (validate_recorders everyone 2 (some 2) (some three) ≡ ok quorum)
        × Justified quorum (some three) 7 (some 2) (recorders_network fresh) (decide 7 2 10))
propose-Justified_example =
    propose-Justified 1028 second 7 (10 ∷ []) (some 2) everyone [] (recorders_network fresh)
      second.rng (decide 7 2 10) one_round_decides

chosen : validate_recorders everyone 2 (some 2) (some three) ≡ ok 2
unfolding validate_recorders quorum_size repeated check_cluster choose_quorum to_set sort dedup
    Cluster.quorum_size
chosen = refl

validate_recorders_sound_example :
    (length everyone < 2 + 2)
    × (2 ≤ length everyone)
    × (contains everyone 2 ≡ true)
    × (repeated [] everyone ≡ none)
validate_recorders_sound_example =
    validate_recorders_sound everyone 2 (some 2) (some three) 2 chosen

os_next_below-InRange_example :
    InRange 4 (os_next_below (record { words = 0xffffffffffffffff ∷ 5 ∷ [] }) 4).1
os_next_below-InRange_example =
    os_next_below-InRange (record { words = 0xffffffffffffffff ∷ 5 ∷ [] }) 4

-- The proposal of replica 2 as the leader of round one.
abbrev led : Proposal ℕ
led = record {
  key = record { priority = 0xffffffffffffffff; proposer_id = 2; lane_id = 0 };
  value_ids = 10 ∷ [];
}

abbrev welcome : ReplicaId → RecordReply ℕ
welcome i = record {
  recorder = i;
  cluster = three;
  summary = record { step = 4; first = some led; prior_aggregate = none };
  decision = none;
}

abbrev two_welcomes : Arrivals ℕ
two_welcomes = record {
  launched = 3;
  events = arrived 1 (ok (welcome 1)) ∷ arrived 3 (ok (welcome 3)) ∷ timed_out ∷ [];
}

leader_decides_example :
    pass 2 (some three) 7 (some 2) 4 led two_welcomes ≡ ok (decided (decision_of 7 4 led))
unfolding collect_quorum collect_replies check_reply quorum_reached has_quorum has_member to_set
    binary_search
leader_decides_example =
    leader_decides 2 (some three) 7 (some 2) led two_welcomes (welcome 1) (welcome 3 ∷ []) refl
      ((refl, refl, refl), ((refl, refl, refl), tt)) refl refl refl
