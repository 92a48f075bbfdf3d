-- ===== src/Lib.antt =====
-- A model of rust-quepaxa, a replicated log on the QuePaxa consensus protocol.
--
-- Replicas agree on one value per slot of a log. For a slot, a proposer sends requests to a
-- recorder on every replica; a recorder keeps, per slot, an interval summary register, and
-- answers with a summary of it. Time is a logical clock of steps, four phases to a round. A
-- proposer waits for a quorum of replies, and decides on the fast path in phase zero of round one,
-- in phase two of any round, or when a reply reports a decision. Recorders persist what they
-- answer, and memberships change through a joint epoch.
--
-- Which file models which part:
--   Error                the error enum and `Result` of src/error.rs, with the do notation
--   Types                the value types of src/types.rs: `Types.Clock` the steps and the u64
--                        operations, `Types.Keys` priorities and proposal keys, `Types.Selection`
--                        `best_proposal` and `max_proposal_by_key`
--   Cluster              `ClusterIdentity` of src/types.rs; `Cluster.Sorting` the vector and set
--                        operations of the standard library that it calls; proofs in
--                        `Cluster.Validity`, `Cluster.Transitions` and `Cluster.Quorums`
--   Messages             the reply and the membership change of src/types.rs
--   Isr                  `IntervalSummaryRegister` of src/isr.rs; `Isr.History` describes it by
--                        the list of calls it has received
--   Recorder             `RecorderCore` of src/recorder.rs; `Recorder.Validation` its
--                        configuration and the checks of requests; proofs in `Recorder.Cases`,
--                        `Invariant`, `Restore`, `Attribution`, `Behaviour` and `Membership`
--   Durable              `DurableRecorderCore` of src/recorder.rs over the store trait, which is
--                        an interface; proofs in `Durable.Rollback` and `Durable.Restart`
--   Proposer             `ProposerCore::propose` of src/proposer.rs; `Proposer.Random` the
--                        priority sources, `Proposer.Quorum` the checks of the recorders,
--                        `Proposer.Collect` `collect_quorum`, `Proposer.Replies` what a pass makes of
--                        the replies; proofs in `Proposer.Advance`,
--                        `Continue`, `Requests`, `Progress`, `Termination`, `Decisions`,
--                        `FastDecision` and `Recorders`
--   Protocol             the proposers and recorders of one slot together, as a step relation over
--                        the register histories of the recorders (src/proposer.rs, src/isr.rs);
--                        `Protocol.Evidence` what stands behind a proposal, `Invariant` that every
--                        move keeps it, `Dominance`, `FastPath` and `Uniform` what it forces,
--                        `Agreement` the result; `Sending` and `Recording` show that the requests
--                        of `ProposerCore` and the answers of `RecorderCore` are moves
--   Replica              `ReplicaCore` of src/replica.rs; `Replica.Values` the queue and the sets of
--                        value IDs; proofs in `Replica.Open`, `Commit`, `Apply`, `Queue`,
--                        `Tracking`, `Enqueue`, `Prune` and `Restore`
--   Policy               the policies of src/policy.rs, which order the replicas as proposers of a
--                        slot; `Policy.Adaptive` the one that ranks by durations; proofs in
--                        `Policy.Order` and `Policy.Leader`
--   Schedule             the configuration of a runtime and the epoch schedules of
--                        src/runtime/schedule.rs; `Schedule.Hedging` the tuner of the hedging delay,
--                        with `Schedule.Percentile`; `Schedule.Tuner` the tuner that derives
--                        schedules from the committed log, with its proofs in `Schedule.Tuner.Invariant`,
--                        `Derive`, `Noting`, `Restoring` and `Window`
--   Dedupe               the exactly-once state machine of src/network/dedupe.rs and its executor in
--                        memory; `Dedupe.Storage` the snapshot files, over a file system that is an
--                        argument, with the crash points of src/crash.rs; `Dedupe.Executor` the
--                        executor on a file; `Dedupe.Journal` the submission journals and the handler;
--                        proofs in `Dedupe.Replacing`, `Saving`, `Transaction`, `Once` and `Retry`
--   Store                the value stores and availability guards of src/store.rs; `Store.Available`
--                        what the guard promises
--   Prelude              names of the libraries, tests, lists, equality classes and maps
--   Samples, Examples    test data, tests, and the theorems at concrete inputs
--
-- Conventions. Identifiers, slots, steps, priorities and epochs are u64 in the program and native
-- numbers here, and every operation on them has its overflow written out. A value type is any type
-- with a decidable equality. A `BTreeMap` is an association list in the order of its keys. An
-- operation on `&mut self` that returns a result gives the state that it leaves, also where it
-- fails, and the result. Texts of errors are constructors, one for each text.
--
-- Fuel. The loop of `propose` has one unit for each pass. A pass that goes on raises the
-- step, the step starts at 4, and the loop stops above `max_steps`; so `max_steps` + 1 is enough.
-- The loops of `next_open_slot` and `commit_ready` count slots up to the largest u64, and have the
-- distance to 2^64 as their fuel. All other loops are structural.
--
-- What the proposer is told by the network is an argument: for a round and the requests of it, how
-- many workers were launched and what the channel delivers, in order. The availability guard of a
-- recorder and the store of a durable recorder are arguments too, and so are the file system, the
-- byte codec and the hash of the snapshot files.
--
-- Not modelled: threads and in-flight guards, clocks and timeouts, the file store of the recorder,
-- the byte encoding of membership commands and its hash, the runtime, and the rest of the
-- network directory: request locks, batches, transport, codecs, servers, load generators and
-- metrics.
pub mod Prelude
pub mod Error
pub mod Types
pub mod Isr
pub mod Cluster
pub mod Messages
pub mod Recorder
pub mod Dedupe
pub mod Durable
pub mod Store
pub mod Proposer
pub mod Replica
pub mod Protocol
pub mod Policy
pub mod Schedule
pub mod Samples
pub mod Examples
