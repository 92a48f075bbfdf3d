-- ===== src/Examples.antt =====
-- Tests of the model, and the theorems at concrete inputs.
mod Agreement
mod Delivering
mod Foundations
mod Membership
mod Pipeline
mod Proposing
mod Recording
mod Scheduling
mod Storing
mod Deduplication
