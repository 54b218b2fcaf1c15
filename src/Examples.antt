-- ===== src/Examples.antt =====
-- Tests: the theorems at concrete inputs of the code they are about.
mod Identities
mod Scheduling
mod Tables
mod Batches
mod Cutting
mod Handling
mod Graphs
mod Dispatching
