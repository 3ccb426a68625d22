-- ===== src/Checks.antt =====
-- Tests of the definitions on inputs that can be followed in the source, and the theorems at inputs
-- that meet their hypotheses.
mod Fixtures
mod Memory
mod Topics
mod Crashes
mod Network
mod Registry
mod Calls
mod Actions
mod Recorder
mod Gateway
mod Nodes
mod Filing
mod Starting
mod Racing
mod Tools
mod Waiting
mod Joining
