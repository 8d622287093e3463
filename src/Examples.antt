-- ===== src/Examples.antt =====
-- The witnesses and tests, by the part of the program that they exercise.
pub mod Full
pub mod Small
pub mod Accepting
pub mod Stepping
pub mod Repairing
pub mod Planning
pub mod Running
pub mod Reading
pub mod Live
pub mod Reconciling
pub mod Matching
pub mod Observing
pub mod Executing
