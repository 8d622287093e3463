-- ===== src/Controller.antt =====
-- internal/controller: the plan that a cluster's status keeps, and its execution.
pub mod Status
pub mod Execution
pub mod Ordinal
pub mod Progress
pub mod Touched
pub mod Completes
pub mod Handled
pub mod Restore
pub mod Reserved
pub mod Taken
pub mod Matching
pub mod Masters
pub mod Found
pub mod Counts
pub mod Matches
pub mod Planning
pub mod Stored
pub mod EndToEnd
pub mod Waiting
