-- ===== src/Planner.antt =====
-- internal/planner/go_planner.go: the planner that needs no language model.
pub mod Steps
pub mod Slots
pub mod Topology
pub mod Builders
pub mod Scaling
pub mod Go
pub mod Goal
pub mod Accepted
pub mod Shares
