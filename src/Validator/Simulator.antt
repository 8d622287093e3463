-- ===== src/Validator/Simulator.antt =====
-- internal/validator/simulator.go: the plan simulator. A pointer to a simulated node is the key
-- under which the map `nodes` holds it: nodes are never replaced, so a write through the pointer
-- is an update at the key. A failed step's half-written state is dropped by `simulatePlan`.
pub mod State
pub mod Checks
pub mod Steps
pub mod Lookups
pub mod Moves
pub mod Ownership
pub mod Exclusive
pub mod Consistent
pub mod Giving
pub mod Preserved
pub mod Indexed
pub mod Demands
pub mod Written
pub mod Achieved
pub mod Start
pub mod Goal
pub mod Safety
