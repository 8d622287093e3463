-- ===== src/Validator.antt =====
-- internal/validator: a plan is checked for its form, then run against a simulated cluster.
pub mod Errors
pub mod Schema
pub mod Simulator
pub mod WellFormed
pub mod Accepted
pub mod Params
