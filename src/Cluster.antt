-- ===== src/Cluster.antt =====
-- internal/rediscluster/cluster.go: entries of CLUSTER NODES, slot specifications, ownership.
pub mod Slots
pub mod Bounds
pub mod Ranges
pub mod Entries
pub mod Owners
pub mod Markers
pub mod Marked
pub mod Full
