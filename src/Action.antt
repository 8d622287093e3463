-- ===== src/Action.antt =====
-- internal/action: what the executor sees of a cluster's pods and Redis nodes, and its steps.
pub mod Pods
pub mod Observed
pub mod Seen
pub mod Shown
pub mod Topology
pub mod Seeds
pub mod Asked
pub mod Views
pub mod Collected
pub mod Best
pub mod Status
pub mod Observe
pub mod World
pub mod Forget
pub mod Forgets
pub mod Delete
pub mod Deletes
pub mod Preceding
pub mod AddSlots
pub mod Adds
pub mod AddReads
pub mod SafeAdds
pub mod Goes
pub mod Completes
