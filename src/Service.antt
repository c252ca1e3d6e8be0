-- ===== src/Service.antt =====
-- `SyncHookAggregator` of AVS/aggregator/aggregator.go: the task table with its consensus, the pool
-- states that it ages and aggregates, and the loops that work on them. A Prometheus counter is the
-- number of its increments.
pub mod Tasks
pub mod Pools
pub mod Loops
pub mod Starting
pub mod Consensus
pub mod Expiry
pub mod Aging
