-- ===== src/Scheduler.antt =====
-- The scheduler of virtualcluster/experiment/pkg/scheduler: its cache, the snapshots that it takes
-- of the cache, the placement algorithm and the engine that joins them.
pub mod Quantity
pub mod Error
pub mod Resource
pub mod Namespace
pub mod Cluster
pub mod Cache
pub mod Snapshot
pub mod Algorithm
pub mod Engine
pub mod Demand
pub mod Annotations
pub mod Startup
mod Tests
