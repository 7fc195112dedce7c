-- ===== src/Syncer.antt =====
-- The syncer: virtualcluster/pkg/syncer.
pub mod Keys
pub mod KeyValues
pub mod Meta
pub mod Pods
pub mod Conditions
pub mod Contents
pub mod Services
pub mod Whole
mod Tests
