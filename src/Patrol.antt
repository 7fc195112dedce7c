-- ===== src/Patrol.antt =====
-- The patrol of the syncer: virtualcluster/pkg/syncer/patrol.
pub mod Differ
mod Tests
