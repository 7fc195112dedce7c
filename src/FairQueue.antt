-- ===== src/FairQueue.antt =====
-- The fair work queue of virtualcluster/pkg/util/fairqueue.
pub mod RoundRobin
pub mod Queue
mod Tests
