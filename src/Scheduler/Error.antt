-- ===== src/Scheduler/Error.antt =====
-- The errors of the cache, the snapshots, the algorithm and the engine: one constructor for each
-- message that the code formats, with the names that matter in it.
use cluster_api_provider_nes.Base.Int.{ℤ}
use cluster_api_provider_nes.Base.{ℕ, String, Bool, true, false, Option, none, some}

pub data Error : Type 0 where
  -- cache/cluster.go
  key_exists not_allocatable no_capacity over_capacity negative_alloc wrong_cluster : String → Error
  misplaced : String → String → Error
  -- cache/namespace.go
  quota_missing slice_zero slice_larger : String → Error
  slice_incomplete : Error
  -- cache/cache.go
  cluster_missing namespace_exists namespace_missing : String → Error
  slices_not_scheduled : ℕ → ℤ → Error
  different_keys : Error
  pod_failed : String → Error → Error
  -- cache/snapshot.go
  slices_without_cluster negative_removal inconsistent_cache : Error
  namespace_not_found pod_not_indexed pod_misplaced : String → Error
  -- algorithm/namespacesched.go
  mandatory_missing resource_unfit : String → Error
  mandatory_unfit : Error → Error
  -- engine/schedulerengine.go
  slice_size_changed : Error
  not_scheduled : String → Error

-- `err == nil`
abbrev pub is_nil : Option Error → Bool
is_nil none = true
is_nil (some e) = false
