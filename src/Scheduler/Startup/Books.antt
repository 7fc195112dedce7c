-- ===== src/Scheduler/Startup/Books.antt =====
-- The state of clusters that is put in the cache leaves the books of every cluster right.
use cluster_api_provider_nes.Base.{ℕ, String, ◌≡◌, ◌⊎◌, Option, none, List, Dict, Result}
use cluster_api_provider_nes.Scheduler.Quantity.{Quantities}
use cluster_api_provider_nes.Scheduler.Resource.{ResourceList}
use cluster_api_provider_nes.Scheduler.Cache.{Cache}
use cluster_api_provider_nes.Scheduler.Cache.Books.{IsSound}
use cluster_api_provider_nes.Scheduler.Demand.{Node}
use cluster_api_provider_nes.Scheduler.Annotations.{Parsers, Annotated}
use cluster_api_provider_nes.Scheduler.Startup.{
  ApiNamespace, sync_super_cluster_state, sync_virtual_cluster_state,
}
use cluster_api_provider_nes.Scheduler.Startup.Clusters.{
  sync_super_cluster_state-IsSound, sync_super_cluster_state-IsAllOrNothing,
}
use cluster_api_provider_nes.Scheduler.Startup.Tenants.{sync_virtual_cluster_state-IsSound}

module _ ⦃Q : Quantities⦄ where
  open Q use {Quantity}

  module _ ⦃J : Parsers Quantity⦄ where
    -- Entering a super cluster in the cache, with the slices that are provisioned in it, keeps the
    -- books of every cluster right, and leaves the cache as it was if it stops with an error. Entering
    -- a tenant's namespaces and pods keeps the books of every cluster right too, wherever it stops.
    pub sync_state-IsSound :
        (now : ℕ) (id tenant : String) (labels : Option (Dict String))
        (nodelist : Result String (List Node)) (superlist : Result String (List Annotated))
        (nslist : Result String (List ApiNamespace)) (default : ResourceList) (c : Cache)
        → IsSound c
        → let (d1, e1, c1) = sync_super_cluster_state now id labels nodelist superlist default c in
          let (d2, e2, c2) = sync_virtual_cluster_state now tenant nslist default c in
          IsSound c1 × ((e1 ≡ none) ⊎ (c1 ≡ c)) × IsSound c2
    sync_state-IsSound now id tenant labels nodelist superlist nslist default c s = (
      sync_super_cluster_state-IsSound now id labels nodelist superlist default c s,
      sync_super_cluster_state-IsAllOrNothing now id labels nodelist superlist default c,
      sync_virtual_cluster_state-IsSound now tenant nslist default c s,
    )
