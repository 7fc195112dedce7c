-- ===== src/Lib.antt =====
-- A verification library for the namespace scheduler, the fair work queue, the patrol's differ and the
-- syncer's equality checks of VirtualCluster.
--
-- The scheduler (virtualcluster/experiment/pkg/scheduler) places the namespaces of tenants on super
-- clusters. A namespace has a quota, which is cut into slices of one size; a placement says how many
-- slices go to a cluster. The engine takes a snapshot of the cache, lets the algorithm choose a
-- cluster for each slice by first fit, and enters the placements in the cache, which keeps for each
-- cluster what is allocated and what is provisioned. The syncer feeds the requests of all tenants
-- through a queue (virtualcluster/pkg/util/fairqueue) that serves the tenants in turn: it has one
-- fifo for each group and asks a weighted round robin which group is next. The syncer's patrol
-- (virtualcluster/pkg/syncer/patrol) compares the objects of the tenants with those of the super
-- cluster and calls a handler for each difference. Whether two objects differ, and what the one that is
-- not the source of truth is to become, is for the checks of virtualcluster/pkg/syncer/conversion to
-- say: "down" and "below" are for the super cluster, "up" and "above" for the tenant.
--
-- Where the code is (paths below virtualcluster/experiment/pkg/scheduler for Scheduler/, and below
-- virtualcluster/pkg/util/fairqueue for FairQueue/):
--   Scheduler/Quantity   resource.Quantity and the rounded quotient of floats, as parameters
--   Scheduler/Error      the errors that the scheduler returns
--   Scheduler/Resource   Equals and GetLeastFitSliceNum of cache/namespace.go, MaxAlloc of
--                        cache/snapshot.go
--   Scheduler/Namespace  the rest of cache/namespace.go, and cache/pod.go
--   Scheduler/Cluster    cache/cluster.go
--   Scheduler/Cache      cache/cache.go: its fields, pods, and namespaces without the lock; below
--                        it, Cache/Methods has the other exported methods
--   Scheduler/Snapshot   cache/snapshot.go
--   Scheduler/Algorithm  algorithm/types.go and algorithm/namespacesched.go
--   Scheduler/Engine     engine/schedulerengine.go, and Min of util/helper.go
--   Scheduler/Demand     util/helper.go: capacity, quotas and requests
--   Scheduler/Annotations util/helper.go: the annotations of a namespace
--   Scheduler/Startup    util/helper.go: what puts the state of clusters in the cache
--   FairQueue/RoundRobin balancer/weightedroundrobin/scheduler.go
--   FairQueue/Queue      fair.go and fifo.go
--   Patrol/Differ        virtualcluster/pkg/syncer/patrol/differ/differ.go
--   Syncer/*             virtualcluster/pkg/syncer/conversion/equality.go: Keys (which keys are left
--                        alone), KeyValues (labels and annotations), Meta, Pods (images and
--                        deadlines), Conditions, Contents (config maps, secrets, claims,
--                        namespaces), Services (with endpoints), Whole (objects that are compared as
--                        a whole)
-- The modules below these are named for what they prove. A function has the name of the Go function
-- in small letters (Done is finish), a loop in it a name that ends in _each, _from or _loop. The
-- lock of the cache, of the engine and of the queue makes each method one step, so a method is a
-- function of the state; one that fails gives its error beside the state that it leaves.
--
-- Fuel. Only the round robin needs it: Next is given as many rounds as there are nodes, and ends
-- within them; Get asks the balancer at most one time more than there are groups, and finds one
-- with items; gcd runs |y| + 2 rounds, since the absolute value of the divisor falls. A panic of Go
-- is an outcome of its own.
--
-- Maps are association lists in which no key stands twice. Where the order of a range over a map
-- matters for a result, it is a parameter (Order, with the hypothesis IsOrder); loops whose order
-- does not matter to the state visit the list as it is. Go's int is ℤ where the code lets it be
-- negative, as the numbers of slices in placements, which are read from an annotation and not
-- checked; that it overflows is left out. Amounts of resources are not negative. The sizes of slices
-- are taken not to be changed by other code while the cache has them, so that a deep copy is the
-- value itself. Scheduler/Annotations models the code that does not keep to this: the slice size
-- that it returns is a global map, which it takes and leaves.
--
-- The checks of the syncer give the update or none, as the code gives nil. A nil map or slice is the
-- empty one, unless the code tells them apart, and a deep copy is the value. The fields that a check
-- only copies are values of types that are parameters; so are sets.String, resource.Quantity and
-- Semantic.DeepEqual, with the laws that are used. A check that writes to its arguments gives what
-- they have become. A theorem about a check says what the object is once the update has been applied
-- (settle) and that the next check finds nothing to do.
--
-- The goroutines of the differ, which run at the same time, are a list of calls each.
--
-- Not modelled: Dump and the metrics, which only report; the condition variable of the queue, of
-- which a Get that has to wait is one that is called again; delaying.go and the rate limiter; the
-- reconcilers and the manager around the engine, which call Kubernetes clients; the differ's
-- handlers; of the scheduler's util/helper.go, the functions that only call a client; the creation
-- of objects in the super cluster (mutate.go) and the reconcilers that call the checks.
pub mod Base
pub mod Scheduler
pub mod FairQueue
pub mod Patrol
pub mod Syncer
