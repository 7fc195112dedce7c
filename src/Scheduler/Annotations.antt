-- ===== src/Scheduler/Annotations.antt =====
-- util/helper.go: the annotations of a namespace that hold its placement and the size of its slices.
-- The global `DefaultNamespaceSlice` of pkg/util/constants is a map, so that every slice size which
-- these functions return is that map itself: they take what it holds and leave what it then holds.
pub mod Shared
use cluster_api_provider_nes.Base.{
  ℕ, String, Bool, true, false, Option, none, some, List, [], ◌∷◌, Dict, lookup, insert, Result, ok,
  err, replicate,
}
use cluster_api_provider_nes.Base.Int.{ℤ, pos_part}
use cluster_api_provider_nes.Scheduler.Quantity.{Quantities}
use cluster_api_provider_nes.Scheduler.Resource.{ResourceList}
use cluster_api_provider_nes.Scheduler.Namespace.{Slice, new_slice}

-- One constructor for each message, and the panic of `resource.MustParse`.
pub data InfoError : Type 0 where
  unknown_placements unknown_slice : String → InfoError
  wrong_cpu_format wrong_memory_format : InfoError
  must_parse_panic : String → InfoError
  no_placement wrong_cluster : String → InfoError

-- `json.Unmarshal` into a `map[string]int` and into a `map[string]string`: `err` is its error, and `none` the nil map that the text `null` gives, which
-- the second need not tell from the empty one. `parse` is `resource.ParseQuantity`, whose error
-- makes `MustParse` panic.
pub record Parsers (Quantity : Type 0) : Type 0 where
  pub unmarshal_counts : String → Result String (Option (Dict ℤ))
  pub unmarshal_texts : String → Result String (Dict String)
  pub parse : String → Option Quantity

-- the part of a `corev1.Namespace` that is read
pub record Annotated : Type 0 where
  pub name : String
  pub annotations : Dict String

abbrev pub label_scheduled_placements : String
label_scheduled_placements = "scheduler.virtualcluster.io/placements"

abbrev pub label_namespace_slice : String
label_namespace_slice = "scheduler.virtualcluster.io/slice"

module _ ⦃Q : Quantities⦄ ⦃J : Parsers Q.Quantity⦄ where
  open J use {unmarshal_counts, unmarshal_texts, parse}

  -- `DefaultNamespaceSlice` when the program starts
  abbrev pub default_namespace_slice : ResourceList
  default_namespace_slice = ("cpu", Q.must_parse "2") ∷ ("memory", Q.must_parse "4Gi") ∷ []

  -- `quotaslice[k] = resource.MustParse(val)`
  abbrev pub put_parsed :
      String → String → ResourceList → ResourceList × Result InfoError (Unit {0})
  put_parsed k val quotaslice = elim (parse val) [
    | none ↦ (quotaslice, err (must_parse_panic val))
    | some q ↦ (insert k q quotaslice, ok tt)
  ]

  unfoldable pub parse_slice :
      Dict String → ResourceList → ResourceList × Result InfoError (Unit {0})
  parse_slice slice quotaslice = elim (lookup "cpu" slice) [
    | none ↦ (quotaslice, err wrong_cpu_format)
    | some cpu ↦
        let (with_cpu, done) = put_parsed "cpu" cpu quotaslice in
        elim done [
          | err e ↦ (with_cpu, err e)
          | ok _ ↦ elim (lookup "memory" slice) [
            | none ↦ (with_cpu, err wrong_memory_format)
            | some memory ↦ put_parsed "memory" memory with_cpu
          ]
        ]
  ]

  -- the second half of `GetSchedulingInfo`
  unfoldable pub slice_info : Annotated → ResourceList → ResourceList × Result InfoError (Unit {0})
  unfolding parse_slice
  slice_info namespace default = elim (lookup label_namespace_slice namespace.annotations) [
    | none ↦ (default, ok tt)
    | some val ↦ elim (unmarshal_texts val) [
      | err e ↦ (default, err (unknown_slice namespace.name))
      | ok slice ↦ parse_slice slice default
    ]
  ]

  -- The placements, `none` if there are none. The slice size is what the global then holds.
  unfoldable pub get_scheduling_info :
      Annotated → ResourceList → ResourceList × Result InfoError (Option (Dict ℤ))
  unfolding slice_info
  get_scheduling_info namespace default =
      let placements : Result InfoError (Option (Dict ℤ)) =
        elim (lookup label_scheduled_placements namespace.annotations) [
          | none ↦ ok none
          | some val ↦ elim (unmarshal_counts val) [
            | err e ↦ err (unknown_placements namespace.name)
            | ok counts ↦ ok counts
          ]
        ] in
      elim placements [
        | err e ↦ (default, err e)
        | ok counts ↦
            let (global, done) = slice_info namespace default in
            (global, elim done [ err e ↦ err e | ok _ ↦ ok counts ])
      ]

  unfoldable pub get_provisioned_slices :
      Annotated → String → String → ResourceList → ResourceList × Result InfoError (List Slice)
  unfolding get_scheduling_info new_slice
  get_provisioned_slices namespace cluster_id key default =
      let (global, info) = get_scheduling_info namespace default in
      (
        global,
        elim info [
          | err e ↦ err e
          | ok none ↦ err (no_placement namespace.name)
          | ok (some placements) ↦ elim (lookup cluster_id placements) [
            | none ↦ err (wrong_cluster namespace.name)
            | some num ↦ ok (replicate (pos_part num) (new_slice key global cluster_id))
          ]
        ],
      )
