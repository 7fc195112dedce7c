-- ===== src/Scheduler/Annotations/Shared.antt =====
-- What the namespaces that have been read leave in `DefaultNamespaceSlice`.
use cluster_api_provider_nes.Base.{
  String, ◌≡◌, ap, ◌∙◌, ◌⊎◌, inl, inr, Bool, true, false, Option, none, some, List, [], ◌∷◌, arith,
  ite, dec_eq, Dict, lookup, insert, lookup-insert, ok, err, Option-cases, Bool-cases, Result-cases,
}
use cluster_api_provider_nes.Scheduler.Quantity.{Quantities}
use cluster_api_provider_nes.Scheduler.Resource.{ResourceList}
use cluster_api_provider_nes.Scheduler.Annotations.{
  Parsers, Annotated, label_scheduled_placements, label_namespace_slice, parse_slice, slice_info,
  get_scheduling_info,
}

-- the first that is there
abbrev pub or_else {ℓ} : {A : Type ℓ} → Option A → Option A → Option A
or_else (some a) rest = some a
or_else none rest = rest

-- what there is, if there is also another
abbrev pub and_then {ℓ κ} : {A : Type ℓ} {B : Type κ} → Option A → (A → Option B) → Option B
and_then none next = none
and_then (some a) next = next a

module _ ⦃Q : Quantities⦄ ⦃J : Parsers Q.Quantity⦄ where
  open Q use {Quantity}
  open J use {unmarshal_counts, unmarshal_texts, parse}

  -- The namespace's annotation of its placements, if it has one, can be read.
  abbrev pub placements_readable : Annotated → Bool
  placements_readable n = elim (lookup label_scheduled_placements n.annotations) [
    | none ↦ true
    | some val ↦ elim (unmarshal_counts val) [ err e ↦ false | ok counts ↦ true ]
  ]

  -- the texts of the slice size, where the code comes to read them
  abbrev pub slice_texts : Annotated → Option (Dict String)
  slice_texts n = elim (placements_readable n) [
    | false ↦ none
    | true ↦ elim (lookup label_namespace_slice n.annotations) [
      | none ↦ none
      | some val ↦ elim (unmarshal_texts val) [ err e ↦ none | ok texts ↦ some texts ]
    ]
  ]

  -- The CPU that a namespace writes to the global, and the memory, which it writes only after that.
  abbrev pub written_cpu : Annotated → Option Quantity
  written_cpu n = and_then (slice_texts n) (λ texts. and_then (lookup "cpu" texts) parse)

  abbrev pub written_memory : Annotated → Option Quantity
  written_memory n =
      and_then (written_cpu n)
        (λ _. and_then (slice_texts n) (λ texts. and_then (lookup "memory" texts) parse))

  parse_slice_lem :
      (texts : Dict String) (k : String) (d : ResourceList)
      → lookup k (parse_slice texts d).0 ≡ (
          let cpu = and_then (lookup "cpu" texts) parse in
          let memory = and_then (lookup "memory" texts) parse in
          ite
            (dec_eq k "memory")
            (or_else (and_then cpu (λ _. memory)) (lookup k d))
            (ite (dec_eq k "cpu") (or_else cpu (lookup k d)) (lookup k d)))
  unfolding parse_slice
  parse_slice_lem texts k d = elim (Option-cases (lookup "cpu" texts)) [
    | inl h ↦ rw h (ground arith)
    | inr (cpu, h) ↦ elim (Option-cases (parse cpu)) [
      | inl hp ↦ rw h (rw hp (ground arith))
      | inr (c, hp) ↦ elim (Option-cases (lookup "memory" texts)) [
        | inl hm ↦ rw h (rw hp (rw hm (ground (arith, lookup-insert k "cpu" c d))))
        | inr (memory, hm) ↦ elim (Option-cases (parse memory)) [
          | inl hq ↦ rw h (rw hp (rw hm (rw hq (ground (arith, lookup-insert k "cpu" c d)))))
          | inr (m, hq) ↦ rw h (
              rw hp (
                rw hm (
                  rw hq (
                    ground (
                      arith,
                      lookup-insert k "memory" m (insert "cpu" c d),
                      lookup-insert k "cpu" c d,
                    )))))
        ]
      ]
    ]
  ]

  get_scheduling_info_global :
      (n : Annotated) (d : ResourceList)
      → (get_scheduling_info n d).0
        ≡ elim (placements_readable n) [ false ↦ d | true ↦ (slice_info n d).0 ]
  unfolding get_scheduling_info
  get_scheduling_info_global n d =
      elim (Option-cases (lookup label_scheduled_placements n.annotations)) [
        | inl h ↦ ground (arith, h)
        | inr (val, h) ↦ elim (Result-cases (unmarshal_counts val)) [
          | inl (e, hu) ↦ ground (arith, h, hu)
          | inr (counts, hu) ↦ ground (arith, h, hu)
        ]
      ]

  -- Either the texts of a slice are read, or the global is left as it is.
  slice_texts_cases :
      (n : Annotated) (d : ResourceList)
      → (((get_scheduling_info n d).0 ≡ d) × (slice_texts n ≡ none))
        ⊎ ((texts : Dict String) × ((get_scheduling_info n d).0 ≡ (parse_slice texts d).0)
            × (slice_texts n ≡ some texts))
  unfolding slice_info
  slice_texts_cases n d = elim (Bool-cases (placements_readable n)) [
    | inr h ↦ inl (ground (arith, get_scheduling_info_global n d, h), ground (arith, h))
    | inl h ↦ elim (Option-cases (lookup label_namespace_slice n.annotations)) [
      | inl hl ↦ inl (ground (arith, get_scheduling_info_global n d, h, hl), ground (arith, h, hl))
      | inr (val, hl) ↦ elim (Result-cases (unmarshal_texts val)) [
        | inl (e, hu) ↦
            inl
              (ground (arith, get_scheduling_info_global n d, h, hl, hu), ground (arith, h, hl, hu))
        | inr (texts, hu) ↦ inr (
          texts,
          ground (arith, get_scheduling_info_global n d, h, hl, hu),
          ground (arith, h, hl, hu),
        )
      ]
    ]
  ]

  get_scheduling_info_writes :
      (n : Annotated) (k : String) (d : ResourceList)
      → lookup k (get_scheduling_info n d).0
        ≡ ite
            (dec_eq k "memory")
            (or_else (written_memory n) (lookup k d))
            (ite (dec_eq k "cpu") (or_else (written_cpu n) (lookup k d)) (lookup k d))
  get_scheduling_info_writes n k d = elim (slice_texts_cases n d) [
    | inl (h, none_read) ↦ rw none_read (ap (lookup k) h ∙ ground arith)
    | inr (texts, h, read) ↦ rw read (ap (lookup k) h ∙ parse_slice_lem texts k d)
  ]

  -- what the global holds after some namespaces have been read, one after the other
  abbrev pub after_reading : List Annotated → ResourceList → ResourceList
  after_reading [] d = d
  after_reading (n ∷ ns) d = after_reading ns (get_scheduling_info n d).0

  -- the last value that a test finds
  abbrev pub last_of : (Annotated → Option Quantity) → List Annotated → Option Quantity
  last_of f [] = none
  last_of f (n ∷ ns) = or_else (last_of f ns) (f n)

  -- What the global holds after some namespaces have been read, one after the other.
  after_reading_lem :
      (ns : List Annotated) (k : String) (d : ResourceList)
      → lookup k (after_reading ns d)
        ≡ ite
            (dec_eq k "memory")
            (or_else (last_of written_memory ns) (lookup k d))
            (ite (dec_eq k "cpu") (or_else (last_of written_cpu ns) (lookup k d)) (lookup k d))
  after_reading_lem [] k d = ground arith
  after_reading_lem (n ∷ ns) k d =
      ground (
        arith,
        after_reading_lem ns k (get_scheduling_info n d).0,
        get_scheduling_info_writes n k d,
      )

  -- A namespace that says nothing of its slice size, read after others, is given the CPU of the last
  -- of them that wrote one and the memory of the last that wrote one, and only where none did what the
  -- global held before they were read.
  pub leftover_slice :
      (ns : List Annotated) (n : Annotated) (k : String) (d : ResourceList)
      → lookup label_namespace_slice n.annotations ≡ none
      → lookup k (get_scheduling_info n (after_reading ns d)).0
        ≡ ite
            (dec_eq k "memory")
            (or_else (last_of written_memory ns) (lookup k d))
            (ite (dec_eq k "cpu") (or_else (last_of written_cpu ns) (lookup k d)) (lookup k d))
  leftover_slice ns n k d silent = elim (slice_texts_cases n (after_reading ns d)) [
    | inl (same, h) ↦ ap (lookup k) same ∙ after_reading_lem ns k d
    | inr (texts, h, read) ↦ absurd (ground (arith, silent, read))
  ]
