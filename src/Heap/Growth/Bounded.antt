-- ===== src/Heap/Growth/Bounded.antt =====
-- How often `alloc` of memory/heap.rs grows the heap: a growth that succeeds brings it closer to the
-- size of its slot.
use leaf_os_alpha.Base.{
  ℕ, zero, suc, ◌+◌, ◌-◌, ◌≡◌, ◌≤◌, ◌<◌, refl, Bool, true, ◌&&◌, ◌||◌, not, Option, none, some,
  arith, ◌==◌, ltb, leb, Result, ok, err, is_some, Bool-cases, either, inl, inr,
}
use leaf_os_alpha.Heap.{
  Layout, growth_pages_for_layout, required_frames_for_growth, growth_chunk_pages,
  available_pages_in_slot, checked_growth_start,
}
use leaf_os_alpha.Heap.Growth.{
  HeapError, rollback_failed, memory, mapping, already_initialized, no_virtual_range,
  insufficient_physical_memory, Platform, HeapState, pml4_slot_pages, map_pages, Grown, on_pages,
  grow_frames, grow_placed, grow_available, grow_base, base_of, Committed, take_pages, commit,
  grow_managed, grow, Allocated, on_fit, on_grown, alloc_loop, has_frames, alloc_sized, alloc_first,
  alloc,
}

in_slot :
    (mapped base n target : ℕ)
    → available_pages_in_slot base mapped ≡ some n
    → mapped + growth_chunk_pages target mapped n ≤ 134217728
unfolding available_pages_in_slot growth_chunk_pages
in_slot mapped base n target e = ground arith

module _ {M H E F : Type 0} (p : Platform M H E F) where
  -- Pages that are mapped, are so within the slot.
  abbrev IsChunk : ℕ → Grown p → Type 0
  IsChunk mapped (ok (growth_start, pages), m) = (0 < pages) × (mapped + pages ≤ 134217728)
  IsChunk mapped (err e, m) = Unit

  on_pages-IsChunk :
      (mapped start pages : ℕ)
      → 0 < pages
      → mapped + pages ≤ 134217728
      → (r : Result (Unit {0}) (HeapError E F) × M) → IsChunk mapped (on_pages p start pages r)
  on_pages-IsChunk mapped start pages a b (ok _, m) = (a, b)
  on_pages-IsChunk mapped start pages a b (err e, m) = tt

  grow_frames-IsChunk :
      (mapped start pages : ℕ)
      → 0 < pages
      → mapped + pages ≤ 134217728
      → (frames : Option ℕ) (m : M) → IsChunk mapped (grow_frames p start pages frames m)
  unfolding grow_frames
  grow_frames-IsChunk mapped start pages a b none m = tt
  grow_frames-IsChunk mapped start pages a b (some n) m =
      elim (Bool-cases (ltb (p.available_frame_count m) n)) [
        | inl e ↦ rw e tt
        | inr e ↦ rw e (on_pages-IsChunk mapped start pages a b (map_pages p start 0 pages m))
      ]

  grow_placed-IsChunk :
      (mapped pages : ℕ)
      → 0 < pages
      → mapped + pages ≤ 134217728
      → (start : Option ℕ) (m : M) → IsChunk mapped (grow_placed p mapped pages start m)
  unfolding grow_placed
  grow_placed-IsChunk mapped pages a b none m = tt
  grow_placed-IsChunk mapped pages a b (some start) m =
      grow_frames-IsChunk mapped start pages a b (required_frames_for_growth mapped pages) m

  grow_available-IsChunk :
      (target base mapped : ℕ) (available : Option ℕ) (m : M)
      → available_pages_in_slot base mapped ≡ available
      → IsChunk mapped (grow_available p target base mapped available m)
  unfolding grow_available
  grow_available-IsChunk target base mapped none m e = tt
  grow_available-IsChunk target base mapped (some n) m e =
      elim (Bool-cases (growth_chunk_pages target mapped n == 0)) [
        | inl f ↦ rw f tt
        | inr f ↦ rw f (
            grow_placed-IsChunk mapped (growth_chunk_pages target mapped n) (ground arith)
              (in_slot mapped base n target e)
              (checked_growth_start p.try_new base mapped (growth_chunk_pages target mapped n)) m)
      ]

  grow_base-IsChunk :
      (target mapped : ℕ) (base : Option ℕ) (m : M)
      → IsChunk mapped (grow_base p target mapped base m)
  unfolding grow_base
  grow_base-IsChunk target mapped none m = tt
  grow_base-IsChunk target mapped (some base) m =
      grow_available-IsChunk target base mapped (available_pages_in_slot base mapped) m refl

  -- A growth that succeeds adds pages, and the slot holds them.
  abbrev pub IsProgress : ℕ → Committed p → Type 0
  IsProgress mapped (ok _, s, m) = (mapped < s.mapped_pages) × (s.mapped_pages ≤ 134217728)
  IsProgress mapped (err e, s, m) = Unit

  take_pages-mapped :
      (s : HeapState H) (o : Option ℕ) (start pages : ℕ)
      → HeapState.mapped_pages (take_pages p s o start pages) ≡ s.mapped_pages + pages
  take_pages-mapped s (some _) start pages = refl
  take_pages-mapped s none start pages = refl

  commit-IsProgress :
      (s : HeapState H) (g : Grown p)
      → IsChunk s.mapped_pages g
      → IsProgress s.mapped_pages (commit p s g)
  unfolding commit
  commit-IsProgress s (ok (start, pages), m) (a, b) = (
    omega (arith, take_pages-mapped s s.start start pages),
    omega (arith, take_pages-mapped s s.start start pages),
  )
  commit-IsProgress s (err rollback_failed, m) c = tt
  commit-IsProgress s (err (memory _), m) c = tt
  commit-IsProgress s (err (mapping _), m) c = tt
  commit-IsProgress s (err already_initialized, m) c = tt
  commit-IsProgress s (err no_virtual_range, m) c = tt
  commit-IsProgress s (err insufficient_physical_memory, m) c = tt

  grow_managed-IsProgress :
      (target : ℕ) (s : HeapState H) (m : M) (o : Option E)
      → IsProgress s.mapped_pages (grow_managed p target s m o)
  unfolding grow_managed
  grow_managed-IsProgress target s m (some e) = tt
  grow_managed-IsProgress target s m none =
      commit-IsProgress s (grow_base p target s.mapped_pages (base_of p s.start m) m)
        (grow_base-IsChunk target s.mapped_pages (base_of p s.start m) m)

  pub grow-IsProgress :
      (target : ℕ) (s : HeapState H) (m : M) → IsProgress s.mapped_pages (grow p target s m)
  unfolding grow
  grow-IsProgress target s m =
      either (IsProgress s.mapped_pages) s.poisoned (err rollback_failed, s, m)
        (grow_managed p target s m (p.failure m)) tt
        (grow_managed-IsProgress target s m (p.failure m))

  module _ (layout : Layout) (target : ℕ) (requires : Bool) where
    on_fit-total :
        (rest : HeapState H → M → Allocated p) (s : HeapState H) (m : M) (o : Option (ℕ × H))
        → is_some (rest s m) ≡ true
        → is_some (on_fit p target requires rest s m o) ≡ true
    on_fit-total rest s m (some (a, heap)) h = refl
    on_fit-total rest s m none h = elim (Bool-cases (requires && leb target s.mapped_pages)) [
      | inl e ↦ rw e refl
      | inr e ↦ rw e h
    ]

    on_grown-total :
        (mapped : ℕ) (rest : HeapState H → M → Allocated p)
        → ((s : HeapState H) (m : M)
            → mapped < s.mapped_pages
            → s.mapped_pages ≤ 134217728
            → is_some (rest s m) ≡ true)
        → (c : Committed p) → IsProgress mapped c
        → is_some (on_grown p layout target requires rest c) ≡ true
    on_grown-total mapped rest h (ok _, s, m) (a, b) =
        on_fit-total rest s m (p.allocate_first_fit layout s.heap) (h s m a b)
    on_grown-total mapped rest h (err e, s, m) q = refl

    alloc_loop-total :
        (fuel : ℕ) (s : HeapState H) (m : M)
        → 134217728 - s.mapped_pages < fuel
        → is_some (alloc_loop p layout target requires fuel s m) ≡ true
    unfolding alloc_loop
    alloc_loop-total zero s m h = ground arith
    alloc_loop-total (suc fuel) s m h =
        on_grown-total s.mapped_pages (λ s' m'. alloc_loop p layout target requires fuel s' m')
          (λ s' m' a b. alloc_loop-total fuel s' m' (omega arith)) (grow p target s m)
          (grow-IsProgress target s m)

  alloc_sized-total :
      (layout : Layout) (s : HeapState H) (m : M) (o : Option (ℕ × ℕ))
      → is_some (alloc_sized p layout s m o) ≡ true
  unfolding alloc_sized
  alloc_sized-total layout s m none = refl
  alloc_sized-total layout s m (some (low, high)) =
      either (λ (r : Allocated p). is_some r ≡ true)
        (ltb pml4_slot_pages high
          || (not (low - s.mapped_pages == 0)
              && not (
                  has_frames p m (required_frames_for_growth s.mapped_pages (low - s.mapped_pages))
                    (p.failure m))))
        (some (none, s, m)) (alloc_loop p layout high (ltb s.mapped_pages high) 134217729 s m) refl
        (alloc_loop-total layout high (ltb s.mapped_pages high) 134217729 s m (omega arith))

  alloc_first-total :
      (layout : Layout) (s : HeapState H) (m : M) (o : Option (ℕ × H))
      → is_some (alloc_first p layout s m o) ≡ true
  unfolding alloc_first
  alloc_first-total layout s m (some (a, heap)) = refl
  alloc_first-total layout s m none = alloc_sized-total layout s m (growth_pages_for_layout layout)

  -- From every state of the heap, whatever the memory manager and the heap answer, `alloc` returns: its
  -- loop runs at most once more than a slot has pages, since every growth that succeeds adds a page.
  pub alloc-total :
      (layout : Layout) (s : HeapState H) (m : M) → is_some (alloc p layout s m) ≡ true
  unfolding alloc
  alloc-total layout s m = elim (Bool-cases (not s.initialized || s.poisoned)) [
    | inl e ↦ rw e refl
    | inr e ↦ rw e (alloc_first-total layout s m (p.allocate_first_fit layout s.heap))
  ]
