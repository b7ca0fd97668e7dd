-- ===== src/Heap/Growth/Outcome.antt =====
-- What `grow` of memory/heap.rs leaves mapped and what the heap counts, after either outcome.
use leaf_os_alpha.Base.{
  ℕ, ◌+◌, ◌≡◌, refl, Bool, true, false, ◌&&◌, ◌||◌, not, Option, none, some, arith, if◌then◌else◌,
  ◌==◌, ltb, Result, ok, err, either,
}
use leaf_os_alpha.Heap.{
  required_frames_for_growth, growth_chunk_pages, available_pages_in_slot, checked_growth_start,
}
use leaf_os_alpha.Heap.Growth.{
  HeapError, rollback_failed, memory, mapping, already_initialized, no_virtual_range,
  insufficient_physical_memory, Platform, HeapState, map_pages, Grown, on_pages, grow_frames,
  grow_placed, grow_available, grow_base, base_of, Committed, take_pages, commit, grow_managed,
  grow,
}
use leaf_os_alpha.Heap.Growth.Bounded.{IsProgress, grow-IsProgress}
use leaf_os_alpha.Heap.Growth.Rollback.{inside, Same, Adds, Kept, map_pages_lem}

module _ {M H E F : Type 0} (p : Platform M H E F) (is_mapped : M → ℕ → Bool) where
  -- Of the closure: as of the loop.
  abbrev AfterGrowth : M → Grown p → Type 0
  AfterGrowth m (ok (start, pages), m') = Adds p is_mapped m start pages m'
  AfterGrowth m (err rollback_failed, m') = Unit
  AfterGrowth m (err error, m') = Same p is_mapped m m'

  -- What is mapped and what the heap counts, after a growth of either outcome.
  abbrev pub Grows : HeapState H → M → Committed p → Type 0
  Grows s m (ok _, s', m') =
      (start : ℕ) × (pages : ℕ) × (s'.mapped_pages ≡ s.mapped_pages + pages)
      × (s'.poisoned ≡ s.poisoned)
      × ((q : ℕ) → is_mapped m' q ≡ (inside start pages q || is_mapped m q))
  Grows s m (err rollback_failed, s', m') =
      (s'.poisoned ≡ true) × (s'.mapped_pages ≡ s.mapped_pages)
  Grows s m (err error, s', m') = (s' ≡ s) × ((q : ℕ) → is_mapped m' q ≡ is_mapped m q)

  module _
      (maps : (a : ℕ) (m m' : M)
        → p.allocate_and_map a m ≡ (ok tt, m')
        → (is_mapped m a ≡ false) × ((q : ℕ) → is_mapped m' q ≡ ((q == a) || is_mapped m q)))
      (maps_not : (a : ℕ) (m m' : M) (error : F)
        → p.allocate_and_map a m ≡ (err error, m')
        → (q : ℕ) → is_mapped m' q ≡ is_mapped m q)
      (unmaps : (a : ℕ) (m m' : M)
        → p.unmap_and_deallocate a m ≡ (true, m')
        → (q : ℕ) → is_mapped m' q ≡ (is_mapped m q && not (q == a))) where
    on_pages-AfterGrowth :
        (m : M) (start pages : ℕ) (r : Result (Unit {0}) (HeapError E F) × M)
        → Kept p is_mapped m start pages r
        → AfterGrowth m (on_pages p start pages r)
    on_pages-AfterGrowth m start pages (ok _, m') k = k
    on_pages-AfterGrowth m start pages (err rollback_failed, m') k = tt
    on_pages-AfterGrowth m start pages (err (memory _), m') k = k
    on_pages-AfterGrowth m start pages (err (mapping _), m') k = k
    on_pages-AfterGrowth m start pages (err already_initialized, m') k = k
    on_pages-AfterGrowth m start pages (err no_virtual_range, m') k = k
    on_pages-AfterGrowth m start pages (err insufficient_physical_memory, m') k = k

    grow_frames-AfterGrowth :
        (start pages : ℕ) (frames : Option ℕ) (m : M)
        → AfterGrowth m (grow_frames p start pages frames m)
    unfolding grow_frames
    grow_frames-AfterGrowth start pages none m = λ q. refl
    grow_frames-AfterGrowth start pages (some n) m =
        either (AfterGrowth m) (ltb (p.available_frame_count m) n)
          (err insufficient_physical_memory, m)
          (on_pages p start pages (map_pages p start 0 pages m)) (λ q. refl)
          (on_pages-AfterGrowth m start pages (map_pages p start 0 pages m) (
            map_pages_lem p is_mapped maps maps_not unmaps m start pages pages 0 m (omega arith)
              (λ q i. ground arith) (λ q. refl)))

    grow_placed-AfterGrowth :
        (mapped pages : ℕ) (start : Option ℕ) (m : M)
        → AfterGrowth m (grow_placed p mapped pages start m)
    unfolding grow_placed
    grow_placed-AfterGrowth mapped pages none m = λ q. refl
    grow_placed-AfterGrowth mapped pages (some start) m =
        grow_frames-AfterGrowth start pages (required_frames_for_growth mapped pages) m

    grow_available-AfterGrowth :
        (target base mapped : ℕ) (available : Option ℕ) (m : M)
        → AfterGrowth m (grow_available p target base mapped available m)
    unfolding grow_available
    grow_available-AfterGrowth target base mapped none m = λ q. refl
    grow_available-AfterGrowth target base mapped (some n) m =
        let pages = growth_chunk_pages target mapped n in
        either (AfterGrowth m) (pages == 0) (err no_virtual_range, m)
          (grow_placed p mapped pages (checked_growth_start p.try_new base mapped pages) m)
          (λ q. refl)
          (grow_placed-AfterGrowth mapped pages (checked_growth_start p.try_new base mapped pages)
            m)

    grow_base-AfterGrowth :
        (target mapped : ℕ) (base : Option ℕ) (m : M)
        → AfterGrowth m (grow_base p target mapped base m)
    unfolding grow_base
    grow_base-AfterGrowth target mapped none m = λ q. refl
    grow_base-AfterGrowth target mapped (some base) m =
        grow_available-AfterGrowth target base mapped (available_pages_in_slot base mapped) m

    commit-Grows :
        (s : HeapState H) (m : M) (g : Grown p) → AfterGrowth m g → Grows s m (commit p s g)
    unfolding commit
    commit-Grows s m (ok (start, pages), m') a =
        (start, pages, counted s.start, unpoisoned s.start, a)
      where
        counted :
            (o : Option ℕ)
            → HeapState.mapped_pages (take_pages p s o start pages) ≡ s.mapped_pages + pages
        counted (some _) = refl
        counted none = refl

        unpoisoned : (o : Option ℕ) → HeapState.poisoned (take_pages p s o start pages) ≡ s.poisoned
        unpoisoned (some _) = refl
        unpoisoned none = refl
    commit-Grows s m (err rollback_failed, m') a = (refl, refl)
    commit-Grows s m (err (memory _), m') a = (refl, a)
    commit-Grows s m (err (mapping _), m') a = (refl, a)
    commit-Grows s m (err already_initialized, m') a = (refl, a)
    commit-Grows s m (err no_virtual_range, m') a = (refl, a)
    commit-Grows s m (err insufficient_physical_memory, m') a = (refl, a)

    grow_managed-Grows :
        (target : ℕ) (s : HeapState H) (m : M) (o : Option E)
        → Grows s m (grow_managed p target s m o)
    unfolding grow_managed
    grow_managed-Grows target s m (some e) = (refl, λ q. refl)
    grow_managed-Grows target s m none =
        commit-Grows s m (grow_base p target s.mapped_pages (base_of p s.start m) m)
          (grow_base-AfterGrowth target s.mapped_pages (base_of p s.start m) m)

    grow-AsCounted : (target : ℕ) (s : HeapState H) (m : M) → Grows s m (grow p target s m)
    unfolding grow
    grow-AsCounted target s m = go s.poisoned refl
      where
        go :
            (b : Bool)
            → s.poisoned ≡ b
            → Grows s m
                (if b then (err rollback_failed, s, m) else grow_managed p target s m (p.failure m))
        go true e = (e, refl)
        go false e = grow_managed-Grows target s m (p.failure m)

    -- Let the manager map a page only where none is mapped, change nothing when it fails to map one,
    -- and unmap just the page it is told. A growth of the heap then maps a run of pages and counts them,
    -- at least one and in all no more than a slot has; or it fails: after an error other than a failed
    -- rollback the state of the heap is as before and the same pages are mapped, whichever page of the
    -- run could not be mapped; after a failed rollback the heap is poisoned, and counts no page more.
    pub grow-Grows :
        (target : ℕ) (s : HeapState H) (m : M)
        → Grows s m (grow p target s m) × IsProgress p s.mapped_pages (grow p target s m)
    grow-Grows target s m = (grow-AsCounted target s m, grow-IsProgress p target s m)
