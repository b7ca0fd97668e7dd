-- ===== src/Heap/Growth.antt =====
-- memory/heap.rs: `grow`, which maps a chunk of pages behind the heap, and `alloc`, which grows until
-- a request fits. The memory manager of memory/mod.rs and the heap of the crate linked_list_allocator
-- are seen through the operations that these call. A page is named by its start.
pub mod Rollback
pub mod Outcome
pub mod Bounded
mod Tests
use leaf_os_alpha.Base.{
  ℕ, zero, suc, ◌+◌, ◌-◌, ◌*◌, ◌/◌, Bool, true, false, ◌&&◌, ◌||◌, not, Option, none, some,
  if◌then◌else◌, ◌==◌, ltb, leb, Result, ok, err, is_some,
}
use leaf_os_alpha.Heap.{
  page_size, heap_growth_pages, pml4_slot_size, Layout, growth_pages_for_layout,
  required_frames_for_growth, growth_chunk_pages, available_pages_in_slot, checked_growth_start,
}

abbrev pub pml4_slot_pages : ℕ
pml4_slot_pages = pml4_slot_size / page_size

pub data HeapError (MemoryError MappingError : Type 0) : Type 0 where
  memory : MemoryError → HeapError MemoryError MappingError
  mapping : MappingError → HeapError MemoryError MappingError
  already_initialized no_virtual_range insufficient_physical_memory rollback_failed :
      HeapError MemoryError MappingError

-- What `grow` and `alloc` call: `failure` is the error of `with_manager`, if it gives one.
pub record Platform (M H MemoryError MappingError : Type 0) : Type 0 where
  pub failure : M → Option MemoryError
  pub first_unused_low_half_page : M → Option ℕ
  pub available_frame_count : M → ℕ
  pub allocate_and_map : ℕ → M → Result (Unit {0}) MappingError × M
  pub unmap_and_deallocate : ℕ → M → Bool × M
  pub try_new : ℕ → Option ℕ
  pub init_heap : ℕ → ℕ → H
  pub extend : ℕ → H → H
  pub allocate_first_fit : Layout → H → Option (ℕ × H)

pub record HeapState (H : Type 0) : Type 0 where
  pub heap : H
  pub initialized : Bool
  pub poisoned : Bool
  pub start : Option ℕ
  pub mapped_pages : ℕ

module _ {M H E F : Type 0} (p : Platform M H E F) where
  -- The pages below `mapped_pages` of the chunk are unmapped, the last one first.
  pub rollback : ℕ → ℕ → Bool → F → M → Result (Unit {0}) (HeapError E F) × M
  rollback growth_start zero rollback_failed_before error m =
      (err (if rollback_failed_before then rollback_failed else mapping error), m)
  rollback growth_start (suc mapped_pages) rollback_failed_before error m =
      let (unmapped, m') = p.unmap_and_deallocate (growth_start + mapped_pages * page_size) m in
      rollback growth_start mapped_pages (rollback_failed_before || not unmapped) error m'

  -- One round of the loop, with the rest of the loop.
  abbrev pub on_mapped :
      ℕ
      → ℕ
      → (M → Result (Unit {0}) (HeapError E F) × M)
      → Result (Unit {0}) F × M
      → Result (Unit {0}) (HeapError E F) × M
  unfolding rollback
  on_mapped growth_start mapped_pages rest (ok _, m) = rest m
  on_mapped growth_start mapped_pages rest (err error, m) =
      rollback growth_start mapped_pages false error m

  -- The loop: `left` pages are to be mapped behind `mapped_pages`.
  pub map_pages : ℕ → ℕ → ℕ → M → Result (Unit {0}) (HeapError E F) × M
  unfolding rollback
  map_pages growth_start mapped_pages zero m = (ok tt, m)
  map_pages growth_start mapped_pages (suc left) m =
      on_mapped growth_start mapped_pages (λ m'. map_pages growth_start (suc mapped_pages) left m')
        (p.allocate_and_map (growth_start + mapped_pages * page_size) m)

  -- What the closure of `grow` gives: the start of the growth and its pages.
  abbrev pub Grown : Type 0
  Grown = Result (ℕ × ℕ) (HeapError E F) × M

  abbrev pub on_pages : ℕ → ℕ → Result (Unit {0}) (HeapError E F) × M → Grown
  on_pages growth_start pages (ok _, m) = (ok (growth_start, pages), m)
  on_pages growth_start pages (err error, m) = (err error, m)

  pub grow_frames : ℕ → ℕ → Option ℕ → M → Grown
  unfolding map_pages
  grow_frames growth_start pages none m = (err insufficient_physical_memory, m)
  grow_frames growth_start pages (some required_frames) m =
      if ltb (p.available_frame_count m) required_frames
      then (err insufficient_physical_memory, m)
      else on_pages growth_start pages (map_pages growth_start 0 pages m)

  pub grow_placed : ℕ → ℕ → Option ℕ → M → Grown
  unfolding grow_frames
  grow_placed already_mapped_pages pages none m = (err no_virtual_range, m)
  grow_placed already_mapped_pages pages (some growth_start) m =
      grow_frames growth_start pages (required_frames_for_growth already_mapped_pages pages) m

  pub grow_available : ℕ → ℕ → ℕ → Option ℕ → M → Grown
  unfolding grow_placed
  grow_available target_total_pages base already_mapped_pages none m = (err no_virtual_range, m)
  grow_available target_total_pages base already_mapped_pages (some available_pages) m =
      let pages = growth_chunk_pages target_total_pages already_mapped_pages available_pages in
      if pages == 0
      then (err no_virtual_range, m)
      else grow_placed already_mapped_pages pages
          (checked_growth_start p.try_new base already_mapped_pages pages) m

  pub grow_base : ℕ → ℕ → Option ℕ → M → Grown
  unfolding grow_available
  grow_base target_total_pages already_mapped_pages none m = (err no_virtual_range, m)
  grow_base target_total_pages already_mapped_pages (some base) m =
      grow_available target_total_pages base already_mapped_pages
        (available_pages_in_slot base already_mapped_pages) m

  abbrev pub base_of : Option ℕ → M → Option ℕ
  base_of (some start) m = some start
  base_of none m = p.first_unused_low_half_page m

  abbrev pub Committed : Type 0
  Committed = Result (Unit {0}) (HeapError E F) × HeapState H × M

  -- The heap takes the pages.
  abbrev pub take_pages : HeapState H → Option ℕ → ℕ → ℕ → HeapState H
  take_pages s (some start) growth_start pages = record s {
    heap = p.extend (pages * page_size) s.heap;
    mapped_pages = s.mapped_pages + pages;
  }
  take_pages s none growth_start pages = record s {
    heap = p.init_heap growth_start (pages * page_size);
    start = some growth_start;
    mapped_pages = s.mapped_pages + pages;
  }

  pub commit : HeapState H → Grown → Committed
  commit s (ok (growth_start, pages), m) = (ok tt, take_pages s s.start growth_start pages, m)
  commit s (err rollback_failed, m) = (err rollback_failed, record s { poisoned = true }, m)
  commit s (err error, m) = (err error, s, m)

  pub grow_managed : ℕ → HeapState H → M → Option E → Committed
  unfolding grow_base commit
  grow_managed target_total_pages s m (some error) = (err (memory error), s, m)
  grow_managed target_total_pages s m none =
      commit s (grow_base target_total_pages s.mapped_pages (base_of s.start m) m)

  pub grow : ℕ → HeapState H → M → Committed
  unfolding grow_managed
  grow target_total_pages s m =
      if s.poisoned
      then (err rollback_failed, s, m)
      else grow_managed target_total_pages s m (p.failure m)

  pub initialize_heap : HeapState H → M → Committed
  unfolding grow
  initialize_heap s m =
      if s.initialized
      then (err already_initialized, s, m)
      else (if s.poisoned
          then (err rollback_failed, s, m)
          else started (grow heap_growth_pages s m))
    where
      started : Committed → Committed
      started (ok _, s', m') = (ok tt, record s' { initialized = true }, m')
      started (err error, s', m') = (err error, s', m')

  -- The pointer, if there is one, with the state; none if the fuel runs out.
  abbrev pub Allocated : Type 0
  Allocated = Option (Option ℕ × HeapState H × M)

  -- After a growth: the request is tried again.
  abbrev pub on_fit :
      ℕ → Bool → (HeapState H → M → Allocated) → HeapState H → M → Option (ℕ × H) → Allocated
  on_fit target_total_pages target_requires_growth rest s m (some (address, heap)) =
      some (some address, record s { heap = heap }, m)
  on_fit target_total_pages target_requires_growth rest s m none =
      if target_requires_growth && leb target_total_pages s.mapped_pages
      then some (none, s, m)
      else rest s m

  abbrev pub on_grown : Layout → ℕ → Bool → (HeapState H → M → Allocated) → Committed → Allocated
  on_grown layout target_total_pages target_requires_growth rest (ok _, s, m) =
      on_fit target_total_pages target_requires_growth rest s m (p.allocate_first_fit layout s.heap)
  on_grown layout target_total_pages target_requires_growth rest (err error, s, m) =
      some (none, s, m)

  pub alloc_loop : Layout → ℕ → Bool → ℕ → HeapState H → M → Allocated
  unfolding grow
  alloc_loop layout target_total_pages target_requires_growth zero s m = none
  alloc_loop layout target_total_pages target_requires_growth (suc fuel) s m =
      on_grown layout target_total_pages target_requires_growth
        (λ s' m'. alloc_loop layout target_total_pages target_requires_growth fuel s' m')
        (grow target_total_pages s m)

  -- Are there frames for the pages that are needed at least?
  abbrev pub has_frames : M → Option ℕ → Option E → Bool
  has_frames m (some required_frames) none = leb required_frames (p.available_frame_count m)
  has_frames m _ _ = false

  pub alloc_sized : Layout → HeapState H → M → Option (ℕ × ℕ) → Allocated
  alloc_sized layout s m none = some (none, s, m)
  alloc_sized layout s m (some (minimum_total_pages, target_total_pages)) =
      let minimum_additional_pages = minimum_total_pages - s.mapped_pages in
      if ltb pml4_slot_pages target_total_pages
        || (not (minimum_additional_pages == 0)
            && not (
                has_frames m (required_frames_for_growth s.mapped_pages minimum_additional_pages)
                  (p.failure m)))
      then some (none, s, m)
      else alloc_loop layout target_total_pages (ltb s.mapped_pages target_total_pages)
          (pml4_slot_pages + 1) s m

  pub alloc_first : Layout → HeapState H → M → Option (ℕ × H) → Allocated
  unfolding alloc_sized
  alloc_first layout s m (some (address, heap)) = some (some address, record s { heap = heap }, m)
  alloc_first layout s m none = alloc_sized layout s m (growth_pages_for_layout layout)

  pub alloc : Layout → HeapState H → M → Allocated
  unfolding alloc_first
  alloc layout s m =
      if not s.initialized || s.poisoned
      then some (none, s, m)
      else alloc_first layout s m (p.allocate_first_fit layout s.heap)
