-- ===== src/Memory/Frames.antt =====
-- memory/mod.rs: `BootInfoFrameAllocator`. A frame is its start address.
pub mod Cache
pub mod Cursor
pub mod First
pub mod Owners
pub mod Safety
pub mod History
pub mod Exhausted
pub mod Filled
pub mod Complete
use leaf_os_alpha.Base.{
  ℕ, zero, suc, ◌+◌, ◌-◌, ◌*◌, ◌/◌, ◌%◌, ◌^◌, Bool, true, false, ◌&&◌, ◌||◌, not, Option, none,
  some, List, [], ◌∷◌, if◌then◌else◌, ◌==◌, ltb, leb, slot, fill, replicate, Result, ok, err,
}
use leaf_os_alpha.Memory.Map.{
  page_size, efi_descriptor_min_size, MemoryError, PhysicalRange, overlaps, contains,
  EfiMemoryDescriptor, read_descriptor, validate_memory_map, page_covering_range,
}

abbrev pub efi_conventional_memory : ℕ
efi_conventional_memory = 7

abbrev pub reclaimed_frame_capacity : ℕ
reclaimed_frame_capacity = 260

pub record FrameAllocator : Type 0 where
  pub memory_map : List ℕ
  pub descriptor_size : ℕ
  pub descriptor_count : ℕ
  pub descriptor_index : ℕ
  pub page_index : ℕ
  pub physical_limit : ℕ
  pub reserved_ranges : List PhysicalRange
  pub reclaimed_frames : List (Option ℕ)
  pub reclaimed_count : ℕ

unfoldable pub any_contains : List PhysicalRange → ℕ → Bool
any_contains [] address = false
any_contains (r ∷ rs) address = contains r address || any_contains rs address

abbrev pub descriptor_at : FrameAllocator → ℕ → Option EfiMemoryDescriptor
descriptor_at a index = read_descriptor a.memory_map a.descriptor_size index

-- Does the loop of `next_usable_frame` pass over the page at this address?
unfoldable pub is_passed : FrameAllocator → ℕ → Bool
is_passed a address =
    leb a.physical_limit address
    || any_contains a.reserved_ranges address
    || not (address % page_size == 0)

-- The rounds of that loop for the next `n` pages of a region, from `page` on: the page it takes.
unfoldable pub usable_page : FrameAllocator → EfiMemoryDescriptor → ℕ → ℕ → Option ℕ
usable_page a d zero page = none
usable_page a d (suc n) page =
    let rest = usable_page a d n (page + 1) in
    if is_passed a (d.physical_start + page * page_size) then rest else some page

-- Its rounds for one region. A descriptor that cannot be read, where the source panics, is passed.
unfoldable pub usable_in : FrameAllocator → Option EfiMemoryDescriptor → ℕ → Option ℕ
usable_in a none page = none
usable_in a (some d) page =
    if d.memory_type == efi_conventional_memory
    then usable_page a d (d.number_of_pages - page) page
    else none

-- The region and the page it takes, over the next `n` descriptors from `index` on, the first of them
-- from `page` on.
unfoldable pub usable_from : FrameAllocator → ℕ → ℕ → ℕ → Option (ℕ × ℕ)
usable_from a zero index page = none
usable_from a (suc n) index page =
    let rest = usable_from a n (index + 1) 0 in
    elim (usable_in a (descriptor_at a index) page) [ none ↦ rest | some q ↦ some (index, q) ]

abbrev pub start_of : Option EfiMemoryDescriptor → ℕ
start_of none = 0
start_of (some d) = d.physical_start

unfoldable pub advance_to : FrameAllocator → Option (ℕ × ℕ) → Option ℕ × FrameAllocator
advance_to a none =
    if ltb a.descriptor_index a.descriptor_count
    then (none, record a { descriptor_index = a.descriptor_count; page_index = 0 })
    else (none, a)
advance_to a (some (index, page)) = (
  some (start_of (descriptor_at a index) + page * page_size),
  record a { descriptor_index = index; page_index = page + 1 },
)

unfoldable pub next_usable_frame : FrameAllocator → Option ℕ × FrameAllocator
unfolding usable_page usable_in usable_from advance_to
next_usable_frame a =
    if not (a.reclaimed_count == 0)
    then (let last = a.reclaimed_count - 1 in
        (
          slot a.reclaimed_frames last,
          record a { reclaimed_count = last; reclaimed_frames = fill last none a.reclaimed_frames },
        ))
    else advance_to a
        (usable_from a (a.descriptor_count - a.descriptor_index) a.descriptor_index a.page_index)

pub reclaim_frame : FrameAllocator → ℕ → Bool × FrameAllocator
reclaim_frame a frame =
    if ltb a.reclaimed_count reclaimed_frame_capacity
    then (
      true,
      record a {
        reclaimed_frames = fill a.reclaimed_count (some frame) a.reclaimed_frames;
        reclaimed_count = a.reclaimed_count + 1;
      },
    )
    else (false, a)

pub holds_frame : Option EfiMemoryDescriptor → ℕ → Bool
holds_frame none address = false
holds_frame (some d) address =
    (d.memory_type == efi_conventional_memory)
    && leb d.physical_start address
    && ltb address (d.physical_start + d.number_of_pages * page_size)

pub any_holds : FrameAllocator → ℕ → ℕ → Bool
any_holds a zero address = false
any_holds a (suc n) address = any_holds a n address || holds_frame (descriptor_at a n) address

unfoldable pub is_allocatable_frame : FrameAllocator → ℕ → Bool
unfolding any_holds
is_allocatable_frame a address =
    if leb a.physical_limit address || any_contains a.reserved_ranges address
    then false
    else any_holds a a.descriptor_count address

-- `MemoryManager::deallocate_frame`, of which this is all the state that it changes.
unfoldable pub deallocate_frame :
    FrameAllocator → ℕ → Result (Unit {0}) MemoryError × FrameAllocator
deallocate_frame a frame =
    if is_allocatable_frame a frame
    then (let (kept, a') = reclaim_frame a frame in
        (if kept then ok tt else err MemoryError.frame_reclaim_capacity_exceeded, a'))
    else (err MemoryError.invalid_memory_map, a)
