-- ===== src/Heap.antt =====
-- memory/heap.rs: how the kernel heap sizes and places its growth. Sizes are 64-bit.
pub mod Sizing
pub mod Placing
pub mod Growth
mod Tests
use leaf_os_alpha.Base.{
  ℕ, ◌+◌, ◌-◌, ◌*◌, ◌/◌, ◌%◌, ◌^◌, Bool, ◌||◌, ◌&&◌, not, Option, none, some, if◌then◌else◌, ◌==◌,
  ltb, leb, min, max, ◌>>=◌, checked_add, checked_sub, checked_mul, checked_div,
}

abbrev pub page_size : ℕ
page_size = 4096

abbrev pub heap_growth_pages : ℕ
heap_growth_pages = 1024 * 1024 / 4096

abbrev pub pml4_slot_size : ℕ
pml4_slot_size = 2 ^ 39

abbrev pub lower_half_pml4_entries : ℕ
lower_half_pml4_entries = 256

abbrev pub min_hole_size : ℕ
min_hole_size = 16

abbrev pub pages_per_page_table : ℕ
pages_per_page_table = 512

abbrev pub pages_per_page_directory : ℕ
pages_per_page_directory = 2 ^ 18

-- `Layout`: `align` is a power of two.
pub record Layout : Type 0 where
  pub size : ℕ
  pub align : ℕ

-- The minimum and the target number of heap pages.
pub growth_pages_for_layout : Layout → Option (ℕ × ℕ)
growth_pages_for_layout layout = do
  let allocation_bytes = max layout.size min_hole_size
  minimum_bytes ← checked_add allocation_bytes (page_size - 1)
  slack ← checked_sub layout.align 1
  aligned_bytes ← checked_add allocation_bytes slack
  rounded_aligned_bytes ← checked_add aligned_bytes (page_size - 1)
  some (minimum_bytes / page_size, rounded_aligned_bytes / page_size)

pub ceil_div : ℕ → ℕ → Option ℕ
ceil_div value divisor = do
  less ← checked_sub divisor 1
  sum ← checked_add value less
  checked_div sum divisor

pub added_table_pages : ℕ → ℕ → ℕ → Option ℕ
added_table_pages previous_pages growth_pages pages_per_table = do
  end_pages ← checked_add previous_pages growth_pages
  after ← ceil_div end_pages pages_per_table
  before ← ceil_div previous_pages pages_per_table
  checked_sub after before

pub required_frames_for_growth : ℕ → ℕ → Option ℕ
required_frames_for_growth previous_pages growth_pages = if growth_pages == 0 then none else (do
  tables ← added_table_pages previous_pages growth_pages pages_per_page_table
  leaf_and_pt ← checked_add growth_pages tables
  directories ← added_table_pages previous_pages growth_pages pages_per_page_directory
  with_pd ← checked_add leaf_and_pt directories
  checked_add with_pd (if previous_pages == 0 then 1 else 0))

pub growth_chunk_pages : ℕ → ℕ → ℕ → ℕ
growth_chunk_pages target_total_pages already_mapped_pages available_pages =
    let desired_pages =
      if ltb already_mapped_pages target_total_pages
      then target_total_pages - already_mapped_pages
      else heap_growth_pages in
    min (min desired_pages heap_growth_pages) available_pages

-- Does the address begin a PML4 slot of the lower half, other than the first?
abbrev pub starts_slot : ℕ → Bool
starts_slot start_address =
    (start_address % pml4_slot_size == 0)
    && not (start_address / pml4_slot_size == 0)
    && ltb (start_address / pml4_slot_size) lower_half_pml4_entries

pub available_pages_in_slot : ℕ → ℕ → Option ℕ
available_pages_in_slot heap_start mapped_pages =
    if starts_slot heap_start then checked_sub (pml4_slot_size / page_size) mapped_pages else none

-- `try_new` is `VirtAddr::try_new` of the crate x86_64: the address, if it is canonical.
pub checked_growth_start : (ℕ → Option ℕ) → ℕ → ℕ → ℕ → Option ℕ
checked_growth_start try_new heap_start mapped_pages additional_pages =
    if (additional_pages == 0) || not (starts_slot heap_start) then none else (do
      total_pages ← checked_add mapped_pages additional_pages
      total_bytes ← checked_mul total_pages page_size
      end_exclusive ← checked_add heap_start total_bytes
      next_slot ← checked_add (heap_start / pml4_slot_size) 1
      slot_end ← checked_mul next_slot pml4_slot_size
      last ← checked_sub end_exclusive 1
      if ltb slot_end end_exclusive then none else (do
        inside ← try_new last
        offset ← checked_mul mapped_pages page_size
        address ← checked_add heap_start offset
        try_new address))
