-- ===== src/Memory/Boot.antt =====
-- memory/mod.rs: the ranges that the loader has reserved, and the frame allocator at boot.
pub mod Fresh
pub mod Lossless
use leaf_os_alpha.Base.{
  ℕ, zero, suc, ◌+◌, ◌-◌, ◌*◌, ◌/◌, ◌%◌, ◌^◌, Bool, true, false, ◌&&◌, ◌||◌, not, Option, none,
  some, List, [], ◌∷◌, if◌then◌else◌, ◌==◌, ltb, leb, slot, fill, replicate, Result, ok, err,
}
use leaf_os_alpha.Memory.Map.{
  page_size, efi_descriptor_min_size, MemoryError, PhysicalRange, overlaps, contains,
  EfiMemoryDescriptor, read_descriptor, validate_memory_map, page_covering_range,
}
use leaf_os_alpha.Memory.Frames.{FrameAllocator, efi_conventional_memory, reclaimed_frame_capacity}

-- boot_info.rs; a pointer is its address.
pub record BootInfo : Type 0 where
  pub magic : ℕ
  pub version : ℕ
  pub padding0 : ℕ
  pub system_table : ℕ
  pub memory_map : ℕ
  pub memory_map_size : ℕ
  pub descriptor_size : ℕ
  pub descriptor_version : ℕ
  pub padding1 : ℕ
  pub kernel_base : ℕ
  pub kernel_file_size : ℕ
  pub kernel_reserved_size : ℕ
  pub page_table_root : ℕ
  pub physical_memory_offset : ℕ
  pub framebuffer_base : ℕ
  pub framebuffer_size : ℕ
  pub framebuffer_width : ℕ
  pub framebuffer_height : ℕ
  pub framebuffer_pixels_per_scan_line : ℕ
  pub framebuffer_pixel_format : ℕ
  pub initrd_base : ℕ
  pub initrd_size : ℕ

-- `size_of::<BootInfo>()`
abbrev pub boot_info_size : ℕ
boot_info_size = 144

-- `?` on a `Result`, down a list of results.
unfoldable pub all_ranges :
    List (Result PhysicalRange MemoryError) → Result (List PhysicalRange) MemoryError
all_ranges [] = ok []
all_ranges (err e ∷ rs) = err e
all_ranges (ok r ∷ rs) = elim (all_ranges rs) [ err e ↦ err e | ok ranges ↦ ok (r ∷ ranges) ]

unfoldable pub reserved_ranges : BootInfo → ℕ → ℕ → Result (List PhysicalRange) MemoryError
unfolding all_ranges
reserved_ranges b boot_info_address limit = all_ranges (
    page_covering_range b.kernel_base b.kernel_reserved_size limit
    ∷ page_covering_range boot_info_address boot_info_size limit
    ∷ page_covering_range b.memory_map b.memory_map_size limit
    ∷ page_covering_range b.page_table_root page_size limit
    ∷ page_covering_range b.system_table page_size limit
    ∷ page_covering_range b.framebuffer_base b.framebuffer_size limit
    ∷ [])

unfoldable pub any_overlaps : PhysicalRange → List PhysicalRange → Bool
any_overlaps range [] = false
any_overlaps range (r ∷ rs) = overlaps range r || any_overlaps range rs

-- Is the region not one to hand out, or clear of the reserved ranges?
unfoldable pub is_unreserved : List PhysicalRange → Option EfiMemoryDescriptor → Bool
is_unreserved ranges none = false
is_unreserved ranges (some d) =
    not (d.memory_type == efi_conventional_memory)
    || not (
        any_overlaps
          (record {
            start = d.physical_start;
            end = d.physical_start + d.number_of_pages * page_size;
          })
          ranges)

unfoldable pub are_unreserved_below : List ℕ → ℕ → List PhysicalRange → ℕ → Bool
are_unreserved_below memory_map descriptor_size ranges zero = true
are_unreserved_below memory_map descriptor_size ranges (suc n) =
    are_unreserved_below memory_map descriptor_size ranges n
    && is_unreserved ranges (read_descriptor memory_map descriptor_size n)

unfoldable pub new_with :
    List ℕ
    → ℕ
    → ℕ
    → Result ℕ MemoryError
    → Result (List PhysicalRange) MemoryError
    → Result FrameAllocator MemoryError
new_with memory_map descriptor_size limit (err e) ranges = err e
new_with memory_map descriptor_size limit (ok count) (err e) = err e
new_with memory_map descriptor_size limit (ok count) (ok ranges) =
    if are_unreserved_below memory_map descriptor_size ranges count
    then ok (record {
      memory_map = memory_map;
      descriptor_size = descriptor_size;
      descriptor_count = count;
      descriptor_index = 0;
      page_index = 0;
      physical_limit = limit;
      reserved_ranges = ranges;
      reclaimed_frames = replicate reclaimed_frame_capacity none;
      reclaimed_count = 0;
    })
    else err MemoryError.invalid_memory_map

-- `memory_map` is the slice of `memory_map_size` bytes at the boot record's pointer.
unfoldable pub new : BootInfo → List ℕ → ℕ → ℕ → Result FrameAllocator MemoryError
unfolding new_with
new b memory_map boot_info_address limit =
    if (b.memory_map == 0) || (b.memory_map_size == 0)
    then err MemoryError.missing_memory_map
    else (if ltb b.descriptor_size efi_descriptor_min_size
          || ltb (2 ^ 63 - 1) b.memory_map_size
          || not (b.memory_map_size % b.descriptor_size == 0)
        then err MemoryError.invalid_memory_map
        else new_with memory_map b.descriptor_size limit
            (validate_memory_map memory_map b.descriptor_size limit)
            (reserved_ranges b boot_info_address limit))
