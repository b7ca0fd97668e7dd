-- ===== src/Memory/Map.antt =====
-- memory/mod.rs: the memory map that UEFI leaves, and the ranges the loader has reserved.
pub mod Regions
pub mod Covering
use leaf_os_alpha.Base.{
  ℕ, zero, suc, ◌+◌, ◌-◌, ◌*◌, ◌/◌, ◌%◌, Bool, true, false, ◌&&◌, ◌||◌, not, Option, none, some,
  List, [], ◌∷◌, if◌then◌else◌, ◌==◌, ltb, leb, length, take, drop, ◌>>=◌, checked_add, checked_mul,
  Result, ok, err,
}

abbrev pub page_size : ℕ
page_size = 4096

abbrev pub efi_descriptor_min_size : ℕ
efi_descriptor_min_size = 40

pub data MemoryError : Type 0 where
  missing_memory_map invalid_memory_map invalid_physical_address_width : MemoryError
  invalid_boot_info invalid_page_table_root invalid_physical_memory_offset : MemoryError
  physical_address_out_of_range frame_reclaim_capacity_exceeded : MemoryError
  not_initialized frame_allocation_failed no_user_address_space_slot : MemoryError

pub record PhysicalRange : Type 0 where
  pub start : ℕ
  pub end : ℕ

abbrev pub empty_range : PhysicalRange
empty_range = record { start = 0; end = 0 }

unfoldable pub overlaps : PhysicalRange → PhysicalRange → Bool
overlaps r other = ltb r.start other.end && ltb other.start r.end

unfoldable pub contains : PhysicalRange → ℕ → Bool
contains r address = leb r.start address && ltb address r.end

pub record EfiMemoryDescriptor : Type 0 where
  pub memory_type : ℕ
  pub padding : ℕ
  pub physical_start : ℕ
  pub virtual_start : ℕ
  pub number_of_pages : ℕ
  pub attributes : ℕ

-- An unaligned load on x86-64, which is little-endian.
unfoldable pub load : List ℕ → ℕ
load [] = 0
load (byte ∷ bytes) = byte + 256 * load bytes

-- The fields of the `repr(C)` layout of 40 bytes.
unfoldable pub decode : List ℕ → EfiMemoryDescriptor
unfolding load
decode bytes = record {
  memory_type = load (take 4 bytes);
  padding = load (take 4 (drop 4 bytes));
  physical_start = load (take 8 (drop 8 bytes));
  virtual_start = load (take 8 (drop 16 bytes));
  number_of_pages = load (take 8 (drop 24 bytes));
  attributes = load (take 8 (drop 32 bytes));
}

unfoldable pub read_descriptor : List ℕ → ℕ → ℕ → Option EfiMemoryDescriptor
read_descriptor memory_map descriptor_size index = do
  offset ← checked_mul index descriptor_size
  end ← checked_add offset efi_descriptor_min_size
  if leb end (length memory_map)
      then some (decode (take efi_descriptor_min_size (drop offset memory_map)))
      else none

-- The checked end of a descriptor's region.
unfoldable pub region : EfiMemoryDescriptor → Option PhysicalRange
region d = do
  size ← checked_mul d.number_of_pages page_size
  end ← checked_add d.physical_start size
  some (record { start = d.physical_start; end = end })

-- The low bits that `& PAGE_MASK` leaves are the remainder.
unfoldable pub is_within : ℕ → EfiMemoryDescriptor → PhysicalRange → Bool
is_within physical_limit d r =
    not (d.number_of_pages == 0)
    && (d.physical_start % page_size == 0)
    && ltb d.physical_start physical_limit
    && leb r.end physical_limit

-- Does the range keep clear of the descriptor's region?
unfoldable pub avoids : PhysicalRange → Option EfiMemoryDescriptor → Bool
avoids current none = false
avoids current (some d) = elim (region d) [ none ↦ false | some r ↦ not (overlaps current r) ]

-- The inner loop of `validate_memory_map`, over the descriptors below `n`.
unfoldable pub avoids_below : List ℕ → ℕ → PhysicalRange → ℕ → Bool
avoids_below memory_map descriptor_size current zero = true
avoids_below memory_map descriptor_size current (suc n) =
    avoids_below memory_map descriptor_size current n
    && avoids current (read_descriptor memory_map descriptor_size n)

-- The body of its outer loop for a descriptor; each failure is one error.
unfoldable pub is_valid_region : List ℕ → ℕ → ℕ → ℕ → Option EfiMemoryDescriptor → Bool
is_valid_region memory_map descriptor_size physical_limit index none = false
is_valid_region memory_map descriptor_size physical_limit index (some d) = elim (region d) [
  | none ↦ false
  | some r ↦ is_within physical_limit d r && avoids_below memory_map descriptor_size r index
]

unfoldable pub are_valid_below : List ℕ → ℕ → ℕ → ℕ → Bool
are_valid_below memory_map descriptor_size physical_limit zero = true
are_valid_below memory_map descriptor_size physical_limit (suc n) =
    are_valid_below memory_map descriptor_size physical_limit n
    && is_valid_region memory_map descriptor_size physical_limit n
        (read_descriptor memory_map descriptor_size n)

unfoldable pub validate_memory_map : List ℕ → ℕ → ℕ → Result ℕ MemoryError
validate_memory_map memory_map descriptor_size physical_limit =
    if ltb descriptor_size efi_descriptor_min_size
      || (length memory_map == 0)
      || not (length memory_map % descriptor_size == 0)
      || leb physical_limit page_size
    then err MemoryError.invalid_memory_map
    else (let descriptor_count = length memory_map / descriptor_size in
        if are_valid_below memory_map descriptor_size physical_limit descriptor_count
        then ok descriptor_count
        else err MemoryError.invalid_memory_map)

-- The end of `page_covering_range`, for the aligned end, if it did not overflow.
unfoldable pub covered : ℕ → ℕ → Option ℕ → Result PhysicalRange MemoryError
covered physical_limit aligned_start none = err MemoryError.invalid_boot_info
covered physical_limit aligned_start (some aligned_end) =
    if ltb physical_limit aligned_end || leb aligned_end aligned_start
    then err MemoryError.invalid_boot_info
    else ok (record { start = aligned_start; end = aligned_end })

-- `x & !PAGE_MASK` is the multiple of the page size at or below `x`.
unfoldable pub page_covering_range : ℕ → ℕ → ℕ → Result PhysicalRange MemoryError
unfolding covered
page_covering_range address size physical_limit =
    if size == 0
    then ok empty_range
    else covered physical_limit (address - address % page_size) (do
      end ← checked_add address size
      last ← checked_add end (page_size - 1)
      some (last - last % page_size))
