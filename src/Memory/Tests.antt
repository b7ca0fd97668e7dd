-- ===== src/Memory/Tests.antt =====
-- A small memory map for memory/mod.rs.
use leaf_os_alpha.Base.{
  length-replicate, Option, number, ◌==◌, ◌⊎◌, ℕ, ◌^◌, ◌+◌, ◌*◌, ◌%◌, ◌/◌, ◌≡◌, ◌≢◌, ◌≤◌, ◌<◌, refl,
  none, some, List, [], ◌∷◌, ◌++◌, arith, length, replicate, ok, true,
}
use leaf_os_alpha.Memory.Map.{
  PhysicalRange, contains, EfiMemoryDescriptor, read_descriptor, validate_memory_map,
  page_covering_range, are_valid_below, is_valid_region, region, is_within, avoids_below, avoids,
  decode, load, overlaps, covered,
}
use leaf_os_alpha.Memory.Map.Regions.{IsSound, AreApart, validate-regions}
use leaf_os_alpha.Memory.Map.Covering.{covering_range_lem, covering_range-total}
use leaf_os_alpha.Memory.Frames.{
  FrameAllocator, descriptor_at, is_allocatable_frame, next_usable_frame, usable_from, usable_in,
  usable_page, is_passed, any_contains, advance_to,
}
use leaf_os_alpha.Memory.Frames.Exhausted.{IsUnusable, next-exhausted}
use leaf_os_alpha.Memory.Frames.Filled.{IsFilled}
use leaf_os_alpha.Memory.Frames.Safety.{holders, gained}
use leaf_os_alpha.Memory.Frames.History.{World, here, next, allocates}
use leaf_os_alpha.Memory.Boot.{
  BootInfo, new, new_with, reserved_ranges, all_ranges, are_unreserved_below, is_unreserved,
  any_overlaps,
}
use leaf_os_alpha.Memory.Boot.Fresh.{new-frames}
use leaf_os_alpha.Memory.Boot.Lossless.{none-used}

-- A word of eight bytes whose second one is given.
abbrev word_of : ℕ → List ℕ
word_of byte = 0 ∷ byte ∷ 0 ∷ 0 ∷ 0 ∷ 0 ∷ 0 ∷ 0 ∷ []

-- Two descriptors: two pages of conventional memory at 0x2000, and a page of other use at 0x4000.
abbrev memory_map : List ℕ
memory_map =
    (7 ∷ 0 ∷ 0 ∷ 0 ∷ 0 ∷ 0 ∷ 0 ∷ 0 ∷ [])
    ++ word_of 0x20
    ++ word_of 0
    ++ (2 ∷ 0 ∷ 0 ∷ 0 ∷ 0 ∷ 0 ∷ 0 ∷ 0 ∷ [])
    ++ word_of 0
    ++ ((1 ∷ 0 ∷ 0 ∷ 0 ∷ 0 ∷ 0 ∷ 0 ∷ 0 ∷ [])
        ++ word_of 0x40
        ++ word_of 0
        ++ (1 ∷ 0 ∷ 0 ∷ 0 ∷ 0 ∷ 0 ∷ 0 ∷ 0 ∷ [])
        ++ word_of 0)

abbrev limit : ℕ
limit = 0x100000

map_is_valid : validate_memory_map memory_map 40 limit ≡ ok 2
unfolding validate_memory_map are_valid_below is_valid_region region is_within avoids_below avoids
    read_descriptor decode load overlaps
map_is_valid = refl

validate-regions_example :
    (2 ≡ length memory_map / 40)
    × (length memory_map % 40 ≡ 0)
    × ((i : ℕ)
        → i < 2
        → (d : EfiMemoryDescriptor) × (read_descriptor memory_map 40 i ≡ some d) × IsSound limit d)
    × ((i j : ℕ) (d e : EfiMemoryDescriptor)
        → i < 2
        → j < 2
        → i ≢ j
        → read_descriptor memory_map 40 i ≡ some d
        → read_descriptor memory_map 40 j ≡ some e
        → AreApart d e)
validate-regions_example = validate-regions memory_map 40 limit 2 map_is_valid

covering_range-total_example :
    (r : PhysicalRange) × (page_covering_range 0x1234 0x2000 limit ≡ ok r)
covering_range-total_example =
    covering_range-total 0x1234 0x2000 limit (omega arith) (omega arith) (omega arith) (omega arith)

abbrev covered_pages : PhysicalRange
covered_pages = record { start = 0x1000; end = 0x4000 }

covers : page_covering_range 0x1234 0x2000 limit ≡ ok covered_pages
unfolding page_covering_range covered
covers = refl

covering_range_lem_example :
    (covered_pages.start % 4096 ≡ 0)
    × (covered_pages.end % 4096 ≡ 0)
    × (covered_pages.start ≤ 0x1234)
    × (0x1234 < covered_pages.start + 4096)
    × (0x1234 + 0x2000 ≤ covered_pages.end)
    × (covered_pages.end < 0x1234 + 0x2000 + 4096)
    × (covered_pages.end ≤ limit)
covering_range_lem_example =
    covering_range_lem 0x1234 0x2000 limit covered_pages (omega arith) covers

abbrev boot_info : BootInfo
boot_info = record {
  magic = 0x52555354424F4F54;
  version = 1;
  padding0 = 0;
  system_table = 0x8000;
  memory_map = 0x9000;
  memory_map_size = 80;
  descriptor_size = 40;
  descriptor_version = 1;
  padding1 = 0;
  kernel_base = 0x10000;
  kernel_file_size = 0x7000;
  kernel_reserved_size = 0x8000;
  page_table_root = 0xA000;
  physical_memory_offset = 2 ^ 47;
  framebuffer_base = 0x80000;
  framebuffer_size = 0x1000;
  framebuffer_width = 32;
  framebuffer_height = 32;
  framebuffer_pixels_per_scan_line = 32;
  framebuffer_pixel_format = 1;
  initrd_base = 0;
  initrd_size = 0;
}

abbrev range : ℕ → ℕ → PhysicalRange
range start end = record { start = start; end = end }

abbrev at_boot : FrameAllocator
at_boot = record {
  memory_map = memory_map;
  descriptor_size = 40;
  descriptor_count = 2;
  descriptor_index = 0;
  page_index = 0;
  physical_limit = limit;
  reserved_ranges =
      range 0x10000 0x18000
      ∷ range 0xB000 0xC000
      ∷ range 0x9000 0xA000
      ∷ range 0xA000 0xB000
      ∷ range 0x8000 0x9000
      ∷ range 0x80000 0x81000
      ∷ [];
  reclaimed_frames = replicate 260 none;
  reclaimed_count = 0;
}

starts : new boot_info memory_map 0xB000 limit ≡ ok at_boot
unfolding new new_with reserved_ranges all_ranges page_covering_range covered validate_memory_map
    are_valid_below is_valid_region region is_within avoids_below avoids read_descriptor decode load
    overlaps are_unreserved_below is_unreserved any_overlaps
starts = refl

abbrev first_world : World
first_world = record { allocator = at_boot; owned = [] }

-- After one frame is handed out.
abbrev second_world : World
second_world =
    let (found, b) = next_usable_frame at_boot in record { allocator = b; owned = gained found [] }

new-frames_example :
    ((f : ℕ) → holders second_world.allocator second_world.owned f ≤ 1)
    × ((f : ℕ)
        → 0 < holders second_world.allocator second_world.owned f
        → is_allocatable_frame second_world.allocator f ≡ true)
    × (second_world.allocator.reclaimed_count ≤ 260)
new-frames_example =
    new-frames boot_info memory_map 0xB000 limit at_boot second_world starts
      (next here (allocates refl))

-- After a second one, no page is left.
abbrev third_world : World
third_world =
    let (found, b) = next_usable_frame second_world.allocator in
    record { allocator = b; owned = gained found second_world.owned }

used_up : (next_usable_frame third_world.allocator).0 ≡ none
unfolding next_usable_frame usable_from usable_in usable_page is_passed any_contains contains
    read_descriptor decode load advance_to
used_up = refl

none-used_example :
    (third_world.allocator.reclaimed_count ≡ 0)
    × ((j q : ℕ) (d : EfiMemoryDescriptor)
        → descriptor_at third_world.allocator j ≡ some d
        → j < third_world.allocator.descriptor_count
        → d.memory_type ≡ 7
        → q < d.number_of_pages
        → IsUnusable third_world.allocator (d.physical_start + q * 4096)
          ⊎ (number (λ f. f == d.physical_start + q * 4096) third_world.owned ≡ 1))
none-used_example =
    none-used boot_info memory_map 0xB000 limit at_boot third_world starts
      (next (next here (allocates refl)) (allocates refl)) used_up

-- All conventional pages are reserved.
abbrev all_taken : FrameAllocator
all_taken = record at_boot { reserved_ranges = range 0x2000 0x4000 ∷ [] }

none_left : (next_usable_frame all_taken).0 ≡ none
unfolding next_usable_frame usable_from usable_in usable_page is_passed any_contains contains
    read_descriptor decode load advance_to
none_left = refl

all_taken-IsFilled : IsFilled all_taken
all_taken-IsFilled =
    (length-replicate {A = Option ℕ} 260 none, omega arith, λ i h. absurd (omega arith))

next-exhausted_example :
    (all_taken.reclaimed_count ≡ 0)
    × ((j q : ℕ) (d : EfiMemoryDescriptor)
        → all_taken.descriptor_index ≤ j
        → j < all_taken.descriptor_count
        → (j ≡ all_taken.descriptor_index → all_taken.page_index ≤ q)
        → descriptor_at all_taken j ≡ some d
        → d.memory_type ≡ 7
        → q < d.number_of_pages
        → IsUnusable all_taken (d.physical_start + q * 4096))
next-exhausted_example = next-exhausted all_taken all_taken-IsFilled none_left
