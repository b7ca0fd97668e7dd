-- ===== src/Heap/Tests.antt =====
-- Growth sizes and places of memory/heap.rs.
use leaf_os_alpha.Base.{
  ℕ, ◌+◌, ◌-◌, ◌*◌, ◌/◌, ◌%◌, ◌^◌, ◌≡◌, ◌≤◌, ◌<◌, ◌↔◌, refl, Option, none, some, arith,
  if◌then◌else◌, ltb, max,
}
use leaf_os_alpha.Heap.{
  Layout, growth_pages_for_layout, required_frames_for_growth, growth_chunk_pages,
  available_pages_in_slot, checked_growth_start,
}
use leaf_os_alpha.Heap.Sizing.{
  growth_pages_lem, mapping_frames, required_frames-mapping, required_frames-chunks,
  growth_chunk_lem,
}
use leaf_os_alpha.Heap.Placing.{available-growth, growth_start-inside}

-- 10,000 bytes at a page boundary.
abbrev buffer : Layout
buffer = record { size = 10000; align = 4096 }

growth_pages_lem_example :
    (low : ℕ) × (high : ℕ) × (growth_pages_for_layout buffer ≡ some (low, high))
    × (max buffer.size 16 ≤ low * 4096)
    × (low * 4096 < max buffer.size 16 + 4096)
    × (max buffer.size 16 + buffer.align - 1 ≤ high * 4096)
    × (high * 4096 < max buffer.size 16 + buffer.align - 1 + 4096)
    × (low ≤ high)
growth_pages_lem_example = growth_pages_lem buffer (omega arith) (omega arith)

required_frames-mapping_example : required_frames_for_growth 0 256 ≡ some (mapping_frames 0 256)
required_frames-mapping_example = required_frames-mapping 0 256 (omega arith) (omega arith)

required_frames-chunks_example :
    (a b : ℕ) × (required_frames_for_growth 0 256 ≡ some a)
    × (required_frames_for_growth (0 + 256) 300 ≡ some b)
    × (required_frames_for_growth 0 (256 + 300) ≡ some (a + b))
required_frames-chunks_example =
    required_frames-chunks 0 256 300 (omega arith) (omega arith) (omega arith)

growth_chunk_lem_example :
    let n = growth_chunk_pages 300 256 1000 in
    (n ≤ 256)
    × (n ≤ 1000)
    × ((n ≡ 0) ↔ (◌≡◌ {A = ℕ} 1000 0))
    × (256 < 300 → 256 + n ≤ 300)
    × (256 < 300 → 300 - 256 ≤ 256 → 300 - 256 ≤ 1000 → 256 + n ≡ 300)
growth_chunk_lem_example = growth_chunk_lem 300 256 1000

-- The lower half of the canonical addresses.
abbrev lower_only : ℕ → Option ℕ
lower_only a = if ltb a (2 ^ 47) then some a else none

lower_only_accepts : (a : ℕ) → a < 2 ^ 47 → lower_only a ≡ some a
lower_only_accepts a h = ground arith

-- The heap starts at the third slot and has one page mapped.
mapped_one : available_pages_in_slot (2 ^ 40) 1 ≡ some (2 ^ 27 - 1)
unfolding available_pages_in_slot
mapped_one = refl

available-growth_example :
    (checked_growth_start lower_only (2 ^ 40) 1 256 ≡ some (2 ^ 40 + 1 * 4096))
    × (2 ^ 40 + 1 * 4096 + 256 * 4096 ≤ (2 ^ 40 / 2 ^ 39 + 1) * 2 ^ 39)
available-growth_example =
    available-growth lower_only lower_only_accepts (2 ^ 40) 1 256 (2 ^ 27 - 1) mapped_one
      (omega arith) (omega arith)

growth_start-inside_example :
    (0 < 256)
    × (2 ^ 40 % 2 ^ 39 ≡ 0)
    × (0 < 2 ^ 40)
    × (2 ^ 40 < 2 ^ 47)
    × (2 ^ 40 + 4096 ≡ 2 ^ 40 + 1 * 4096)
    × (2 ^ 40 + 4096 + 256 * 4096 ≤ 2 ^ 40 + 2 ^ 39)
growth_start-inside_example =
    growth_start-inside lower_only lower_only_accepts (2 ^ 40) 1 256 (2 ^ 40 + 4096)
      available-growth_example.0
