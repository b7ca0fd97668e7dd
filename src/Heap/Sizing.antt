-- ===== src/Heap/Sizing.antt =====
-- The sizes that memory/heap.rs asks for.
use leaf_os_alpha.Base.{
  ℕ, zero, suc, ◌+◌, ◌-◌, ◌*◌, ◌/◌, ◌%◌, ◌^◌, ◌≡◌, ◌≤◌, ◌<◌, ◌↔◌, ap, ◌∙◌, some, arith,
  if◌then◌else◌, ◌==◌, max, word,
}
use leaf_os_alpha.Heap.{
  Layout, growth_pages_for_layout, ceil_div, added_table_pages, required_frames_for_growth,
  growth_chunk_pages,
}

-- The sizing of a request succeeds if the request with its slack fits in a word with room to round.
-- The minimum is the least number of pages that hold it, and the target the least that hold it
-- wherever the alignment puts it.
pub growth_pages_lem :
    (layout : Layout)
    → 0 < layout.align
    → max layout.size 16 + layout.align + 4094 < word
    → (low : ℕ) × (high : ℕ) × (growth_pages_for_layout layout ≡ some (low, high))
      × (max layout.size 16 ≤ low * 4096)
      × (low * 4096 < max layout.size 16 + 4096)
      × (max layout.size 16 + layout.align - 1 ≤ high * 4096)
      × (high * 4096 < max layout.size 16 + layout.align - 1 + 4096)
      × (low ≤ high)
unfolding growth_pages_for_layout
growth_pages_lem layout h w = (
  (max layout.size 16 + 4095) / 4096,
  (max layout.size 16 + (layout.align - 1) + 4095) / 4096,
  ground arith,
  omega arith,
  omega arith,
  omega arith,
  omega arith,
  omega arith,
)

-- ⌈a / d⌉
abbrev ceiling : ℕ → ℕ → ℕ
ceiling a d = (a + (d - 1)) / d

-- Frames for `growth` more pages behind `previous` ones: a leaf for each, and the tables that the
-- longer extent needs more.
abbrev frames : ℕ → ℕ → ℕ
frames previous growth =
    growth
    + (ceiling (previous + growth) 512 - ceiling previous 512)
    + (ceiling (previous + growth) (2 ^ 18) - ceiling previous (2 ^ 18))
    + (if previous == 0 then 1 else 0)

required_frames-frames :
    (previous growth : ℕ)
    → 0 < growth
    → previous + growth ≤ 2 ^ 27
    → required_frames_for_growth previous growth ≡ some (frames previous growth)
unfolding required_frames_for_growth added_table_pages ceil_div
required_frames-frames previous growth h w = ground arith

-- The frames that mapping one page takes when the pages before it, from the start of a slot on, are
-- mapped: its own, a page table if it is the first of 512 pages, a page directory if it is the first
-- of 512 times 512, and the table above them if it is the very first.
abbrev page_frames : ℕ → ℕ
page_frames page =
    1
    + (if page % 512 == 0 then 1 else 0)
    + (if page % (512 * 512) == 0 then 1 else 0)
    + (if page == 0 then 1 else 0)

-- The same for `growth` pages from the given one on, one after the other.
abbrev pub mapping_frames : ℕ → ℕ → ℕ
mapping_frames page zero = 0
mapping_frames page (suc growth) = page_frames page + mapping_frames (page + 1) growth

frames-mapping_later :
    (growth page : ℕ) → 0 < page → frames page growth ≡ mapping_frames page growth
frames-mapping_later zero page h = ground arith
frames-mapping_later (suc growth) page h =
    ground (arith, frames-mapping_later growth (page + 1) (omega arith))

frames-mapping : (growth page : ℕ) → 0 < growth → frames page growth ≡ mapping_frames page growth
frames-mapping zero page h = absurd (omega arith)
frames-mapping (suc growth) page h =
    ground (arith, frames-mapping_later growth (page + 1) (omega arith))

-- Up to the pages of a PML4 slot, the frames that a growth asks for are just the sum of what its pages
-- take when they are mapped one after the other behind those that the heap has: a frame for each, and
-- each table when its first page is mapped. The sum does not overflow.
pub required_frames-mapping :
    (previous growth : ℕ)
    → 0 < growth
    → previous + growth ≤ 2 ^ 27
    → required_frames_for_growth previous growth ≡ some (mapping_frames previous growth)
required_frames-mapping previous growth h w =
    required_frames-frames previous growth h w ∙ ap some (frames-mapping growth previous h)

-- Growth in chunks needs in all exactly the frames that one growth would need.
pub required_frames-chunks :
    (previous first second : ℕ)
    → 0 < first
    → 0 < second
    → previous + first + second ≤ 2 ^ 27
    → (a b : ℕ) × (required_frames_for_growth previous first ≡ some a)
      × (required_frames_for_growth (previous + first) second ≡ some b)
      × (required_frames_for_growth previous (first + second) ≡ some (a + b))
required_frames-chunks previous first second h k w = (
  frames previous first,
  frames (previous + first) second,
  required_frames-frames previous first h (omega arith),
  required_frames-frames (previous + first) second k (omega arith),
  required_frames-frames previous (first + second) (omega arith) (omega arith) ∙ ap some sums,
)
  where
    sums :
        frames previous (first + second) ≡ frames previous first + frames (previous + first) second
    sums = ground arith

-- A chunk is not empty unless the slot is full, is at most 256 pages and what the slot has left, and
-- reaches a target within that reach without passing it.
pub growth_chunk_lem :
    (target mapped available : ℕ)
    → let n = growth_chunk_pages target mapped available in
      (n ≤ 256)
      × (n ≤ available)
      × ((n ≡ 0) ↔ (available ≡ 0))
      × (mapped < target → mapped + n ≤ target)
      × (mapped < target
          → target - mapped ≤ 256
          → target - mapped ≤ available
          → mapped + n ≡ target)
unfolding growth_chunk_pages
growth_chunk_lem target mapped available = (
  ground arith,
  ground arith,
  (λ e. ground arith, λ e. ground arith),
  λ h. ground arith,
  λ h k l. ground arith,
)
