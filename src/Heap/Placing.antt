-- ===== src/Heap/Placing.antt =====
-- Where memory/heap.rs puts the growth of the heap.
use leaf_os_alpha.Base.{ℕ, ◌+◌, ◌-◌, ◌*◌, ◌/◌, ◌%◌, ◌^◌, ◌≡◌, ◌≤◌, ◌<◌, Option, some, arith}
use leaf_os_alpha.Heap.{available_pages_in_slot, checked_growth_start}

module _ (try_new : ℕ → Option ℕ) (lower_half : (a : ℕ) → a < 2 ^ 47 → try_new a ≡ some a) where
  -- Growth by what the slot has left never fails: it is placed right behind the pages mapped so far,
  -- and ends inside the slot.
  pub available-growth :
      (start mapped pages available : ℕ)
      → available_pages_in_slot start mapped ≡ some available
      → 0 < pages
      → pages ≤ available
      → (checked_growth_start try_new start mapped pages ≡ some (start + mapped * 4096))
        × (start + mapped * 4096 + pages * 4096 ≤ (start / 2 ^ 39 + 1) * 2 ^ 39)
  unfolding available_pages_in_slot checked_growth_start
  available-growth start mapped pages available e h k = (
    ground (
      arith,
      lower_half (start + (mapped + pages) * 4096 - 1),
      lower_half (start + mapped * 4096),
    ),
    ground arith,
  )

  -- What `checked_growth_start` returns is the page behind the mapped ones, in a heap that starts at a
  -- lower-half PML4 slot other than the first, and all of the growth lies in that slot.
  pub growth_start-inside :
      (start mapped pages address : ℕ)
      → checked_growth_start try_new start mapped pages ≡ some address
      → (0 < pages)
        × (start % 2 ^ 39 ≡ 0)
        × (0 < start)
        × (start < 2 ^ 47)
        × (address ≡ start + mapped * 4096)
        × (address + pages * 4096 ≤ start + 2 ^ 39)
  unfolding checked_growth_start
  growth_start-inside start mapped pages address e =
      ground (
        arith,
        lower_half (start + (mapped + pages) * 4096 - 1),
        lower_half (start + mapped * 4096),
      )
