-- ===== src/Memory/Map/Covering.antt =====
-- The page-aligned ranges of memory/mod.rs.
use leaf_os_alpha.Base.{ℕ, ◌+◌, ◌-◌, ◌%◌, ◌≡◌, ◌≤◌, ◌<◌, arith, ok, word}
use leaf_os_alpha.Memory.Map.{PhysicalRange, page_covering_range, covered}

-- The range for a boot object that is not empty holds all of it, consists of whole pages with less
-- than a page to spare on either side, and lies below the limit of physical addresses.
pub covering_range_lem :
    (address size limit : ℕ) (r : PhysicalRange)
    → 0 < size
    → page_covering_range address size limit ≡ ok r
    → (r.start % 4096 ≡ 0)
      × (r.end % 4096 ≡ 0)
      × (r.start ≤ address)
      × (address < r.start + 4096)
      × (address + size ≤ r.end)
      × (r.end < address + size + 4096)
      × (r.end ≤ limit)
unfolding page_covering_range covered
covering_range_lem address size limit r h e = ground arith

-- Such an object has a range if its pages lie below a limit that is a multiple of the page size and
-- fits in a word.
pub covering_range-total :
    (address size limit : ℕ)
    → 0 < size
    → address + size ≤ limit
    → limit % 4096 ≡ 0
    → limit < word
    → (r : PhysicalRange) × (page_covering_range address size limit ≡ ok r)
unfolding page_covering_range covered
covering_range-total address size limit h b a w = (
  record {
    start = address - address % 4096;
    end = (address + size + 4095) - (address + size + 4095) % 4096;
  },
  ground arith,
)
