-- ===== src/Memory/Map/Regions.antt =====
-- What memory/mod.rs has checked of a memory map that it accepts.
use leaf_os_alpha.Base.{
  ℕ, zero, suc, ◌+◌, ◌*◌, ◌/◌, ◌%◌, ◌≡◌, ◌≢◌, ◌≤◌, ◌<◌, ◌⊎◌, inl, inr, refl, subst, true, Option,
  none, some, List, arith, ◌==◌, ltb, length, Bool-cases, Option-cases, ok,
}
use leaf_os_alpha.Memory.Map.{
  PhysicalRange, overlaps, EfiMemoryDescriptor, read_descriptor, region, is_within, avoids,
  avoids_below, is_valid_region, are_valid_below, validate_memory_map,
}

-- The first address behind the descriptor's region.
abbrev pub region_end : EfiMemoryDescriptor → ℕ
region_end d = d.physical_start + d.number_of_pages * 4096

-- Whole pages, at least one, and all below the limit.
abbrev pub IsSound : ℕ → EfiMemoryDescriptor → Type 0
IsSound limit d = (0 < d.number_of_pages) × (d.physical_start % 4096 ≡ 0) × (region_end d ≤ limit)

abbrev pub AreApart : EfiMemoryDescriptor → EfiMemoryDescriptor → Type 0
AreApart d e = (region_end d ≤ e.physical_start) ⊎ (region_end e ≤ d.physical_start)

region_lem :
    (d : EfiMemoryDescriptor) (r : PhysicalRange)
    → region d ≡ some r
    → (r.start ≡ d.physical_start) × (r.end ≡ region_end d)
unfolding region
region_lem d r e = ground arith

module _ (memory_map : List ℕ) (size limit : ℕ) where
  valid-at :
      (n i : ℕ)
      → are_valid_below memory_map size limit n ≡ true
      → i < n
      → is_valid_region memory_map size limit i (read_descriptor memory_map size i) ≡ true
  unfolding are_valid_below
  valid-at zero i h l = ground arith
  valid-at (suc n) i h l = elim (Bool-cases (i == n)) [
    | inl e ↦
        let same : n ≡ i = ground arith in
        subst
          (λ j. is_valid_region memory_map size limit j (read_descriptor memory_map size j) ≡ true)
          same (ground arith)
    | inr e ↦ valid-at n i (ground arith) (ground arith)
  ]

  avoids-at :
      (r : PhysicalRange) (n i : ℕ)
      → avoids_below memory_map size r n ≡ true
      → i < n
      → avoids r (read_descriptor memory_map size i) ≡ true
  unfolding avoids_below
  avoids-at r zero i h l = ground arith
  avoids-at r (suc n) i h l = elim (Bool-cases (i == n)) [
    | inl e ↦
        let same : n ≡ i = ground arith in
        subst (λ j. avoids r (read_descriptor memory_map size j) ≡ true) same (ground arith)
    | inr e ↦ avoids-at r n i (ground arith) (ground arith)
  ]

  region-at :
      (i : ℕ) (d : EfiMemoryDescriptor)
      → is_valid_region memory_map size limit i (some d) ≡ true
      → (r : PhysicalRange) × (region d ≡ some r)
        × (is_within limit d r ≡ true)
        × (avoids_below memory_map size r i ≡ true)
  unfolding is_valid_region
  region-at i d h = elim (Option-cases (region d)) [
    | inl e ↦ let x = rw (e, is_valid_region) at h in cc
    | inr (r, e) ↦ let x = rw (e, is_valid_region) at h in (r, e, ground arith, ground arith)
  ]

  described :
      (i : ℕ) (o : Option EfiMemoryDescriptor)
      → read_descriptor memory_map size i ≡ o
      → is_valid_region memory_map size limit i o ≡ true
      → (d : EfiMemoryDescriptor) × (read_descriptor memory_map size i ≡ some d) × IsSound limit d
  unfolding is_within
  described i none e h = unfold is_valid_region in cc
  described i (some d) e h =
      let (r, f, w, _) = region-at i d h in
      let (s, t) = region_lem d r f in (d, e, (ground arith, ground arith, ground arith))

  apart :
      (r : PhysicalRange) (d e : EfiMemoryDescriptor)
      → region d ≡ some r
      → avoids r (some e) ≡ true
      → AreApart d e
  unfolding avoids overlaps
  apart r d e f h = elim (Option-cases (region e)) [
    | inl g ↦ let x = rw (g, avoids) at h in cc
    | inr (q, g) ↦ let x = rw (g, avoids) at h in ground (arith, region_lem d r f, region_lem e q g)
  ]

  ordered_apart :
      (n i j : ℕ) (d e : EfiMemoryDescriptor)
      → are_valid_below memory_map size limit n ≡ true
      → i < n
      → j < i
      → read_descriptor memory_map size i ≡ some d
      → read_descriptor memory_map size j ≡ some e
      → AreApart d e
  ordered_apart n i j d e h l k f g =
      let (r, q, _, a) =
        region-at i d
          (subst (λ o. is_valid_region memory_map size limit i o ≡ true) f (valid-at n i h l)) in
      apart r d e q (subst (λ o. avoids r o ≡ true) g (avoids-at r i j a k))

-- A memory map that is accepted consists of that many descriptors, with none cut off. Each can be read, and its region
-- is of whole pages, is not empty and lies below the limit. The regions of two are apart.
pub validate-regions :
    (memory_map : List ℕ) (size limit count : ℕ)
    → validate_memory_map memory_map size limit ≡ ok count
    → (count ≡ length memory_map / size)
      × (length memory_map % size ≡ 0)
      × ((i : ℕ)
          → i < count
          → (d : EfiMemoryDescriptor) × (read_descriptor memory_map size i ≡ some d)
            × IsSound limit d)
      × ((i j : ℕ) (d e : EfiMemoryDescriptor)
          → i < count
          → j < count
          → i ≢ j
          → read_descriptor memory_map size i ≡ some d
          → read_descriptor memory_map size j ≡ some e
          → AreApart d e)
unfolding validate_memory_map
validate-regions memory_map size limit count h = (
  ground arith,
  ground arith,
  λ i l.
      described memory_map size limit i (read_descriptor memory_map size i) refl
        (valid-at memory_map size limit count i all l),
  λ i j d e l k q f g. elim (Bool-cases (ltb j i)) [
    | inl t ↦ ordered_apart memory_map size limit count i j d e all l (ground arith) f g
    | inr t ↦ elim (ordered_apart memory_map size limit count j i e d all k (ground arith) g f) [
      | inl a ↦ inr a
      | inr a ↦ inl a
    ]
  ],
)
  where
    all : are_valid_below memory_map size limit count ≡ true
    all = ground arith
