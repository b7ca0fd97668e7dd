-- ===== src/Memory/Frames/Exhausted.antt =====
-- When the frame allocator of memory/mod.rs has no frame to give.
use leaf_os_alpha.Base.{
  ℕ, ◌+◌, ◌-◌, ◌*◌, ◌%◌, ◌≡◌, ◌≢◌, ◌⊎◌, ◌≤◌, ◌<◌, refl, List, [], ◌∷◌, ◌++◌, false, leb, is_some,
  slot, sym, ap, ◌∙◌, true, none, some, arith, ◌==◌, Bool-cases, Option-cases, inl, inr,
}
use leaf_os_alpha.Memory.Map.{EfiMemoryDescriptor, PhysicalRange, contains}
use leaf_os_alpha.Memory.Frames.{
  FrameAllocator, descriptor_at, is_passed, any_contains, usable_from, advance_to,
  next_usable_frame,
}
use leaf_os_alpha.Memory.Frames.First.{usable_from-first}
use leaf_os_alpha.Memory.Frames.Filled.{IsFilled}

-- A page that the allocator must not hand out: beyond the limit, in a reserved range, or not aligned.
abbrev pub IsUnusable : FrameAllocator → ℕ → Type 0
IsUnusable a address =
    (a.physical_limit ≤ address)
    ⊎ ((r : PhysicalRange) × (before after : List PhysicalRange) × (a.reserved_ranges
          ≡ before ++ (r ∷ after))
        × (r.start ≤ address)
        × (address < r.end))
    ⊎ (address % 4096 ≢ 0)

any_contains-split :
    (rs : List PhysicalRange) (address : ℕ)
    → any_contains rs address ≡ true
    → (r : PhysicalRange) × (before after : List PhysicalRange) × (rs ≡ before ++ (r ∷ after))
      × (r.start ≤ address)
      × (address < r.end)
unfolding any_contains contains
any_contains-split [] address h = cc
any_contains-split (r ∷ rs) address h = elim (Bool-cases (contains r address)) [
  | inl e ↦ (r, [], rs, refl, ground arith, ground arith)
  | inr e ↦
      let (x, before, after, same, lo, hi) = any_contains-split rs address (rw e at h) in
      (x, r ∷ before, after, ap (λ l. r ∷ l) same, lo, hi)
]

pub passed-IsUnusable :
    (a : FrameAllocator) (address : ℕ) → is_passed a address ≡ true → IsUnusable a address
unfolding is_passed
passed-IsUnusable a address h = elim (Bool-cases (leb a.physical_limit address)) [
  | inl e ↦ inl (ground arith)
  | inr e ↦ elim (Bool-cases (any_contains a.reserved_ranges address)) [
    | inl u ↦ inr (inl (any_contains-split a.reserved_ranges address u))
    | inr u ↦ inr (inr (let x = rw (e, u) at h in ground arith))
  ]
]

-- Nothing is found, and nothing waits in the cache.
pub nothing_left :
    (a : FrameAllocator)
    → IsFilled a
    → (next_usable_frame a).0 ≡ none
    → (a.reclaimed_count ≡ 0)
      × (usable_from a (a.descriptor_count - a.descriptor_index) a.descriptor_index a.page_index
          ≡ none)
unfolding next_usable_frame advance_to
nothing_left a (size, room, filled) e = elim (Bool-cases (a.reclaimed_count == 0)) [
  | inr z ↦
      let n = a.reclaimed_count - 1 in
      let x : slot a.reclaimed_frames n ≡ none = rw z at e in
      let y : is_some (slot a.reclaimed_frames n) ≡ true = filled n (ground arith) in
      let t : false ≡ true = sym (ap is_some x) ∙ y in cc
  | inl z ↦
      elim (Option-cases
        (usable_from a (a.descriptor_count - a.descriptor_index) a.descriptor_index a.page_index)) [
          | inl t ↦ (ground arith, t)
          | inr (r, t) ↦ let x = rw (z, t, advance_to) at e in cc
        ]
]

-- Let each slot of the cache below its count hold a frame. The allocator
-- reports that there is no frame only if none waits in the cache and each page of a conventional region
-- from the cursor on is beyond the limit of addresses, in a reserved range or not aligned.
pub next-exhausted :
    (a : FrameAllocator)
    → IsFilled a
    → (next_usable_frame a).0 ≡ none
    → (a.reclaimed_count ≡ 0)
      × ((j q : ℕ) (d : EfiMemoryDescriptor)
          → a.descriptor_index ≤ j
          → j < a.descriptor_count
          → (j ≡ a.descriptor_index → a.page_index ≤ q)
          → descriptor_at a j ≡ some d
          → d.memory_type ≡ 7
          → q < d.number_of_pages
          → IsUnusable a (d.physical_start + q * 4096))
next-exhausted a f e =
    let (z, t) = nothing_left a f e in
    (
      z,
      λ j q d h l p at c i. elim (Bool-cases (is_passed a (d.physical_start + q * 4096))) [
        | inl u ↦ passed-IsUnusable a (d.physical_start + q * 4096) u
        | inr u ↦
            let (k, m, found, _) =
              usable_from-first a _ a.descriptor_index a.page_index j q d at c i u h (omega arith)
                p in
            let x = sym t ∙ found in cc
      ],
    )
