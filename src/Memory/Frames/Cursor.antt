-- ===== src/Memory/Frames/Cursor.antt =====
-- What the search of the frame allocator of memory/mod.rs finds.
use mathlib.Core.Option.{some-injective}
use leaf_os_alpha.Base.{
  ℕ, zero, suc, ◌+◌, ◌-◌, ◌*◌, ◌≡◌, ◌≤◌, ◌<◌, refl, subst, ap, true, false, Option, none, some,
  arith, ◌==◌, Bool-cases, Option-cases, inl, inr,
}
use leaf_os_alpha.Memory.Map.{EfiMemoryDescriptor}
use leaf_os_alpha.Memory.Frames.{
  FrameAllocator, descriptor_at, is_passed, usable_page, usable_in, usable_from,
}

usable_page_lem :
    (a : FrameAllocator) (d : EfiMemoryDescriptor) (n page q : ℕ)
    → usable_page a d n page ≡ some q
    → (page ≤ q) × (q < page + n) × (is_passed a (d.physical_start + q * 4096) ≡ false)
unfolding usable_page
usable_page_lem a d zero page q e = cc
usable_page_lem a d (suc n) page q e =
    elim (Bool-cases (is_passed a (d.physical_start + page * 4096))) [
      | inl t ↦
          let (lo, hi, free) = usable_page_lem a d n (page + 1) q (rw t at e) in
          (omega arith, omega arith, free)
      | inr t ↦
          let here : page ≡ q = ground arith in
          (
            omega arith,
            omega arith,
            subst (λ x. is_passed a (d.physical_start + x * 4096) ≡ false) here t,
          )
    ]

-- The page `q` of a conventional region is one that the loop takes.
pub record IsUsable (a : FrameAllocator) (d : EfiMemoryDescriptor) (q : ℕ) : Type 0 where
  pub conventional : (d.memory_type == 7) ≡ true
  pub inside : q < d.number_of_pages
  pub free : is_passed a (d.physical_start + q * 4096) ≡ false

usable_in_lem :
    (a : FrameAllocator) (o : Option EfiMemoryDescriptor) (page q : ℕ)
    → usable_in a o page ≡ some q
    → (d : EfiMemoryDescriptor) × (o ≡ some d) × IsUsable a d q × (page ≤ q)
unfolding usable_in
usable_in_lem a none page q e = cc
usable_in_lem a (some d) page q e = elim (Bool-cases (d.memory_type == 7)) [
  | inl t ↦
      let (lo, hi, free) = usable_page_lem a d (d.number_of_pages - page) page q (rw t at e) in
      (d, refl, record { conventional = t; inside = omega arith; free = free }, lo)
  | inr t ↦ let x = rw t at e in cc
]

-- The search from a cursor finds a page there or further on.
pub usable_from_lem :
    (a : FrameAllocator) (n index page j q : ℕ)
    → usable_from a n index page ≡ some (j, q)
    → (index ≤ j)
      × (j < index + n)
      × (j ≡ index → page ≤ q)
      × ((d : EfiMemoryDescriptor) × (descriptor_at a j ≡ some d) × IsUsable a d q)
unfolding usable_from
usable_from_lem a zero index page j q e = cc
usable_from_lem a (suc n) index page j q e =
    elim (Option-cases (usable_in a (descriptor_at a index) page)) [
      | inl t ↦
          let (lo, hi, _, found) =
            usable_from_lem a n (index + 1) 0 j q (rw (t, usable_from) at e) in
          (omega arith, omega arith, λ h. absurd (omega arith), found)
      | inr (p, t) ↦
          let pair = some-injective _ _ (rw (t, usable_from) at e) in
          let i : index ≡ j = ap (λ x. x.0) pair in
          let k : p ≡ q = ap (λ x. x.1) pair in
          let (d, at, u, l) = usable_in_lem a (descriptor_at a index) page p t in
          (
            omega arith,
            omega arith,
            λ h. omega arith,
            (d, subst (λ x. descriptor_at a x ≡ some d) i at, subst (IsUsable a d) k u),
          )
    ]
