-- ===== src/Memory/Frames/First.antt =====
-- The loop of `next_usable_frame` (memory/mod.rs) stops no later than at the first page that it may take.
use leaf_os_alpha.Base.{
  ℕ, zero, suc, ◌+◌, ◌-◌, ◌*◌, ◌≡◌, ◌≤◌, ◌<◌, ◌⊎◌, refl, sym, ap, ◌∙◌, true, false, some, arith,
  ◌==◌, Bool-cases, Option-cases, inl, inr,
}
use leaf_os_alpha.Memory.Map.{EfiMemoryDescriptor}
use leaf_os_alpha.Memory.Frames.{
  FrameAllocator, descriptor_at, is_passed, usable_page, usable_in, usable_from,
}

usable_page-first :
    (a : FrameAllocator) (d : EfiMemoryDescriptor) (n page q : ℕ)
    → is_passed a (d.physical_start + q * 4096) ≡ false
    → page ≤ q
    → q < page + n
    → (p : ℕ) × (usable_page a d n page ≡ some p) × (p ≤ q)
unfolding usable_page
usable_page-first a d zero page q free h l = absurd (omega arith)
usable_page-first a d (suc n) page q free h l =
    elim (Bool-cases (is_passed a (d.physical_start + page * 4096))) [
      | inr t ↦ rw t (page, refl, h)
      | inl t ↦ elim (Bool-cases (page == q)) [
        | inl u ↦
            let same : page ≡ q = ground arith in
            let x = ap (λ m. is_passed a (d.physical_start + m * 4096)) same in
            let y : true ≡ false = sym t ∙ x ∙ free in cc
        | inr u ↦ rw t (usable_page-first a d n (page + 1) q free (ground arith) (omega arith))
      ]
    ]

usable_in-first :
    (a : FrameAllocator) (d : EfiMemoryDescriptor) (page q : ℕ)
    → d.memory_type ≡ 7
    → q < d.number_of_pages
    → is_passed a (d.physical_start + q * 4096) ≡ false
    → page ≤ q
    → (p : ℕ) × (usable_in a (some d) page ≡ some p) × (p ≤ q)
unfolding usable_in
usable_in-first a d page q c l free h =
    let t : (d.memory_type == 7) ≡ true = ground arith in
    rw t (usable_page-first a d (d.number_of_pages - page) page q free h (omega arith))

-- A page that may be taken, at or behind the cursor: what the loop takes is that page or one before it.
pub usable_from-first :
    (a : FrameAllocator) (n index page j q : ℕ) (d : EfiMemoryDescriptor)
    → descriptor_at a j ≡ some d
    → d.memory_type ≡ 7
    → q < d.number_of_pages
    → is_passed a (d.physical_start + q * 4096) ≡ false
    → index ≤ j
    → j < index + n
    → (j ≡ index → page ≤ q)
    → (k p : ℕ) × (usable_from a n index page ≡ some (k, p)) × ((k < j) ⊎ ((k ≡ j) × (p ≤ q)))
unfolding usable_from
usable_from-first a zero index page j q d at c i free h l r = absurd (omega arith)
usable_from-first a (suc n) index page j q d at c i free h l r = elim (Bool-cases (index == j)) [
  | inl u ↦
      let same : index ≡ j = ground arith in
      let (p, t, lo) = usable_in-first a d page q c i free (r (sym same)) in
      let here : usable_in a (descriptor_at a index) page ≡ some p =
        ap (λ o. usable_in a o page) (ap (descriptor_at a) same ∙ at) ∙ t in
      rw (here, usable_from) (index, p, refl, inr (same, lo))
  | inr u ↦ elim (Option-cases (usable_in a (descriptor_at a index) page)) [
    | inl t ↦
        rw (t, usable_from)
          (usable_from-first a n (index + 1) 0 j q d at c i free (ground arith) (omega arith)
            (λ e. omega arith))
    | inr (p, t) ↦ rw (t, usable_from) (index, p, refl, inl (ground arith))
  ]
]
