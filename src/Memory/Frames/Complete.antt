-- ===== src/Memory/Frames/Complete.antt =====
-- The frame allocator of memory/mod.rs loses no frame.
use leaf_os_alpha.Base.{
  ℕ, ◌+◌, ◌-◌, ◌*◌, ◌≡◌, ◌≤◌, ◌<◌, ◌⊎◌, refl, sym, subst, ap, ◌∙◌, true, false, Option, none, some,
  List, ◌∷◌, ◌++◌, arith, ◌==◌, ◌||◌, ◌&&◌, ltb, Bool-cases, inl, inr,
}
use leaf_os_alpha.Memory.Map.{EfiMemoryDescriptor}
use leaf_os_alpha.Memory.Frames.{
  FrameAllocator, descriptor_at, is_passed, usable_from, start_of, advance_to, next_usable_frame,
  is_allocatable_frame, reclaim_frame, deallocate_frame,
}
use leaf_os_alpha.Memory.Frames.First.{usable_from-first}
use leaf_os_alpha.Memory.Frames.Safety.{holders, gained, holders-pop}
use leaf_os_alpha.Memory.Frames.History.{
  World, Step, Reach, here, next, allocates, deallocates, kept, holders-push,
}
use leaf_os_alpha.Memory.Frames.Filled.{IsFilled, next-IsFilled, deallocate-IsFilled}

-- Each page that may be handed out and that the cursor has passed is in use or in the cache.
abbrev pub IsComplete : FrameAllocator → List ℕ → Type 0
IsComplete a owned =
    (j q : ℕ) (d : EfiMemoryDescriptor)
    → descriptor_at a j ≡ some d
    → j < a.descriptor_count
    → d.memory_type ≡ 7
    → q < d.number_of_pages
    → is_passed a (d.physical_start + q * 4096) ≡ false
    → (j < a.descriptor_index) ⊎ ((j ≡ a.descriptor_index) × (q < a.page_index))
    → 0 < holders a owned (d.physical_start + q * 4096)

some_pair : (x y : ℕ × ℕ) → some x ≡ some y → (x.0 ≡ y.0) × (x.1 ≡ y.1)
some_pair x y e =
    let same : x ≡ y = cc in (ap (λ (z : ℕ × ℕ). z.0) same, ap (λ (z : ℕ × ℕ). z.1) same)

-- The page that is handed out is the first one from the cursor on.
found-IsComplete :
    (a : FrameAllocator) (owned : List ℕ) (k p : ℕ)
    → usable_from a (a.descriptor_count - a.descriptor_index) a.descriptor_index a.page_index
      ≡ some (k, p)
    → IsComplete a owned
    → IsComplete
        (record a { descriptor_index = k; page_index = p + 1 })
        ((start_of (descriptor_at a k) + p * 4096) ∷ owned)
unfolding is_passed
found-IsComplete a owned k p found c j q d at l conventional i free before =
    elim (Bool-cases (ltb j a.descriptor_index)) [
      | inl u ↦ held (inl (ground arith))
      | inr u ↦ elim (Bool-cases (j == a.descriptor_index)) [
        | inl v ↦ elim (Bool-cases (ltb q a.page_index)) [
          | inl w ↦ held (inr (ground arith, ground arith))
          | inr w ↦ first (ground arith) (λ e. ground arith)
        ]
        | inr v ↦ first (ground arith) (λ e. ground arith)
      ]
    ]
  where
    held :
        (j < a.descriptor_index) ⊎ ((j ≡ a.descriptor_index) × (q < a.page_index))
        → 0
          < holders a
              ((start_of (descriptor_at a k) + p * 4096) ∷ owned)
              (d.physical_start + q * 4096)
    held b = let h = c j q d at l conventional i free b in omega arith

    first :
        a.descriptor_index ≤ j
        → (j ≡ a.descriptor_index → a.page_index ≤ q)
        → 0
          < holders a
              ((start_of (descriptor_at a k) + p * 4096) ∷ owned)
              (d.physical_start + q * 4096)
    first h r =
        let (m, n, other, no_later) =
          usable_from-first a (a.descriptor_count - a.descriptor_index) a.descriptor_index
            a.page_index j q d at conventional i free h (omega arith) r in
        let (same_k, same_p) = some_pair (k, p) (m, n) (sym found ∙ other) in
        let here_k : k ≡ j = ground arith in
        let here_p : p ≡ q = ground arith in
        let address : start_of (descriptor_at a k) + p * 4096 ≡ d.physical_start + q * 4096 =
          ap (λ x. start_of (descriptor_at a x) + p * 4096) here_k
          ∙ ap (λ o. start_of o + p * 4096) at
          ∙ ap (λ x. d.physical_start + x * 4096) here_p in
        let hit : (start_of (descriptor_at a k) + p * 4096 == d.physical_start + q * 4096) ≡ true =
          ground arith in
        rw hit (omega arith)

-- The cursor goes to the end, and no page is left behind.
rest-IsComplete :
    (a : FrameAllocator) (owned : List ℕ)
    → usable_from a (a.descriptor_count - a.descriptor_index) a.descriptor_index a.page_index ≡ none
    → IsComplete a owned
    → IsComplete (record a { descriptor_index = a.descriptor_count; page_index = 0 }) owned
unfolding is_passed
rest-IsComplete a owned found c j q d at l conventional i free before =
    elim (Bool-cases
      (ltb j a.descriptor_index || ((j == a.descriptor_index) && ltb q a.page_index))) [
        | inl u ↦ c j q d at l conventional i free (ground arith)
        | inr u ↦
            let (m, n, other, _) =
              usable_from-first a (a.descriptor_count - a.descriptor_index) a.descriptor_index
                a.page_index j q d at conventional i free (ground arith) (ground arith)
                (λ e. ground arith) in
            let x = sym found ∙ other in cc
      ]

advance_to-IsComplete :
    (a : FrameAllocator) (owned : List ℕ) (o : Option (ℕ × ℕ))
    → usable_from a (a.descriptor_count - a.descriptor_index) a.descriptor_index a.page_index ≡ o
    → IsComplete a owned
    → IsComplete (advance_to a o).1 (gained (advance_to a o).0 owned)
unfolding advance_to
advance_to-IsComplete a owned (some (k, p)) e c = found-IsComplete a owned k p e c
advance_to-IsComplete a owned none e c =
    elim (Bool-cases (ltb a.descriptor_index a.descriptor_count)) [
      | inl t ↦ rw t (rest-IsComplete a owned e c)
      | inr t ↦ rw t c
    ]

next-IsComplete :
    (a : FrameAllocator) (owned : List ℕ)
    → IsFilled a
    → IsComplete a owned
    → IsComplete (next_usable_frame a).1 (gained (next_usable_frame a).0 owned)
unfolding next_usable_frame is_passed
next-IsComplete a owned (size, room, filled) c = elim (Bool-cases (a.reclaimed_count == 0)) [
  | inl t ↦ rw t (advance_to-IsComplete a owned _ refl c)
  | inr t ↦ rw t (λ j q d at l conventional i free before.
      let same =
        holders-pop a owned (a.reclaimed_count - 1) (ground arith) size room
          (d.physical_start + q * 4096) in
      let h = c j q d at l conventional i free before in omega (arith, same))
]

deallocate-IsComplete :
    (a : FrameAllocator) (before after : List ℕ) (f : ℕ)
    → IsFilled a
    → IsComplete a (before ++ (f ∷ after))
    → IsComplete (deallocate_frame a f).1 (kept (deallocate_frame a f).0 before f after)
unfolding deallocate_frame reclaim_frame is_passed
deallocate-IsComplete a before after f (size, room, filled) c =
    elim (Bool-cases (is_allocatable_frame a f)) [
      | inr t ↦ rw t c
      | inl t ↦ elim (Bool-cases (ltb a.reclaimed_count 260)) [
        | inr u ↦ rw (t, u) c
        | inl u ↦
            rw (t, u)
              (λ j q d at l conventional i free passed.
                let same =
                  holders-push a before after f (ground arith) size (d.physical_start + q * 4096) in
                let h = c j q d at l conventional i free passed in omega (arith, same))
      ]
    ]

-- With the cache filled.
abbrev pub IsKept : World → Type 0
IsKept w = IsFilled w.allocator × IsComplete w.allocator w.owned

Step-IsKept : {v w : World} → Step v w → IsKept v → IsKept w
Step-IsKept {v} (allocates e) (f, c) =
    subst IsKept (sym e) (next-IsFilled v.allocator f, next-IsComplete v.allocator v.owned f c)
Step-IsKept {v} (deallocates frame before after u e) (f, c) = subst IsKept (sym e) (
  deallocate-IsFilled v.allocator frame f,
  deallocate-IsComplete v.allocator before after frame f (subst (IsComplete v.allocator) u c),
)

pub Reach-IsKept : {v w : World} → Reach v w → IsKept v → IsKept w
Reach-IsKept here k = k
Reach-IsKept (next r t) k = Step-IsKept t (Reach-IsKept r k)
