-- ===== src/Memory/Frames/Filled.antt =====
-- The cache of the frame allocator of memory/mod.rs holds a frame in each slot that it counts.
use leaf_os_alpha.Base.{
  ℕ, ◌-◌, ◌≡◌, ◌≤◌, ◌<◌, ap, ◌∙◌, true, Option, none, some, arith, if◌then◌else◌, ◌==◌, ltb,
  is_some, slot, fill, slot-fill, length, length-modify, Bool-cases, inl, inr,
}
use leaf_os_alpha.Memory.Frames.{
  FrameAllocator, advance_to, next_usable_frame, reclaim_frame, is_allocatable_frame,
  deallocate_frame,
}

-- The cache has its size, and each slot below the count holds a frame.
abbrev pub IsFilled : FrameAllocator → Type 0
IsFilled a =
    (length a.reclaimed_frames ≡ 260)
    × (a.reclaimed_count ≤ 260)
    × ((i : ℕ) → i < a.reclaimed_count → is_some (slot a.reclaimed_frames i) ≡ true)

advance_to-IsFilled :
    (a : FrameAllocator) (o : Option (ℕ × ℕ)) → IsFilled a → IsFilled (advance_to a o).1
unfolding advance_to
advance_to-IsFilled a (some (j, q)) f = f
advance_to-IsFilled a none f = elim (Bool-cases (ltb a.descriptor_index a.descriptor_count)) [
  | inl t ↦ rw t f
  | inr t ↦ rw t f
]

pub next-IsFilled : (a : FrameAllocator) → IsFilled a → IsFilled (next_usable_frame a).1
unfolding next_usable_frame
next-IsFilled a (size, room, filled) = elim (Bool-cases (a.reclaimed_count == 0)) [
  | inl t ↦ rw t (advance_to-IsFilled a _ (size, room, filled))
  | inr t ↦
      let n = a.reclaimed_count - 1 in
      rw t (
        length-modify (λ _. none) n a.reclaimed_frames ∙ size,
        omega arith,
        λ i h.
            let same : slot (fill n none a.reclaimed_frames) i ≡ slot a.reclaimed_frames i =
              ground (arith, slot-fill n i none a.reclaimed_frames (omega arith)) in
            ap is_some same ∙ filled i (omega arith),
      )
]

pub deallocate-IsFilled :
    (a : FrameAllocator) (f : ℕ) → IsFilled a → IsFilled (deallocate_frame a f).1
unfolding deallocate_frame reclaim_frame
deallocate-IsFilled a f (size, room, filled) = elim (Bool-cases (is_allocatable_frame a f)) [
  | inr t ↦ rw t (size, room, filled)
  | inl t ↦ elim (Bool-cases (ltb a.reclaimed_count 260)) [
    | inr u ↦ rw (t, u) (size, room, filled)
    | inl u ↦
        let n = a.reclaimed_count in
        rw (t, u)
          (
            length-modify (λ _. some f) n a.reclaimed_frames ∙ size,
            ground arith,
            λ i h. elim (Bool-cases (n == i)) [
              | inl e ↦ ap is_some (
                  slot-fill n i (some f) a.reclaimed_frames (ground arith)
                  ∙ ap (λ b. if b then some f else slot a.reclaimed_frames i) e)
              | inr e ↦
                  ap is_some (
                    slot-fill n i (some f) a.reclaimed_frames (ground arith)
                    ∙ ap (λ b. if b then some f else slot a.reclaimed_frames i) e)
                  ∙ filled i (ground arith)
            ],
          )
  ]
]
