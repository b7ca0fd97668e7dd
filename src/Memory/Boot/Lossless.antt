-- ===== src/Memory/Boot/Lossless.antt =====
-- From boot on, the frame allocator of memory/mod.rs loses no frame.
use leaf_os_alpha.Base.{
  ◌^◌, ℕ, ◌+◌, ◌-◌, ◌*◌, ◌%◌, ◌≡◌, ◌<◌, ◌⊎◌, refl, sym, subst, ap, ◌∙◌, false, none, some, List, [],
  arith, ◌==◌, ◌||◌, ◌&&◌, not, ltb, number, length, Result, ok, err, Bool-cases, inl, inr,
}
use leaf_os_alpha.Memory.Map.{
  MemoryError, PhysicalRange, EfiMemoryDescriptor, efi_descriptor_min_size, validate_memory_map,
}
use leaf_os_alpha.Memory.Frames.{
  FrameAllocator, descriptor_at, is_passed, usable_from, next_usable_frame,
}
use leaf_os_alpha.Memory.Frames.Cache.{copies}
use leaf_os_alpha.Memory.Frames.First.{usable_from-first}
use leaf_os_alpha.Memory.Frames.History.{World, Reach, Reach-IsSound}
use leaf_os_alpha.Memory.Frames.Filled.{IsFilled}
use leaf_os_alpha.Memory.Frames.Complete.{IsComplete, Reach-IsKept}
use leaf_os_alpha.Memory.Frames.Exhausted.{IsUnusable, passed-IsUnusable, nothing_left}
use leaf_os_alpha.Memory.Boot.{BootInfo, new, new_with, reserved_ranges, are_unreserved_below}
use leaf_os_alpha.Memory.Boot.Fresh.{ok_injective, new-IsSafe}

-- The cursor stands at the start, and the cache is empty.
abbrev IsAtStart : FrameAllocator → Type 0
IsAtStart a = (a.descriptor_index ≡ 0) × (a.page_index ≡ 0) × (a.reclaimed_count ≡ 0)

new_with-IsAtStart :
    (bytes : List ℕ) (size limit : ℕ) (o : Result ℕ MemoryError)
    (ranges : Result (List PhysicalRange) MemoryError) (a : FrameAllocator)
    → new_with bytes size limit o ranges ≡ ok a
    → IsAtStart a
unfolding new_with
new_with-IsAtStart bytes size limit (err e) ranges a h = cc
new_with-IsAtStart bytes size limit (ok count) (err e) a h = cc
new_with-IsAtStart bytes size limit (ok count) (ok ranges) a h =
    elim (Bool-cases (are_unreserved_below bytes size ranges count)) [
      | inr t ↦ let x = rw t at h in cc
      | inl t ↦ subst IsAtStart (ok_injective _ _ (rw t at h)) (refl, refl, refl)
    ]

new-IsAtStart :
    (b : BootInfo) (bytes : List ℕ) (address limit : ℕ) (a : FrameAllocator)
    → new b bytes address limit ≡ ok a
    → IsAtStart a
unfolding new
new-IsAtStart b bytes address limit a h =
    elim (Bool-cases ((b.memory_map == 0) || (b.memory_map_size == 0))) [
      | inl t ↦ let x = rw t at h in cc
      | inr t ↦
          elim (Bool-cases (
            ltb b.descriptor_size efi_descriptor_min_size
            || ltb (2 ^ 63 - 1) b.memory_map_size
            || not (b.memory_map_size % b.descriptor_size == 0))) [
              | inl u ↦ let x = rw (t, u) at h in cc
              | inr u ↦
                  new_with-IsAtStart bytes b.descriptor_size limit
                    (validate_memory_map bytes b.descriptor_size limit)
                    (reserved_ranges b address limit) a (rw (t, u) at h)
            ]
    ]

-- Nothing is held at the start, and nothing need be.
start-IsKept :
    (a : FrameAllocator)
    → IsAtStart a
    → length a.reclaimed_frames ≡ 260
    → IsFilled a × IsComplete a []
start-IsKept a (i, p, z) size = (
  (size, omega arith, λ k h. absurd (omega arith)),
  λ j q d at l conventional k free before. absurd (ground arith),
)

-- From boot on, while the users of frames return only frames that they own: when the allocator reports
-- that there is no frame, none waits in the cache, and each page of a conventional region is in use,
-- once, unless it is beyond the limit of addresses, in a reserved range or not aligned. So no frame is
-- lost, however frames were handed out and returned before.
pub none-used :
    (b : BootInfo) (bytes : List ℕ) (address limit : ℕ) (a : FrameAllocator) (w : World)
    → new b bytes address limit ≡ ok a
    → Reach (record { allocator = a; owned = [] }) w
    → (next_usable_frame w.allocator).0 ≡ none
    → (w.allocator.reclaimed_count ≡ 0)
      × ((j q : ℕ) (d : EfiMemoryDescriptor)
          → descriptor_at w.allocator j ≡ some d
          → j < w.allocator.descriptor_count
          → d.memory_type ≡ 7
          → q < d.number_of_pages
          → IsUnusable w.allocator (d.physical_start + q * 4096)
            ⊎ (number (λ f. f == d.physical_start + q * 4096) w.owned ≡ 1))
unfolding copies
none-used b bytes address limit a w h r e =
    let safe = new-IsSafe b bytes address limit a h in
    let sound = Reach-IsSound r safe in
    let (filled, complete) =
      Reach-IsKept r (start-IsKept a (new-IsAtStart b bytes address limit a h) safe.size) in
    let (empty, over) = nothing_left w.allocator filled e in
    (
      empty,
      λ j q d at l conventional i.
          elim (Bool-cases (is_passed w.allocator (d.physical_start + q * 4096))) [
            | inl t ↦ inl (passed-IsUnusable w.allocator (d.physical_start + q * 4096) t)
            | inr t ↦
                let held =
                  complete j q d at l conventional i t (passed over j q d at l conventional i t) in
                let once = sound.single (d.physical_start + q * 4096) in
                let cache =
                  ap (λ n. copies n w.allocator.reclaimed_frames (d.physical_start + q * 4096))
                    empty in
                inr (omega arith)
          ],
    )
  where
    -- With nothing left to find, the cursor has passed the page.
    passed :
        usable_from w.allocator
            (w.allocator.descriptor_count - w.allocator.descriptor_index)
            w.allocator.descriptor_index
            w.allocator.page_index
          ≡ none
        → (j q : ℕ) (d : EfiMemoryDescriptor) → descriptor_at w.allocator j ≡ some d
        → j < w.allocator.descriptor_count
        → d.memory_type ≡ 7
        → q < d.number_of_pages
        → is_passed w.allocator (d.physical_start + q * 4096) ≡ false
        → (j < w.allocator.descriptor_index)
          ⊎ ((j ≡ w.allocator.descriptor_index) × (q < w.allocator.page_index))
    passed over j q d at l conventional i t =
        elim (Bool-cases (
          ltb j w.allocator.descriptor_index
          || ((j == w.allocator.descriptor_index) && ltb q w.allocator.page_index))) [
            | inl u ↦ ground arith
            | inr u ↦
                let (m, n, other, _) =
                  usable_from-first w.allocator
                    (w.allocator.descriptor_count - w.allocator.descriptor_index)
                    w.allocator.descriptor_index w.allocator.page_index j q d at conventional i t
                    (ground arith) (ground arith) (λ e. ground arith) in
                let x = sym over ∙ other in cc
          ]
