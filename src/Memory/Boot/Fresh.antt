-- ===== src/Memory/Boot/Fresh.antt =====
-- The frame allocator of memory/mod.rs from boot on.
use leaf_os_alpha.Base.{
  ℕ, ◌≡◌, ◌≤◌, ◌<◌, refl, subst, true, ◌||◌, not, Option, none, List, [], arith, ◌==◌, ltb, ◌%◌,
  ◌^◌, ◌-◌, length-replicate, Bool-cases, inl, inr, Result, ok, err,
}
use leaf_os_alpha.Memory.Map.{
  PhysicalRange, MemoryError, validate_memory_map, efi_descriptor_min_size,
}
use leaf_os_alpha.Memory.Map.Regions.{validate-regions}
use leaf_os_alpha.Memory.Frames.{FrameAllocator, is_allocatable_frame}
use leaf_os_alpha.Memory.Frames.Cache.{copies}
use leaf_os_alpha.Memory.Frames.Safety.{IsSafe, holders}
use leaf_os_alpha.Memory.Frames.History.{World, Reach, Reach-IsSound}
use leaf_os_alpha.Memory.Boot.{BootInfo, new, new_with, reserved_ranges, are_unreserved_below}

pub ok_injective :
    (x y : FrameAllocator) → ◌≡◌ {A = Result FrameAllocator MemoryError} (ok x) (ok y) → x ≡ y
ok_injective x y e = cc

new_with-IsSafe :
    (bytes : List ℕ) (size limit : ℕ) (o : Result ℕ MemoryError)
    (ranges : Result (List PhysicalRange) MemoryError) (a : FrameAllocator)
    → validate_memory_map bytes size limit ≡ o
    → new_with bytes size limit o ranges ≡ ok a
    → IsSafe a []
unfolding new_with copies
new_with-IsSafe bytes size limit (err e) ranges a v h = cc
new_with-IsSafe bytes size limit (ok count) (err e) a v h = cc
new_with-IsSafe bytes size limit (ok count) (ok ranges) a v h =
    elim (Bool-cases (are_unreserved_below bytes size ranges count)) [
      | inr t ↦ let x = rw t at h in cc
      | inl t ↦
          subst (λ b. IsSafe b []) (ok_injective _ _ (rw t at h))
            (record {
              map = (validate-regions bytes size limit count v).3;
              size = length-replicate {A = Option ℕ} 260 none;
              room = omega arith;
              single = λ f. omega arith;
              known = λ f k. absurd (omega arith);
            })
    ]

pub new-IsSafe :
    (b : BootInfo) (bytes : List ℕ) (address limit : ℕ) (a : FrameAllocator)
    → new b bytes address limit ≡ ok a
    → IsSafe a []
unfolding new
new-IsSafe b bytes address limit a h =
    elim (Bool-cases ((b.memory_map == 0) || (b.memory_map_size == 0))) [
      | inl t ↦ let x = rw t at h in cc
      | inr t ↦
          elim (Bool-cases (
            ltb b.descriptor_size efi_descriptor_min_size
            || ltb (2 ^ 63 - 1) b.memory_map_size
            || not (b.memory_map_size % b.descriptor_size == 0))) [
              | inl u ↦ let x = rw (t, u) at h in cc
              | inr u ↦
                  new_with-IsSafe bytes b.descriptor_size limit
                    (validate_memory_map bytes b.descriptor_size limit)
                    (reserved_ranges b address limit) a refl (rw (t, u) at h)
            ]
    ]

-- From boot on, while the users of frames return only frames that they own: no frame is handed out to
-- two of them, or while it waits in the cache to be used again; each frame in use or in the cache lies
-- in a conventional region, below the limit of addresses and outside the ranges that the loader has
-- reserved; and the cache does not overflow.
pub new-frames :
    (b : BootInfo) (bytes : List ℕ) (address limit : ℕ) (a : FrameAllocator) (w : World)
    → new b bytes address limit ≡ ok a
    → Reach (record { allocator = a; owned = [] }) w
    → ((f : ℕ) → holders w.allocator w.owned f ≤ 1)
      × ((f : ℕ) → 0 < holders w.allocator w.owned f → is_allocatable_frame w.allocator f ≡ true)
      × (w.allocator.reclaimed_count ≤ 260)
new-frames b bytes address limit a w h r =
    let s = Reach-IsSound r (new-IsSafe b bytes address limit a h) in
    (s.single, λ f k. (s.known f k).1, s.room)
