-- ===== src/Memory/Frames/Owners.antt =====
-- Who has which frame: those handed out, those returned, and those not reached yet (memory/mod.rs).
use mathlib.Core.Option.{some-injective}
use leaf_os_alpha.Base.{
  ℕ, zero, suc, ◌+◌, ◌*◌, ◌≡◌, ◌≢◌, ◌≤◌, ◌<◌, ◌⊎◌, inl, inr, sym, subst, ap, ◌∙◌, true, Option,
  some, arith, ◌==◌, Bool-cases,
}
use leaf_os_alpha.Memory.Map.{EfiMemoryDescriptor}
use leaf_os_alpha.Memory.Map.Regions.{region_end, AreApart}
use leaf_os_alpha.Memory.Frames.{
  FrameAllocator, descriptor_at, is_passed, holds_frame, any_holds, is_allocatable_frame,
}
use leaf_os_alpha.Memory.Frames.Cursor.{IsUsable}

-- The frame lies in a region before the cursor, or in the part of its region that the cursor has
-- passed.
abbrev pub Behind : FrameAllocator → ℕ → ℕ → ℕ → Type 0
Behind a index page f =
    (j : ℕ) × (d : EfiMemoryDescriptor) × (descriptor_at a j ≡ some d)
    × (j < a.descriptor_count)
    × (d.physical_start ≤ f)
    × (f < region_end d)
    × ((j < index) ⊎ ((j ≡ index) × (f < d.physical_start + page * 4096)))

abbrev pub ComesFirst : ℕ → ℕ → ℕ → ℕ → Type 0
ComesFirst index page index' page' = (index < index') ⊎ ((index ≡ index') × (page ≤ page'))

pub Behind-later :
    (a : FrameAllocator) (index page index' page' f : ℕ)
    → ComesFirst index page index' page'
    → Behind a index page f
    → Behind a index' page' f
Behind-later a index page index' page' f c (j, d, at, k, lo, hi, w) =
    (j, d, at, k, lo, hi, ground arith)

-- The regions of the memory map are apart.
abbrev pub IsMap : FrameAllocator → Type 0
IsMap a =
    (i j : ℕ) (d e : EfiMemoryDescriptor)
    → i < a.descriptor_count
    → j < a.descriptor_count
    → i ≢ j
    → descriptor_at a i ≡ some d
    → descriptor_at a j ≡ some e
    → AreApart d e

-- A page that the search finds is not behind the cursor it started from.
pub fresh :
    (a : FrameAllocator) (index page j q : ℕ) (d : EfiMemoryDescriptor)
    → IsMap a
    → j < a.descriptor_count
    → ComesFirst index page j q
    → descriptor_at a j ≡ some d
    → IsUsable a d q
    → ¬ Behind a index page (d.physical_start + q * 4096)
fresh a index page j q d m k c at u (j', d', at', k', lo, hi, w) = elim (Bool-cases (j == j')) [
  | inl t ↦
      let same : j ≡ j' = ground arith in
      let one : d ≡ d' = some-injective _ _ (sym at ∙ ap (descriptor_at a) same ∙ at') in
      let start : d.physical_start ≡ d'.physical_start =
        ap (λ (x : EfiMemoryDescriptor). x.physical_start) one in
      ground arith
  | inr t ↦ ground (arith, u.inside, m j j' d d' k k' (λ e. ground arith) at at')
]

any_holds-at :
    (a : FrameAllocator) (n j f : ℕ)
    → j < n
    → holds_frame (descriptor_at a j) f ≡ true
    → any_holds a n f ≡ true
unfolding any_holds
any_holds-at a zero j f h e = absurd (omega arith)
any_holds-at a (suc n) j f h e = elim (Bool-cases (j == n)) [
  | inl t ↦
      let same : j ≡ n = ground arith in
      let x : holds_frame (descriptor_at a n) f ≡ true =
        subst (λ k. holds_frame (descriptor_at a k) f ≡ true) same e in
      ground arith
  | inr t ↦ ground (arith, any_holds-at a n j f (ground arith) e)
]

holds-usable :
    (a : FrameAllocator) (o : Option EfiMemoryDescriptor) (d : EfiMemoryDescriptor) (q : ℕ)
    → o ≡ some d
    → IsUsable a d q
    → holds_frame o (d.physical_start + q * 4096) ≡ true
unfolding holds_frame
holds-usable a o d q e u = rw e (ground (arith, u.conventional, u.inside))

-- A page that the search finds is one that may be returned.
pub usable-allocatable :
    (a : FrameAllocator) (j q : ℕ) (d : EfiMemoryDescriptor)
    → j < a.descriptor_count
    → descriptor_at a j ≡ some d
    → IsUsable a d q
    → is_allocatable_frame a (d.physical_start + q * 4096) ≡ true
unfolding is_allocatable_frame is_passed
usable-allocatable a j q d k at u =
    let held =
      any_holds-at a a.descriptor_count j (d.physical_start + q * 4096) k
        (holds-usable a (descriptor_at a j) d q at u) in
    ground (arith, u.free)
