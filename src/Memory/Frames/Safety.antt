-- ===== src/Memory/Frames/Safety.antt =====
-- No frame of memory/mod.rs has two owners.
use leaf_os_alpha.Base.{
  ℕ, suc, ◌+◌, ◌≡◌, ◌≤◌, ◌<◌, inl, inr, refl, subst, ap, ◌∙◌, true, Option, none, some, List, ◌∷◌,
  arith, if◌then◌else◌, ◌==◌, length, slot, fill, number, Bool-cases, length-modify,
}
use leaf_os_alpha.Memory.Frames.{FrameAllocator, is_allocatable_frame}
use leaf_os_alpha.Memory.Frames.Cache.{is_frame, copies, copies-pop}
use leaf_os_alpha.Memory.Frames.Owners.{Behind, ComesFirst, Behind-later, IsMap}

-- How often the frame is in use or waits to be used again.
abbrev pub holders : FrameAllocator → List ℕ → ℕ → ℕ
holders a owned f = number (λ g. g == f) owned + copies a.reclaimed_count a.reclaimed_frames f

pub record IsSafe (a : FrameAllocator) (owned : List ℕ) : Type 0 where
  pub map : IsMap a
  pub size : length a.reclaimed_frames ≡ 260
  pub room : a.reclaimed_count ≤ 260
  pub single : (f : ℕ) → holders a owned f ≤ 1
  pub known :
      (f : ℕ)
      → 0 < holders a owned f
      → Behind a a.descriptor_index a.page_index f × (is_allocatable_frame a f ≡ true)

-- The owned frames after an attempt to get one.
abbrev pub gained : Option ℕ → List ℕ → List ℕ
gained none owned = owned
gained (some f) owned = f ∷ owned

gained-number :
    (o : Option ℕ) (owned : List ℕ) (f : ℕ)
    → number (λ g. g == f) (gained o owned)
      ≡ (if is_frame o f then 1 else 0) + number (λ g. g == f) owned
gained-number none owned f = omega arith
gained-number (some g) owned f = refl

-- A frame that goes from the cache to its users.
pub holders-pop :
    (a : FrameAllocator) (owned : List ℕ) (n : ℕ)
    → a.reclaimed_count ≡ suc n
    → length a.reclaimed_frames ≡ 260
    → a.reclaimed_count ≤ 260
    → (f : ℕ)
    → number (λ g. g == f) (gained (slot a.reclaimed_frames n) owned)
        + copies n (fill n none a.reclaimed_frames) f
      ≡ holders a owned f
holders-pop a owned n e size room f =
    let split =
      ap (λ c. copies c a.reclaimed_frames f) e
      ∙ copies-pop n a.reclaimed_frames f (omega (arith, room, size)) in
    omega (arith, split, gained-number (slot a.reclaimed_frames n) owned f)

-- A frame taken from the cache.
pub pop-IsSafe :
    (a : FrameAllocator) (owned : List ℕ) (n : ℕ)
    → a.reclaimed_count ≡ suc n
    → IsSafe a owned
    → IsSafe
        (record a { reclaimed_count = n; reclaimed_frames = fill n none a.reclaimed_frames })
        (gained (slot a.reclaimed_frames n) owned)
unfolding is_allocatable_frame
pop-IsSafe a owned n e s = record {
  map = s.map;
  size = length-modify (λ _. none) n a.reclaimed_frames ∙ s.size;
  room = omega (arith, s.room);
  single = λ f. omega (arith, holders-pop a owned n e s.size s.room f, s.single f);
  known = λ f h. s.known f (omega (arith, holders-pop a owned n e s.size s.room f));
}

-- The cursor moves on, and no frame is found.
pub rest-IsSafe :
    (a : FrameAllocator) (owned : List ℕ) (index page : ℕ)
    → ComesFirst a.descriptor_index a.page_index index page
    → IsSafe a owned
    → IsSafe (record a { descriptor_index = index; page_index = page }) owned
unfolding is_allocatable_frame
rest-IsSafe a owned index page c s = record {
  map = s.map;
  size = s.size;
  room = s.room;
  single = s.single;
  known = λ f h.
      let (b, k) = s.known f h in
      (Behind-later a a.descriptor_index a.page_index index page f c b, k);
}

-- The cursor stops behind a frame that it finds.
pub found-IsSafe :
    (a : FrameAllocator) (owned : List ℕ) (j q f : ℕ)
    → holders a owned f ≡ 0
    → ComesFirst a.descriptor_index a.page_index j (q + 1)
    → Behind a j (q + 1) f
    → is_allocatable_frame a f ≡ true
    → IsSafe a owned
    → IsSafe (record a { descriptor_index = j; page_index = q + 1 }) (f ∷ owned)
unfolding is_allocatable_frame
found-IsSafe a owned j q f z c b k s = record {
  map = s.map;
  size = s.size;
  room = s.room;
  single = λ g. elim (Bool-cases (f == g)) [
    | inl t ↦
        let same : f ≡ g = ground arith in
        let none_yet = subst (λ x. holders a owned x ≡ 0) same z in rw t (omega (arith, none_yet))
    | inr t ↦ rw t (omega (arith, s.single g))
  ];
  known = λ g h. elim (Bool-cases (f == g)) [
    | inl t ↦
        let same : f ≡ g = ground arith in
        subst (λ x. Behind a j (q + 1) x × (is_allocatable_frame a x ≡ true)) same (b, k)
    | inr t ↦
        let held = rw t at h in
        let (b', k') = s.known g (omega (arith, held)) in
        (Behind-later a a.descriptor_index a.page_index j (q + 1) g c b', k')
  ];
}
