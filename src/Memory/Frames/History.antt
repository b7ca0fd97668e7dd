-- ===== src/Memory/Frames/History.antt =====
-- Histories of the frame allocator of memory/mod.rs.
use leaf_os_alpha.Base.{
  ℕ, suc, ◌+◌, ◌-◌, ◌*◌, ◌≡◌, ◌<◌, inl, inr, refl, sym, subst, ap, ◌∙◌, Option, none, some, List,
  ◌∷◌, ◌++◌, arith, ◌==◌, ltb, fill, number, number-split, Bool-cases, length, length-modify,
  Result, ok, err,
}
use leaf_os_alpha.Memory.Map.{EfiMemoryDescriptor}
use leaf_os_alpha.Memory.Frames.{
  FrameAllocator, descriptor_at, usable_from, advance_to, next_usable_frame, reclaim_frame,
  is_allocatable_frame, deallocate_frame,
}
use leaf_os_alpha.Memory.Frames.Cache.{copies, copies-push}
use leaf_os_alpha.Memory.Frames.Cursor.{IsUsable, usable_from_lem}
use leaf_os_alpha.Memory.Frames.Owners.{ComesFirst, fresh, usable-allocatable}
use leaf_os_alpha.Memory.Frames.Safety.{
  holders, IsSafe, gained, pop-IsSafe, rest-IsSafe, found-IsSafe,
}

-- What is found from the cursor, with an empty cache.
advance_some-IsSafe :
    (a : FrameAllocator) (owned : List ℕ) (j q : ℕ) (d : EfiMemoryDescriptor)
    → a.reclaimed_count ≡ 0
    → j < a.descriptor_count
    → ComesFirst a.descriptor_index a.page_index j q
    → descriptor_at a j ≡ some d
    → IsUsable a d q
    → IsSafe a owned
    → IsSafe
        (record a { descriptor_index = j; page_index = q + 1 })
        ((d.physical_start + q * 4096) ∷ owned)
advance_some-IsSafe a owned j q d e k c at u s =
    let f = d.physical_start + q * 4096 in
    found-IsSafe a owned j q f unheld later
      (j, d, at, k, omega arith, omega (arith, u.inside), inr (refl, omega arith))
      (usable-allocatable a j q d k at u) s
  where
    unheld : holders a owned (d.physical_start + q * 4096) ≡ 0
    unheld = elim (Bool-cases (ltb 0 (holders a owned (d.physical_start + q * 4096)))) [
      | inl t ↦
          let known = s.known (d.physical_start + q * 4096) (ground arith) in
          absurd (fresh a a.descriptor_index a.page_index j q d s.map k c at u known.0)
      | inr t ↦ ground arith
    ]

    later : ComesFirst a.descriptor_index a.page_index j (q + 1)
    later = ground arith

advance_to-IsSafe :
    (a : FrameAllocator) (owned : List ℕ) (o : Option (ℕ × ℕ))
    → a.reclaimed_count ≡ 0
    → usable_from a (a.descriptor_count - a.descriptor_index) a.descriptor_index a.page_index ≡ o
    → IsSafe a owned
    → let (found, b) = advance_to a o in IsSafe b (gained found owned)
unfolding advance_to
advance_to-IsSafe a owned none e h s =
    elim (Bool-cases (ltb a.descriptor_index a.descriptor_count)) [
      | inl t ↦ rw t (rest-IsSafe a owned a.descriptor_count 0 (inl (ground arith)) s)
      | inr t ↦ rw t s
    ]
advance_to-IsSafe a owned (some (j, q)) e h s =
    let (lo, hi, first, (d, at, u)) =
      usable_from_lem a (a.descriptor_count - a.descriptor_index) a.descriptor_index a.page_index j
        q h in
    rw at (advance_some-IsSafe a owned j q d e (omega arith) (ground (arith, first)) at u s)

next-IsSafe :
    (a : FrameAllocator) (owned : List ℕ)
    → IsSafe a owned
    → let (found, b) = next_usable_frame a in IsSafe b (gained found owned)
unfolding next_usable_frame
next-IsSafe a owned s = elim (Bool-cases (a.reclaimed_count == 0)) [
  | inl t ↦ rw t (advance_to-IsSafe a owned _ (ground arith) refl s)
  | inr t ↦ rw t (pop-IsSafe a owned (a.reclaimed_count - 1) (ground arith) s)
]

-- A frame that goes from its users to the cache.
pub holders-push :
    (a : FrameAllocator) (before after : List ℕ) (f : ℕ)
    → a.reclaimed_count < 260
    → length a.reclaimed_frames ≡ 260
    → (g : ℕ)
    → number (λ x. x == g) (before ++ after)
        + copies (a.reclaimed_count + 1) (fill a.reclaimed_count (some f) a.reclaimed_frames) g
      ≡ holders a (before ++ (f ∷ after)) g
holders-push a before after f l size g =
    let next : a.reclaimed_count + 1 ≡ suc a.reclaimed_count = omega arith in
    let bump = ap (λ m. copies m (fill a.reclaimed_count (some f) a.reclaimed_frames) g) next in
    omega (
      arith,
      bump,
      copies-push a.reclaimed_count f a.reclaimed_frames g (omega (arith, size)),
      number-split (λ x. x == g) before after f,
    )

-- An owned frame that goes to the cache.
push-IsSafe :
    (a : FrameAllocator) (before after : List ℕ) (f : ℕ)
    → a.reclaimed_count < 260
    → IsSafe a (before ++ (f ∷ after))
    → IsSafe
        (record a {
          reclaimed_frames = fill a.reclaimed_count (some f) a.reclaimed_frames;
          reclaimed_count = a.reclaimed_count + 1;
        })
        (before ++ after)
unfolding is_allocatable_frame
push-IsSafe a before after f l s = record {
  map = s.map;
  size = length-modify (λ _. some f) a.reclaimed_count a.reclaimed_frames ∙ s.size;
  room = omega arith;
  single = λ g. omega (arith, holders-push a before after f l s.size g, s.single g);
  known = λ g h. s.known g (omega (arith, holders-push a before after f l s.size g));
}

-- The owned frames after an attempt to return one.
abbrev pub kept {ℓ} : {E : Type ℓ} → Result (Unit {0}) E → List ℕ → ℕ → List ℕ → List ℕ
kept (ok x) before f after = before ++ after
kept (err e) before f after = before ++ (f ∷ after)

deallocate-IsSafe :
    (a : FrameAllocator) (before after : List ℕ) (f : ℕ)
    → IsSafe a (before ++ (f ∷ after))
    → let (r, b) = deallocate_frame a f in IsSafe b (kept r before f after)
unfolding deallocate_frame reclaim_frame
deallocate-IsSafe a before after f s = elim (Bool-cases (is_allocatable_frame a f)) [
  | inr t ↦ rw t s
  | inl t ↦ elim (Bool-cases (ltb a.reclaimed_count 260)) [
    | inr u ↦ rw (t, u) s
    | inl u ↦ rw (t, u) (push-IsSafe a before after f (ground arith) s)
  ]
]

-- The allocator and the frames in use.
pub record World : Type 0 where
  pub allocator : FrameAllocator
  pub owned : List ℕ

-- A call by the users of frames, who return only frames that they own: `before` and `after` stand
-- round it.
pub data Step (v w : World) : Type 0 where
  allocates :
      w ≡ (
        let (found, b) = next_usable_frame v.allocator in
        record { allocator = b; owned = gained found v.owned })
      → Step v w
  deallocates :
      (f : ℕ) (before after : List ℕ)
      → v.owned ≡ before ++ (f ∷ after)
      → w ≡ (
          let (r, b) = deallocate_frame v.allocator f in
          record { allocator = b; owned = kept r before f after })
      → Step v w

pub data Reach (v : World) : World → Type 0 where
  here : Reach v v
  next : {u w : World} → Reach v u → Step u w → Reach v w

abbrev pub IsSound : World → Type 0
IsSound w = IsSafe w.allocator w.owned

Step-IsSound : {v w : World} → Step v w → IsSound v → IsSound w
Step-IsSound {v} (allocates e) s = subst IsSound (sym e) (next-IsSafe v.allocator v.owned s)
Step-IsSound {v} (deallocates f before after u e) s =
    subst IsSound (sym e)
      (deallocate-IsSafe v.allocator before after f (subst (IsSafe v.allocator) u s))

pub Reach-IsSound : {v w : World} → Reach v w → IsSound v → IsSound w
Reach-IsSound here s = s
Reach-IsSound (next r t) s = Step-IsSound t (Reach-IsSound r s)
