-- ===== src/Heap/Growth/Tests.antt =====
-- Runs of `grow` and `alloc` of memory/heap.rs, with a manager that has two pages to give and a heap
-- that is a number of free bytes.
use leaf_os_alpha.Base.{
  ℕ, ◌+◌, ◌-◌, ◌^◌, ◌≡◌, refl, sym, ap, ◌∙◌, Bool, true, false, ◌&&◌, ◌||◌, not, none, some, List,
  [], ◌∷◌, length, arith, if◌then◌else◌, ◌==◌, leb, Result, ok, err, is_some,
}
use leaf_os_alpha.Heap.Growth.{Platform, HeapState, grow, alloc}
use leaf_os_alpha.Heap.Growth.Bounded.{IsProgress, alloc-total}
use leaf_os_alpha.Heap.Growth.Outcome.{Grows, grow-Grows}

abbrev contains : List ℕ → ℕ → Bool
contains [] q = false
contains (x ∷ xs) q = (q == x) || contains xs q

abbrev remove : ℕ → List ℕ → List ℕ
remove a [] = []
remove a (x ∷ xs) = let rest = remove a xs in if a == x then rest else x ∷ rest

abbrev map_one : ℕ → List ℕ → Bool → Result (Unit {0}) ℕ × List ℕ
map_one a xs true = (err 1, xs)
map_one a xs false = (ok tt, a ∷ xs)

abbrev two_pages : Platform (List ℕ) ℕ ℕ ℕ
two_pages = record {
  failure = λ xs. none;
  first_unused_low_half_page = λ xs. some (2 ^ 39);
  available_frame_count = λ xs. 1000;
  allocate_and_map = λ a xs. map_one a xs (contains xs a || leb 2 (length xs));
  unmap_and_deallocate = λ a xs. (true, remove a xs);
  try_new = λ a. some a;
  init_heap = λ start size. size;
  extend = λ size free. free + size;
  allocate_first_fit =
      λ layout free. if leb layout.size free then some (0, free - layout.size) else none;
}

contains-remove :
    (a : ℕ) (xs : List ℕ) (q : ℕ) → contains (remove a xs) q ≡ (contains xs q && not (q == a))
contains-remove a [] q = refl
contains-remove a (x ∷ xs) q = ground (arith, contains-remove a xs q)

maps :
    (a : ℕ) (xs ys : List ℕ)
    → map_one a xs (contains xs a || leb 2 (length xs)) ≡ (ok tt, ys)
    → (contains xs a ≡ false) × ((q : ℕ) → contains ys q ≡ ((q == a) || contains xs q))
maps a xs ys e = go (contains xs a) (leb 2 (length xs)) refl e
  where
    go :
        (b c : Bool)
        → contains xs a ≡ b
        → map_one a xs (b || c) ≡ (ok tt, ys)
        → (contains xs a ≡ false) × ((q : ℕ) → contains ys q ≡ ((q == a) || contains xs q))
    go true c f e = cc
    go false true f e = cc
    go false false f e = (f, λ q. sym (ap (λ (r : Result (Unit {0}) ℕ × List ℕ). contains r.1 q) e))

maps_not :
    (a : ℕ) (xs ys : List ℕ) (error : ℕ)
    → map_one a xs (contains xs a || leb 2 (length xs)) ≡ (err error, ys)
    → (q : ℕ) → contains ys q ≡ contains xs q
maps_not a xs ys error e q = go (contains xs a || leb 2 (length xs)) e
  where
    go : (b : Bool) → map_one a xs b ≡ (err error, ys) → contains ys q ≡ contains xs q
    go true e = sym (ap (λ (r : Result (Unit {0}) ℕ × List ℕ). contains r.1 q) e)
    go false e = cc

unmaps :
    (a : ℕ) (xs ys : List ℕ)
    → two_pages.unmap_and_deallocate a xs ≡ (true, ys)
    → (q : ℕ) → contains ys q ≡ (contains xs q && not (q == a))
unmaps a xs ys e q = sym (ap (λ (r : Bool × List ℕ). contains r.1 q) e) ∙ contains-remove a xs q

abbrev no_heap : HeapState ℕ
no_heap = record { heap = 0; initialized = false; poisoned = false; start = none; mapped_pages = 0 }

-- The first growth takes 256 pages, of which the third cannot be mapped.
grow-Grows_example :
    Grows two_pages contains no_heap [] (grow two_pages 256 no_heap [])
    × IsProgress two_pages 0 (grow two_pages 256 no_heap [])
grow-Grows_example = grow-Grows two_pages contains maps maps_not unmaps 256 no_heap []

alloc-total_example :
    is_some
      (alloc two_pages (record { size = 64; align = 8 }) (record no_heap { initialized = true }) [])
    ≡ true
alloc-total_example =
    alloc-total two_pages (record { size = 64; align = 8 }) (record no_heap { initialized = true })
      []
