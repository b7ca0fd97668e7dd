-- ===== src/Ring/Window.antt =====
-- What a ring holds, oldest byte first, and how the loop bodies change it.
use native.Mathlib.Nat.{mod-add-mod, mod-mod, mod-eq_of_lt, mod-eq-sub-mod, add-zero}
use native.Mathlib.Numerals.{add-one}
use mathlib.Core.List.{append-nil, append_assoc}
use leaf_os_alpha.Base.{
  ℕ, zero, suc, ◌+◌, ◌-◌, ◌%◌, ◌≤◌, ◌<◌, ◌≡◌, ◌≢◌, refl, sym, ap, ap₂, ◌∙◌, List, [], ◌∷◌, ◌++◌,
  arith, dec_lt, length, get_or, set, get_or-set_self, get_or-set_ne, take, drop, take-min,
  drop-min, min,
}
use leaf_os_alpha.Ring.{Ring, empty, put, put_all, advance, take_out, read, IsValid}
use leaf_os_alpha.Ring.{put-IsValid, advance-IsValid}

-- The byte at the running position `p`, which the code keeps modulo the capacity.
abbrev cell : List ℕ → ℕ → ℕ → ℕ
cell bytes capacity p = get_or bytes (p % capacity) 0

-- The `n` bytes at the positions from `p` on.
abbrev pub window : List ℕ → ℕ → ℕ → ℕ → List ℕ
window bytes capacity p zero = []
window bytes capacity p (suc n) = cell bytes capacity p ∷ window bytes capacity (suc p) n

abbrev pub contents : ℕ → Ring → List ℕ
contents capacity r = window r.bytes capacity r.head r.count

pub contents-empty : (capacity : ℕ) → contents capacity (empty capacity) ≡ []
unfolding empty
contents-empty capacity = refl

length-window : (bytes : List ℕ) (capacity p n : ℕ) → length (window bytes capacity p n) ≡ n
length-window bytes capacity p zero = refl
length-window bytes capacity p (suc n) = ap suc (length-window bytes capacity (suc p) n)

pub length-contents : (capacity : ℕ) (r : Ring) → length (contents capacity r) ≡ r.count
length-contents capacity r = length-window r.bytes capacity r.head r.count

-- Positions that agree modulo the capacity show the same bytes.
window-mod :
    (bytes : List ℕ) (capacity p n : ℕ)
    → window bytes capacity (p % capacity) n ≡ window bytes capacity p n
window-mod bytes capacity p zero = refl
window-mod bytes capacity p (suc n) = ap₂ ◌∷◌ (ap (λ i. get_or bytes i 0) (mod-mod p capacity)) (
    sym (window-mod bytes capacity (suc (p % capacity)) n)
    ∙ ap (λ q. window bytes capacity q n) next
    ∙ window-mod bytes capacity (suc p) n)
  where
    next : suc (p % capacity) % capacity ≡ suc p % capacity
    next =
        ap (λ k. k % capacity) (sym (add-one (p % capacity)))
        ∙ mod-add-mod p capacity 1
        ∙ ap (λ k. k % capacity) (add-one p)

-- Two positions less than a round apart lie in different cells.
cells_differ : (capacity p d : ℕ) → 0 < d → d < capacity → (p + d) % capacity ≢ p % capacity
cells_differ capacity p d hd hc = rw (← mod-add-mod) (elim (dec_lt (x + d) capacity) [
  | no over ↦ omega (
    arith,
    mod-eq-sub-mod {n = x + d} {m = capacity} (omega arith),
    mod-eq_of_lt {n = x + d - capacity} {m = capacity} (omega arith),
  )
  | yes inside ↦ omega (arith, mod-eq_of_lt inside)
])
  where
    x : ℕ
    x = p % capacity

-- A write into a cell that the window does not reach leaves the window alone.
window-set_outside :
    (bytes : List ℕ) (capacity x p n q : ℕ)
    → p + n ≤ q
    → q < p + capacity
    → window (set bytes (q % capacity) x) capacity p n ≡ window bytes capacity p n
window-set_outside bytes capacity x p zero q h k = refl
window-set_outside bytes capacity x p (suc n) q h k =
    ap₂ ◌∷◌ (get_or-set_ne bytes (q % capacity) (p % capacity) x 0 apart)
      (window-set_outside bytes capacity x (suc p) n q (omega arith) (omega arith))
  where
    apart : q % capacity ≢ p % capacity
    apart =
        let e : q ≡ p + (q - p) = omega arith in
        rw e (cells_differ capacity p (q - p) (omega arith) (omega arith))

-- A longer window ends in the next cell.
window_snoc :
    (bytes : List ℕ) (capacity p n : ℕ)
    → window bytes capacity p (suc n)
      ≡ window bytes capacity p n ++ (cell bytes capacity (p + n) ∷ [])
window_snoc bytes capacity p zero = rw add-zero
window_snoc bytes capacity p (suc n) =
    let e : suc p + n ≡ p + suc n = omega arith in
    ap (λ l. cell bytes capacity p ∷ l) (rw (← e) (window_snoc bytes capacity (suc p) n))

module _ (capacity : ℕ) where
  pub contents-put :
      (r : Ring) (x : ℕ)
      → IsValid capacity r
      → r.count < capacity
      → contents capacity (put capacity r x) ≡ contents capacity r ++ (x ∷ [])
  unfolding put
  contents-put r x v h =
      let e : r.count + 1 ≡ suc r.count = omega arith in
      rw (e, window_snoc)
        (ap₂ (λ l b. l ++ (b ∷ []))
          (window-set_outside r.bytes capacity x r.head r.count _ (omega arith) (omega arith))
          (get_or-set_self r.bytes _ x 0 (omega arith)))

  -- The writing loop appends its input, as long as the input fits.
  pub put_all_lem :
      (xs : List ℕ) (r : Ring)
      → IsValid capacity r
      → r.count + length xs ≤ capacity
      → IsValid capacity (put_all capacity r xs)
        × (contents capacity (put_all capacity r xs) ≡ contents capacity r ++ xs)
        × ((put_all capacity r xs).count ≡ r.count + length xs)
  unfolding put_all
  put_all_lem [] r v h = (v, rw append-nil, omega arith)
  put_all_lem (x ∷ xs) r v h =
      let (w, e, n) =
        put_all_lem xs (put capacity r x) (put-IsValid capacity r x v (omega arith)) fits in
      (
        w,
        e
            ∙ ap (λ l. l ++ xs) (contents-put r x v (omega arith))
            ∙ append_assoc (contents capacity r) (x ∷ []) xs,
        n ∙ count_step,
      )
    where
      unfolded_count : (put capacity r x).count ≡ r.count + 1
      unfolded_count = unfold put in refl

      fits : (put capacity r x).count + length xs ≤ capacity
      fits = omega (arith, unfolded_count)

      count_step : (put capacity r x).count + length xs ≡ r.count + suc (length xs)
      count_step = omega (arith, unfolded_count)

  count-advance : (r : Ring) → (advance capacity r).count ≡ r.count - 1
  unfolding advance
  count-advance r = refl

  -- What is left when the oldest byte is taken.
  contents_step :
      (r : Ring)
      → 0 < r.count
      → contents capacity r
        ≡ get_or r.bytes (r.head % capacity) 0 ∷ contents capacity (advance capacity r)
  unfolding advance
  contents_step r h =
      let e : r.count ≡ suc (r.count - 1) = omega arith in
      ap (window r.bytes capacity r.head) e
      ∙ ap (λ l. cell r.bytes capacity r.head ∷ l)
          (ap (λ k. window r.bytes capacity k (r.count - 1)) (sym (add-one r.head))
            ∙ sym (window-mod r.bytes capacity (r.head + 1) (r.count - 1)))

  -- The reading loop gives the oldest `n` bytes, and leaves the others.
  pub take_out_lem :
      (n : ℕ) (r : Ring)
      → IsValid capacity r
      → n ≤ r.count
      → let (out, r') = take_out capacity n r in
        IsValid capacity r'
        × (out ≡ take n (contents capacity r))
        × (contents capacity r' ≡ drop n (contents capacity r))
        × (r'.count ≡ r.count - n)
  unfolding take_out
  take_out_lem zero r v h = (v, refl, refl, omega arith)
  take_out_lem (suc n) r v h = ground (
    arith,
    take_out_lem n (advance capacity r) (advance-IsValid capacity r v),
    contents_step r,
    mod-eq_of_lt v.head_in,
    count-advance r,
  )

  -- `read` gives the oldest bytes, as many as are there and asked for, and leaves the others.
  pub read_lem :
      (r : Ring) (size : ℕ)
      → IsValid capacity r
      → let (n, out, r') = read capacity r size in
        IsValid capacity r'
        × (n ≡ min size (length (contents capacity r)))
        × (out ≡ take size (contents capacity r))
        × (contents capacity r' ≡ drop size (contents capacity r))
  unfolding read
  read_lem r size v =
      let (w, o, rest, _) = take_out_lem (min size r.count) r v (omega arith) in
      let e = length-contents capacity r in
      (
        w,
        omega (arith, e),
        o ∙ ap (λ k. take (min size k) (contents capacity r)) (sym e) ∙ take-min size _,
        rest ∙ ap (λ k. drop (min size k) (contents capacity r)) (sym e) ∙ drop-min size _,
      )
