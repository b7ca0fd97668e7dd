-- ===== src/Base/Slots.antt =====
-- Fixed tables of optional entries, `[Option<T>; N]`: what a slot holds, and the searches that the
-- kernel makes.
use mathlib.Core.Option
use Prim.Native.Nat.{ℕ, zero, suc, ◌+◌, ◌≤◌, ◌<◌}
use mathlib.Core.Path.{◌≡◌, refl, sym, ap}
use mathlib.Core.Logic.{inl, inr}
use mathlib.Core.Bool.{Bool, true, false}
use mathlib.Core.List.{List, [], ◌∷◌, map}
use mathlib.Core.Option.{Option, none, some}
use native.Mathlib.Omega.{arith}
use leaf_os_alpha.Base.Tests.{if◌then◌else◌, ◌==◌, Bool-cases}
use leaf_os_alpha.Base.Lists.{length, modify, replicate}

module _ {ℓ} {A : Type ℓ} where
  -- The first index, counted from `i`, at which the test holds.
  abbrev pub position_from : (A → Bool) → ℕ → List A → Option ℕ
  position_from p i [] = none
  position_from p i (x ∷ xs) = if p x then some i else position_from p (suc i) xs

  -- `iter().position(p)`
  abbrev pub position : (A → Bool) → List A → Option ℕ
  position p xs = position_from p 0 xs

module _ {ℓ} {A : Type ℓ} where
  -- What slot `i` holds; out of range, nothing.
  abbrev pub slot : List (Option A) → ℕ → Option A
  slot [] i = none
  slot (o ∷ os) zero = o
  slot (o ∷ os) (suc i) = slot os i

  -- A write into slot `i`.
  abbrev pub fill : ℕ → Option A → List (Option A) → List (Option A)
  fill i o = modify (λ _. o) i

  pub slot-fill :
      (i j : ℕ) (o : Option A) (xs : List (Option A))
      → i < length xs
      → slot (fill i o xs) j ≡ (if i == j then o else slot xs j)
  slot-fill i j o [] h = absurd (omega arith)
  slot-fill zero zero o (x ∷ xs) h = refl
  slot-fill zero (suc j) o (x ∷ xs) h = ground arith
  slot-fill (suc i) zero o (x ∷ xs) h = ground arith
  slot-fill (suc i) (suc j) o (x ∷ xs) h = ground (arith, slot-fill i j o xs)

  pub slot_in_range : (xs : List (Option A)) (i : ℕ) (a : A) → slot xs i ≡ some a → i < length xs
  slot_in_range [] i a e = cc
  slot_in_range (x ∷ xs) zero a e = omega arith
  slot_in_range (x ∷ xs) (suc i) a e = omega (arith, slot_in_range xs i a e)

  pub slot-map :
      (f : A → A) (xs : List (Option A)) (i : ℕ)
      → slot (map (Option.map f) xs) i ≡ Option.map f (slot xs i)
  slot-map f [] i = refl
  slot-map f (x ∷ xs) zero = refl
  slot-map f (x ∷ xs) (suc i) = slot-map f xs i

  pub slot-replicate : (n i : ℕ) → slot (replicate n none) i ≡ none
  slot-replicate zero i = refl
  slot-replicate (suc n) zero = refl
  slot-replicate (suc n) (suc i) = slot-replicate n i

  -- A write of what a slot holds changes nothing.
  pub fill_back : (i : ℕ) (o : Option A) (xs : List (Option A)) → slot xs i ≡ o → fill i o xs ≡ xs
  fill_back i o [] e = refl
  fill_back zero o (x ∷ xs) e = ap (λ y. y ∷ xs) (sym e)
  fill_back (suc i) o (x ∷ xs) e = ap (λ ys. x ∷ ys) (fill_back i o xs e)

  -- A position that is found passes the test, and no earlier one does.
  pub position_from-some :
      (p : Option A → Bool) (k : ℕ) (xs : List (Option A)) (i : ℕ)
      → position_from p k xs ≡ some i
      → (k ≤ i)
        × (i < k + length xs)
        × ((j : ℕ) → k + j ≡ i → p (slot xs j) ≡ true)
        × ((j : ℕ) → k + j < i → p (slot xs j) ≡ false)
  position_from-some p k [] i e = cc
  position_from-some p k (x ∷ xs) i e = elim (Bool-cases (p x)) [
    | inl t ↦
        let found : k ≡ i = ground arith in
        (omega arith, omega arith, at_start t found, λ j h. absurd (omega arith))
    | inr t ↦
        let (lo, hi, hit, miss) = position_from-some p (suc k) xs i (rw t at e) in
        (omega arith, omega arith, later hit lo, earlier miss t)
  ]
    where
      at_start : p x ≡ true → k ≡ i → (j : ℕ) → k + j ≡ i → p (slot (x ∷ xs) j) ≡ true
      at_start t f zero h = t
      at_start t f (suc j) h = absurd (omega arith)

      later :
          ((j : ℕ) → suc k + j ≡ i → p (slot xs j) ≡ true)
          → suc k ≤ i
          → (j : ℕ) → k + j ≡ i
          → p (slot (x ∷ xs) j) ≡ true
      later hit lo zero h = absurd (omega arith)
      later hit lo (suc j) h = hit j (omega arith)

      earlier :
          ((j : ℕ) → suc k + j < i → p (slot xs j) ≡ false)
          → p x ≡ false
          → (j : ℕ) → k + j < i
          → p (slot (x ∷ xs) j) ≡ false
      earlier miss t zero h = t
      earlier miss t (suc j) h = miss j (omega arith)

  pub position_from-none :
      (p : Option A → Bool) (k : ℕ) (xs : List (Option A))
      → position_from p k xs ≡ none
      → (j : ℕ) → j < length xs
      → p (slot xs j) ≡ false
  position_from-none p k [] e j h = absurd (omega arith)
  position_from-none p k (x ∷ xs) e zero h = ground arith
  position_from-none p k (x ∷ xs) e (suc j) h =
      position_from-none p (suc k) xs (ground arith) j (omega arith)

  pub position-some :
      (p : Option A → Bool) (xs : List (Option A)) (i : ℕ)
      → position p xs ≡ some i
      → (i < length xs) × (p (slot xs i) ≡ true) × ((j : ℕ) → j < i → p (slot xs j) ≡ false)
  position-some p xs i e =
      let (lo, hi, hit, miss) = position_from-some p 0 xs i e in
      (omega arith, hit i (omega arith), λ j h. miss j (omega arith))

  pub position-none :
      (p : Option A → Bool) (xs : List (Option A))
      → position p xs ≡ none
      → (j : ℕ) → j < length xs
      → p (slot xs j) ≡ false
  position-none p xs e = position_from-none p 0 xs e
