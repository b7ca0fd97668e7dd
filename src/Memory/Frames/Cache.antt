-- ===== src/Memory/Frames/Cache.antt =====
-- The returned frames that the allocator of memory/mod.rs keeps.
use leaf_os_alpha.Base.{
  ℕ, zero, suc, ◌+◌, ◌≡◌, ◌≤◌, ◌<◌, refl, sym, ap, ap₂, Bool, false, Option, none, some, List,
  arith, if◌then◌else◌, ◌==◌, length, slot, fill, slot-fill,
}

abbrev pub is_frame : Option ℕ → ℕ → Bool
is_frame none frame = false
is_frame (some f) frame = f == frame

-- How often the frame stands in the first `n` slots.
unfoldable pub copies : ℕ → List (Option ℕ) → ℕ → ℕ
copies zero slots frame = 0
copies (suc n) slots frame = (if is_frame (slot slots n) frame then 1 else 0) + copies n slots frame

-- A write into a later slot does not count.
pub copies-fill :
    (n m : ℕ) (o : Option ℕ) (slots : List (Option ℕ)) (frame : ℕ)
    → n ≤ m
    → m < length slots
    → copies n (fill m o slots) frame ≡ copies n slots frame
unfolding copies
copies-fill zero m o slots frame h l = refl
copies-fill (suc n) m o slots frame h l =
    ap₂ (λ p q. (if is_frame p frame then 1 else 0) + q) (ground (arith, slot-fill m n o slots l))
      (copies-fill n m o slots frame (omega arith) l)

pub copies-push :
    (n f : ℕ) (slots : List (Option ℕ)) (frame : ℕ)
    → n < length slots
    → copies (suc n) (fill n (some f) slots) frame
      ≡ (if f == frame then 1 else 0) + copies n slots frame
unfolding copies
copies-push n f slots frame l =
    let e : slot (fill n (some f) slots) n ≡ some f =
      ground (arith, slot-fill n n (some f) slots l) in
    ap₂ (λ p q. (if is_frame p frame then 1 else 0) + q) e
      (copies-fill n n (some f) slots frame (omega arith) l)

-- Taking the last one out.
pub copies-pop :
    (n : ℕ) (slots : List (Option ℕ)) (frame : ℕ)
    → n < length slots
    → copies (suc n) slots frame
      ≡ (if is_frame (slot slots n) frame then 1 else 0) + copies n (fill n none slots) frame
unfolding copies
copies-pop n slots frame l =
    ap (λ q. (if is_frame (slot slots n) frame then 1 else 0) + q)
      (sym (copies-fill n n none slots frame (omega arith) l))
