-- ===== src/Ring.antt =====
-- The circular byte store that drivers/input.rs (`InputBuffer`) and tasking/fd.rs (`Pipe`) both
-- keep: the fields `bytes`, `head` and `length`, and the loop bodies of their methods, over the
-- capacity `capacity` that each file fixes by a constant.
pub mod Window
use leaf_os_alpha.Base.{
  ℕ, zero, suc, ◌+◌, ◌-◌, ◌%◌, ◌≤◌, ◌<◌, ◌≡◌, refl, List, [], ◌∷◌, arith, length, get_or, set,
  length-set, replicate, length-replicate, min,
}

pub record Ring : Type 0 where
  pub bytes : List ℕ
  pub head : ℕ
  pub count : ℕ

module _ (capacity : ℕ) where
  pub empty : Ring
  empty = record { bytes = replicate capacity 0; head = 0; count = 0 }

  -- `bytes[(head + length) % capacity] = byte; length += 1`
  pub put : Ring → ℕ → Ring
  put r byte = record r {
    bytes = set r.bytes ((r.head + r.count) % capacity) byte;
    count = r.count + 1;
  }

  -- `for byte in input { put }`
  pub put_all : Ring → List ℕ → Ring
  put_all r [] = r
  put_all r (x ∷ xs) = put_all (put r x) xs

  -- `head = (head + 1) % capacity; length -= 1`
  pub advance : Ring → Ring
  advance r = record r { head = (r.head + 1) % capacity; count = r.count - 1 }

  -- `for slot in output.iter_mut().take(n) { *slot = bytes[head]; advance }`: the bytes stored, and
  -- the ring left.
  pub take_out : ℕ → Ring → List ℕ × Ring
  take_out zero r = ([], r)
  take_out (suc n) r = let (out, r') = take_out n (advance r) in (get_or r.bytes r.head 0 ∷ out, r')

  -- `read`: `output` is known by its size; the result is the count, the bytes stored at the front of
  -- `output`, and the ring left.
  pub read : Ring → ℕ → ℕ × List ℕ × Ring
  read r size = let count = min size r.count in let (out, r') = take_out count r in (count, out, r')

pub record IsValid (capacity : ℕ) (r : Ring) : Type 0 where
  pub storage : length r.bytes ≡ capacity
  pub head_in : r.head < capacity
  pub count_in : r.count ≤ capacity

module _ (capacity : ℕ) where
  pub empty-IsValid : 0 < capacity → IsValid capacity (empty capacity)
  unfolding empty
  empty-IsValid h = record {
    storage = length-replicate capacity 0;
    head_in = h;
    count_in = omega arith;
  }

  pub put-IsValid :
      (r : Ring) (x : ℕ)
      → IsValid capacity r
      → r.count < capacity
      → IsValid capacity (put capacity r x)
  unfolding put
  put-IsValid r x v h = ground (arith, length-set r.bytes ((r.head + r.count) % capacity) x)

  pub advance-IsValid : (r : Ring) → IsValid capacity r → IsValid capacity (advance capacity r)
  unfolding advance
  advance-IsValid r v = omega arith
