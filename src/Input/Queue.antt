-- ===== src/Input/Queue.antt =====
-- The promise of drivers/input.rs: a bounded FIFO that drops what does not fit.
use leaf_os_alpha.Base.{ℕ, List, [], ◌∷◌, ◌++◌, if◌then◌else◌, ltb, length, take, drop, min}
use leaf_os_alpha.Input.{Call, enqueue, read_available, input_capacity}

unfoldable pub accept : List ℕ → ℕ → List ℕ
accept q byte = if ltb (length q) input_capacity then q ++ (byte ∷ []) else q

unfoldable pub replies : List ℕ → List Call → List (ℕ × List ℕ)
replies q [] = []
replies q (enqueue byte ∷ calls) = replies (accept q byte) calls
replies q (read_available size ∷ calls) =
    (min size (length q), take size q) ∷ replies (drop size q) calls
