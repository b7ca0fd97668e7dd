-- ===== src/Pipe.antt =====
-- tasking/fd.rs: `Pipe`, a circular byte store with counts of its open ends. A pipe is shared
-- behind a lock, so its history is a list of calls.
pub mod Stream
mod Tests
use leaf_os_alpha.Base.{ℕ, ◌+◌, ◌-◌, List, [], ◌∷◌, ◌++◌, length, take, min}
use leaf_os_alpha.Ring
use leaf_os_alpha.Ring.{Ring}

abbrev pub pipe_capacity : ℕ
pipe_capacity = 4096

-- `ring` holds the fields `bytes`, `head` and `length`.
pub record Pipe : Type 0 where
  pub ring : Ring
  pub readers : ℕ
  pub writers : ℕ

unfoldable pub new : Pipe
new = record { ring = Ring.empty pipe_capacity; readers = 0; writers = 1 }

-- The count, the bytes stored in an output slice of the given size, and the pipe left.
pub read : Pipe → ℕ → ℕ × List ℕ × Pipe
read p size =
    let (n, out, r) = Ring.read pipe_capacity p.ring size in (n, out, record p { ring = r })

pub write : Pipe → List ℕ → ℕ × Pipe
write p input =
    let n = min (length input) (pipe_capacity - p.ring.count) in
    (n, record p { ring = Ring.put_all pipe_capacity p.ring (take n input) })

pub data Call : Type 0 where
  reads : ℕ → Call
  writes : List ℕ → Call

-- A history of calls: the bytes that went out, the bytes that were accepted, and the pipe left.
pub run : Pipe → List Call → List ℕ × List ℕ × Pipe
run p [] = ([], [], p)
run p (reads size ∷ calls) =
    let (n, out, q) = read p size in let (sent, taken, q') = run q calls in (out ++ sent, taken, q')
run p (writes input ∷ calls) =
    let (n, q) = write p input in
    let (sent, taken, q') = run q calls in (sent, take n input ++ taken, q')
