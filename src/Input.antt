-- ===== src/Input.antt =====
-- drivers/input.rs: the byte queue between the keyboard interrupt and the input syscall. The lock
-- `INPUT` serialises the calls, so a history of the queue is a list of calls.
pub mod Queue
pub mod Refine
mod Tests
use leaf_os_alpha.Base.{ℕ, ◌≡◌, List, [], ◌∷◌, if◌then◌else◌, ◌==◌, min}
use leaf_os_alpha.Ring
use leaf_os_alpha.Ring.{Ring}

abbrev pub input_capacity : ℕ
input_capacity = 256

-- The field `length` of the source is `count`.
abbrev pub InputBuffer : Type 0
InputBuffer = Ring

pub new : InputBuffer
new = Ring.empty input_capacity

pub push : InputBuffer → ℕ → InputBuffer
push b byte = if b.count == input_capacity then b else Ring.put input_capacity b byte

pub read : InputBuffer → ℕ → ℕ × List ℕ × InputBuffer
read b size = Ring.read input_capacity b size

-- The calls that the interrupt handler and the syscall make.
pub data Call : Type 0 where
  enqueue : ℕ → Call
  read_available : ℕ → Call

-- A history of calls on the queue: what each `read_available` gives.
pub run : InputBuffer → List Call → List (ℕ × List ℕ)
run b [] = []
run b (enqueue byte ∷ calls) = run (push b byte) calls
run b (read_available size ∷ calls) =
    let (count, out, b') = read b size in (count, out) ∷ run b' calls
