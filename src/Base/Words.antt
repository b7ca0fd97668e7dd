-- ===== src/Base/Words.antt =====
-- 64-bit unsigned arithmetic: `usize` and `u64` of the kernel's targets.
use Prim.Native.Nat.{ℕ, ◌+◌, ◌-◌, ◌*◌, ◌/◌, ◌^◌}
use mathlib.Core.Option.{Option, none, some}
use leaf_os_alpha.Base.Tests.{ltb, leb, if◌then◌else◌, ◌==◌}

abbrev pub word : ℕ
word = 2 ^ 64

-- `a.checked_add(b)` and its companions
abbrev pub checked_add : ℕ → ℕ → Option ℕ
checked_add a b = if ltb (a + b) word then some (a + b) else none

abbrev pub checked_sub : ℕ → ℕ → Option ℕ
checked_sub a b = if leb b a then some (a - b) else none

abbrev pub checked_mul : ℕ → ℕ → Option ℕ
checked_mul a b = if ltb (a * b) word then some (a * b) else none

abbrev pub checked_div : ℕ → ℕ → Option ℕ
checked_div a b = if b == 0 then none else some (a / b)
