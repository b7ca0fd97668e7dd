-- ===== src/Program/Arguments.antt =====
-- user_program.rs: the argument vector that `build_argument_vector` prepares for the stack. A string is
-- the list of its bytes.
pub mod Reference
pub mod Built
use leaf_os_alpha.Base.{
  ℕ, zero, suc, ◌+◌, ◌-◌, ◌*◌, ◌%◌, Bool, true, false, ◌&&◌, ◌||◌, not, Option, none, some, List,
  [], ◌∷◌, ◌++◌, if◌then◌else◌, ◌==◌, ltb, leb, length, take, drop, replicate, Result, ok, err,
  is_some, position, checked_add, checked_sub, checked_mul, ◌>>=◌, word,
}
use leaf_os_alpha.Program.{user_stack_size, user_stack_top, to_le_bytes}

abbrev pub max_program_arguments : ℕ
max_program_arguments = 16

abbrev pub max_program_argument_bytes : ℕ
max_program_argument_bytes = 1024

abbrev pub user_stack_argument_reserve : ℕ
user_stack_argument_reserve = 256

-- `Err(InvalidArguments)`, or the panic of a slice out of range.
pub data VectorError : Type 0 where
  invalid_arguments panics : VectorError

abbrev pub and_then {ℓ κ} :
    {A : Type ℓ} {B : Type κ}
    → Result A VectorError
    → (A → Result B VectorError)
    → Result B VectorError
and_then (err e) f = err e
and_then (ok a) f = f a

-- The `?` on an `ok_or(InvalidArguments)`.
abbrev pub valid {ℓ κ} :
    {A : Type ℓ} {B : Type κ} → Option A → (A → Result B VectorError) → Result B VectorError
valid none f = err invalid_arguments
valid (some a) f = f a

abbrev pub has_zero : List ℕ → Bool
has_zero [] = false
has_zero (byte ∷ bytes) = (byte == 0) || has_zero bytes

abbrev pub any_zero : List (List ℕ) → Bool
any_zero [] = false
any_zero (s ∷ ss) = has_zero s || any_zero ss

-- The fold over the arguments.
pub add_lengths : Option ℕ → List (List ℕ) → Option ℕ
add_lengths total [] = total
add_lengths total (s ∷ ss) =
    add_lengths (total >>= λ t. checked_add t (length s) >>= λ u. checked_add u 1) ss

-- `data[first..first + len].copy_from_slice(bytes)`, for `len` bytes.
pub put_range : ℕ → List ℕ → List ℕ → Result (List ℕ) VectorError
put_range first bytes xs =
    if leb (first + length bytes) (length xs)
    then ok (take first xs ++ (bytes ++ drop (first + length bytes) xs))
    else err panics

-- The loop over the strings from `index` on, the next of which goes to `string_offset`.
pub write_strings : ℕ → ℕ → ℕ → List (List ℕ) → List ℕ → Result (List ℕ) VectorError
unfolding put_range
write_strings stack_start index string_offset [] vector = ok vector
write_strings stack_start index string_offset (s ∷ ss) vector =
    valid (checked_add stack_start string_offset) λ string_address.
      valid (checked_mul index 8) λ pointer_offset.
        and_then (put_range pointer_offset (to_le_bytes 8 string_address) vector) λ pointed.
          valid (checked_add string_offset (length s)) λ string_end.
            and_then (put_range string_offset s pointed)
              λ written. write_strings stack_start (suc index) (string_end + 1) ss written

-- `reserves` tells whether `try_reserve_exact` succeeds.
pub fill_vector : (ℕ → Bool) → List (List ℕ) → ℕ → ℕ → ℕ → Result (List ℕ) VectorError
unfolding write_strings
fill_vector reserves strings pointer_bytes total_size stack_start =
    if reserves total_size
    then write_strings stack_start 0 pointer_bytes strings (replicate total_size 0)
    else err invalid_arguments

-- The sizes; a size in bytes is rounded up to a multiple of 8.
pub size_vector : (ℕ → Bool) → List (List ℕ) → ℕ → ℕ → Result (List ℕ) VectorError
unfolding fill_vector
size_vector reserves strings pointer_bytes strings_bytes =
    if ltb max_program_argument_bytes strings_bytes
    then err invalid_arguments
    else valid (checked_add pointer_bytes strings_bytes >>= λ n. checked_add n 7) λ padded.
      (let total_size = padded - padded % 8 in
        if ltb user_stack_size total_size
        then err invalid_arguments
        else valid
            (checked_sub user_stack_top user_stack_argument_reserve >>= λ address.
              checked_sub address total_size)
            λ stack_start. fill_vector reserves strings pointer_bytes total_size stack_start)

-- The vector and the argument count.
pub build_argument_vector : (ℕ → Bool) → List ℕ → List (List ℕ) → Result (List ℕ × ℕ) VectorError
unfolding size_vector add_lengths
build_argument_vector reserves path arguments =
    if ltb max_program_arguments (length arguments) || has_zero path || any_zero arguments
    then err invalid_arguments
    else valid (checked_add (length arguments) 1) λ argument_count.
      valid (checked_add argument_count 1 >>= λ count. checked_mul count 8) λ pointer_bytes.
        valid (add_lengths (checked_add (length path) 1) arguments) λ strings_bytes.
          and_then (size_vector reserves (path ∷ arguments) pointer_bytes strings_bytes)
            λ vector. ok (vector, argument_count)
