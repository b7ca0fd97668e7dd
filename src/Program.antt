-- ===== src/Program.antt =====
-- user_program.rs: the format of `.app` images, and where the segments of a program go. An image is
-- the list of its bytes. `usize` has 64 bits, so `usize::try_from` of a `u64` does not fail.
pub mod Header
pub mod Accepted
pub mod Arguments
mod Tests
use mathlib.Core.Option
use leaf_os_alpha.Base.{
  ℕ, zero, suc, ◌+◌, ◌-◌, ◌*◌, ◌/◌, ◌%◌, Bool, true, false, ◌&&◌, ◌||◌, not, Option, none, some,
  List, [], ◌∷◌, if◌then◌else◌, ◌==◌, ltb, leb, length, take, drop, Result, ok, err, checked_add,
  checked_mul, checked_sub, ◌>>=◌,
}
use leaf_os_alpha.Memory.Map.{page_size}
use leaf_os_alpha.Memory.Space.{user_space_start}

abbrev pub raw_program_base : ℕ
raw_program_base = user_space_start + page_size

abbrev pub raw_program_max_size : ℕ
raw_program_max_size = 64 * 1024

-- "LEAFAPP\0"
abbrev pub app_magic : List ℕ
app_magic = 0x4c ∷ 0x45 ∷ 0x41 ∷ 0x46 ∷ 0x41 ∷ 0x50 ∷ 0x50 ∷ 0 ∷ []

abbrev pub app_version : ℕ
app_version = 1

abbrev pub app_header_size : ℕ
app_header_size = 48

abbrev pub app_max_memory_size : ℕ
app_max_memory_size = 64 * 1024

abbrev pub user_stack_size : ℕ
user_stack_size = 16 * 1024

abbrev pub user_stack_top : ℕ
user_stack_top = user_space_start + 0x200000

pub data ImageError : Type 0 where
  empty_image image_too_large invalid_app_format unsupported_app_version : ImageError

pub record AppLayout : Type 0 where
  pub entry_offset : ℕ
  pub code_len : ℕ
  pub data_offset : ℕ
  pub data_len : ℕ
  pub bss_len : ℕ

-- `u16::from_le_bytes` and its companions
abbrev pub from_le_bytes : List ℕ → ℕ
from_le_bytes [] = 0
from_le_bytes (byte ∷ bytes) = byte + 256 * from_le_bytes bytes

-- `to_le_bytes`, for a number of `size` bytes
abbrev pub to_le_bytes : ℕ → ℕ → List ℕ
to_le_bytes zero n = []
to_le_bytes (suc size) n = n % 256 ∷ to_le_bytes size (n / 256)

-- `image.get(first..last)`, for `first` at most `last`
abbrev pub get_range : List ℕ → ℕ → ℕ → Option (List ℕ)
get_range image first last =
    if leb last (length image) then some (take (last - first) (drop first image)) else none

-- A little-endian number of `size` bytes: `read_u16`, `read_u32` and `read_u64` for 2, 4 and 8.
pub read_number : ℕ → List ℕ → ℕ → Option ℕ
read_number size image offset = Option.map from_le_bytes (get_range image offset (offset + size))

abbrev pub bytes_eq : List ℕ → List ℕ → Bool
bytes_eq [] [] = true
bytes_eq (x ∷ xs) (y ∷ ys) = (x == y) && bytes_eq xs ys
bytes_eq _ _ = false

-- `o == Some(n)`
abbrev pub is_number : Option ℕ → ℕ → Bool
is_number none n = false
is_number (some m) n = m == n

pub has_magic : List ℕ → Bool
has_magic image = bytes_eq (take 8 image) app_magic

-- The checks of the sizes, from the check that the code is not empty on.
pub check_file : ℕ → AppLayout → Option ℕ → Result AppLayout ImageError
check_file image_len layout none = err invalid_app_format
check_file image_len layout (some file_size) =
    if file_size == image_len then ok layout else err invalid_app_format

pub check_offset : ℕ → ℕ → ℕ → ℕ → ℕ → Option ℕ → Result AppLayout ImageError
unfolding check_file
check_offset image_len entry_offset code_len data_len bss_len none = err invalid_app_format
check_offset image_len entry_offset code_len data_len bss_len (some data_offset) =
    check_file image_len
      (record {
        entry_offset = entry_offset;
        code_len = code_len;
        data_offset = data_offset;
        data_len = data_len;
        bss_len = bss_len;
      })
      (checked_add data_offset data_len)

pub check_memory : ℕ → ℕ → ℕ → ℕ → ℕ → Option ℕ → Result AppLayout ImageError
unfolding check_offset
check_memory image_len entry_offset code_len data_len bss_len none = err image_too_large
check_memory image_len entry_offset code_len data_len bss_len (some memory_size) =
    if ltb app_max_memory_size memory_size
    then err image_too_large
    else check_offset image_len entry_offset code_len data_len bss_len
        (checked_add app_header_size code_len)

pub check_sizes : ℕ → ℕ → ℕ → ℕ → ℕ → Result AppLayout ImageError
unfolding check_memory
check_sizes image_len entry_offset code_len data_len bss_len =
    if code_len == 0
    then err empty_image
    else (if leb code_len entry_offset
        then err invalid_app_format
        else check_memory image_len entry_offset code_len data_len bss_len
            (checked_add code_len data_len >>= λ size. checked_add size bss_len))

-- A size that cannot be read is an error of the format.
pub parse_sizes : List ℕ → Option ℕ → Option ℕ → Option ℕ → Option ℕ → Result AppLayout ImageError
unfolding check_sizes
parse_sizes image (some entry_offset) (some code_len) (some data_len) (some bss_len) =
    check_sizes (length image) entry_offset code_len data_len bss_len
parse_sizes image _ _ _ _ = err invalid_app_format

pub parse_version : List ℕ → Option ℕ → Result AppLayout ImageError
unfolding parse_sizes read_number
parse_version image none = err invalid_app_format
parse_version image (some version) =
    if not (version == app_version)
    then err unsupported_app_version
    else (if not (is_number (read_number 2 image 10) app_header_size)
          || not (is_number (read_number 4 image 12) 0)
        then err invalid_app_format
        else parse_sizes image (read_number 8 image 16) (read_number 8 image 24)
            (read_number 8 image 32) (read_number 8 image 40))

pub parse_app_image : List ℕ → Result AppLayout ImageError
unfolding parse_version has_magic read_number
parse_app_image image =
    if ltb (length image) app_header_size || not (has_magic image)
    then err invalid_app_format
    else parse_version image (read_number 2 image 8)

-- The code and the data of an image, with the sizes, as `load_app_image` and `load_raw_image` hand
-- them to `load_segments`.
pub record Segments : Type 0 where
  pub code : List ℕ
  pub data_bytes : List ℕ
  pub bss_len : ℕ
  pub entry_offset : ℕ

pub app_data : List ℕ → AppLayout → Option (List ℕ) → Option (List ℕ) → Result Segments ImageError
app_data image layout (some code) (some data_bytes) = ok (record {
  code = code;
  data_bytes = data_bytes;
  bss_len = layout.bss_len;
  entry_offset = layout.entry_offset;
})
app_data image layout _ _ = err invalid_app_format

pub app_parsed : List ℕ → Result AppLayout ImageError → Result Segments ImageError
unfolding app_data
app_parsed image (err e) = err e
app_parsed image (ok layout) =
    app_data image layout (get_range image app_header_size layout.data_offset) (
      checked_add layout.data_offset layout.data_len >>= λ data_end.
      get_range image layout.data_offset data_end)

pub load_app_image : List ℕ → Result Segments ImageError
unfolding app_parsed
load_app_image image = app_parsed image (parse_app_image image)

pub load_raw_image : List ℕ → Result Segments ImageError
load_raw_image image =
    if length image == 0
    then err empty_image
    else (if ltb raw_program_max_size (length image)
        then err image_too_large
        else ok (record { code = image; data_bytes = []; bss_len = 0; entry_offset = 0 }))
