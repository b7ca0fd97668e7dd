-- ===== src/Program/Header.antt =====
-- The header of an `.app` image (user_program.rs): what is read of an image that was put together,
-- and what is known of an image that is accepted.

use leaf_os_alpha.Base.{
  ℕ, zero, suc, ◌+◌, ◌-◌, ◌/◌, ◌^◌, ◌≡◌, ◌≤◌, ◌<◌, refl, ap, ◌∙◌, true, false, some, List, [], ◌∷◌,
  ◌++◌, arith, ◌==◌, ltb, leb, length, length-append, take, drop, drop-add, ok, word,
}
use leaf_os_alpha.Program.{
  to_le_bytes, AppLayout, app_magic, from_le_bytes, get_range, read_number, has_magic, check_file,
  check_offset, check_memory, check_sizes, parse_sizes, parse_version, parse_app_image, app_data,
  app_parsed, load_app_image,
}

from-to_le_bytes : (size n : ℕ) → n < 256 ^ size → from_le_bytes (to_le_bytes size n) ≡ n
from-to_le_bytes zero n h = omega arith
from-to_le_bytes (suc size) n h = omega (arith, from-to_le_bytes size (n / 256) (omega arith))

-- An image with the given parts, as `test_app_image` puts it together.
abbrev pub app_image : ℕ → List ℕ → List ℕ → ℕ → List ℕ
app_image entry_offset code data_bytes bss_len =
    app_magic
    ++ to_le_bytes 2 1
    ++ to_le_bytes 2 48
    ++ to_le_bytes 4 0
    ++ to_le_bytes 8 entry_offset
    ++ to_le_bytes 8 (length code)
    ++ to_le_bytes 8 (length data_bytes)
    ++ to_le_bytes 8 bss_len
    ++ (code ++ data_bytes)

pub get_range-inside :
    (xs : List ℕ) (a b : ℕ) → b ≤ length xs → get_range xs a b ≡ some (take (b - a) (drop a xs))
get_range-inside xs a b h = let e : leb b (length xs) ≡ true = ground arith in rw e refl

pub take_front : (xs ys : List ℕ) → take (length xs) (xs ++ ys) ≡ xs
take_front [] ys = refl
take_front (x ∷ xs) ys = ap (λ l. x ∷ l) (take_front xs ys)

pub drop_front : (xs ys : List ℕ) → drop (length xs) (xs ++ ys) ≡ ys
drop_front [] ys = refl
drop_front (x ∷ xs) ys = drop_front xs ys

pub take_whole : (xs : List ℕ) → take (length xs) xs ≡ xs
take_whole [] = refl
take_whole (x ∷ xs) = ap (λ l. x ∷ l) (take_whole xs)

-- A field whose bytes stand in the image.
field :
    (size offset n : ℕ) (xs : List ℕ)
    → offset + size ≤ length xs
    → take (offset + size - offset) (drop offset xs) ≡ to_le_bytes size n
    → n < 256 ^ size
    → read_number size xs offset ≡ some n
unfolding read_number
field size offset n xs h e bound =
    rw (get_range-inside xs offset (offset + size) h, e, from-to_le_bytes size n bound) refl

module _ (entry_offset : ℕ) (code data_bytes : List ℕ) (bss_len : ℕ)
    (entered : entry_offset < length code)
    (fits : length code + length data_bytes + bss_len ≤ 65536) where
  abbrev image : List ℕ
  image = app_image entry_offset code data_bytes bss_len

  long : length image ≡ 48 + (length code + length data_bytes)
  long = omega (arith, length-append code data_bytes)

  abbrev layout : AppLayout
  layout = record {
    entry_offset = entry_offset;
    code_len = length code;
    data_offset = 48 + length code;
    data_len = length data_bytes;
    bss_len = bss_len;
  }

  sizes :
      check_sizes (length image) entry_offset (length code) (length data_bytes) bss_len ≡ ok layout
  unfolding check_sizes check_memory check_offset check_file
  sizes =
      let a : (length code == 0) ≡ false = ground arith in
      let b : leb (length code) entry_offset ≡ false = ground arith in
      let c : ltb (length code + length data_bytes) word ≡ true = ground arith in
      let d : ltb (length code + length data_bytes + bss_len) word ≡ true = ground arith in
      let e : ltb 65536 (length code + length data_bytes + bss_len) ≡ false = ground arith in
      let f : ltb (48 + length code) word ≡ true = ground arith in
      let g : ltb (48 + length code + length data_bytes) word ≡ true = ground arith in
      let h : (48 + length code + length data_bytes == length image) ≡ true =
        ground (arith, long) in
      rw (a, b, c, d, e, f, g, h) refl

  parsed : parse_app_image image ≡ ok layout
  unfolding parse_app_image parse_version parse_sizes has_magic
  parsed =
      let a : ltb (length image) 48 ≡ false = ground (arith, long) in
      let f8 : read_number 2 image 8 ≡ some 1 =
        field 2 8 1 image (omega (arith, long)) refl (omega arith) in
      let f10 : read_number 2 image 10 ≡ some 48 =
        field 2 10 48 image (omega (arith, long)) refl (omega arith) in
      let f12 : read_number 4 image 12 ≡ some 0 =
        field 4 12 0 image (omega (arith, long)) refl (omega arith) in
      let f16 : read_number 8 image 16 ≡ some entry_offset =
        field 8 16 entry_offset image (omega (arith, long)) refl (omega arith) in
      let f24 : read_number 8 image 24 ≡ some (length code) =
        field 8 24 (length code) image (omega (arith, long)) refl (omega arith) in
      let f32 : read_number 8 image 32 ≡ some (length data_bytes) =
        field 8 32 (length data_bytes) image (omega (arith, long)) refl (omega arith) in
      let f40 : read_number 8 image 40 ≡ some bss_len =
        field 8 40 bss_len image (omega (arith, long)) refl (omega arith) in
      rw (a, f8, f10, f12, f16, f24, f32, f40) sizes

  -- An image that is put together of code, data, a size of zeroed memory and an entry offset is loaded
  -- as just these, if the entry lies in the code and all three together fill at most 64 KiB.
  pub load_app_image-app_image :
      load_app_image (app_image entry_offset code data_bytes bss_len)
      ≡ ok (record {
        code = code;
        data_bytes = data_bytes;
        bss_len = bss_len;
        entry_offset = entry_offset;
      })
  unfolding load_app_image app_parsed app_data
  load_app_image-app_image =
      let c : get_range image 48 (48 + length code) ≡ some code =
        get_range-inside image 48 (48 + length code) (omega (arith, long))
        ∙ ap (λ n. some (take n (code ++ data_bytes))) (omega arith)
        ∙ ap some (take_front code data_bytes) in
      let f : ltb (48 + length code + length data_bytes) word ≡ true = ground arith in
      let d : get_range image (48 + length code) (48 + length code + length data_bytes)
          ≡ some data_bytes =
        get_range-inside image (48 + length code) (48 + length code + length data_bytes)
          (omega (arith, long))
        ∙ ap (λ n. some (take n (drop (48 + length code) image))) (omega arith)
        ∙ ap (λ xs. some (take (length data_bytes) xs))
            (drop-add 48 (length code) image ∙ drop_front code data_bytes)
        ∙ ap some (take_whole data_bytes) in
      rw (parsed, c, f, d) refl
