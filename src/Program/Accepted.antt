-- ===== src/Program/Accepted.antt =====
-- What is known of an `.app` image that is accepted (user_program.rs).

use leaf_os_alpha.Base.{
  ℕ, ◌+◌, ◌≡◌, ◌≤◌, ◌<◌, refl, sym, ap, subst, ◌∙◌, true, ◌||◌, not, Option, none, some, List, ◌++◌,
  arith, ◌==◌, ltb, length, length-take, length-drop, take, drop, drop-add, take-append-drop,
  Result, ok, err, word, Bool-cases, inl, inr,
}
use leaf_os_alpha.Program.{
  ImageError, AppLayout, Segments, app_version, app_header_size, get_range, read_number, is_number,
  has_magic, check_file, check_offset, check_memory, check_sizes, parse_sizes, parse_version,
  parse_app_image, app_data, app_parsed, load_app_image,
}
use leaf_os_alpha.Program.Header.{get_range-inside, take_whole}

-- What a layout that is accepted says of the image's length.
abbrev IsFit : ℕ → AppLayout → Type 0
IsFit n l =
    (l.entry_offset < l.code_len)
    × (l.code_len + l.data_len + l.bss_len ≤ 65536)
    × (l.data_offset ≡ 48 + l.code_len)
    × (48 + l.code_len + l.data_len ≡ n)

check_sizes-IsFit : (n e c d b : ℕ) (l : AppLayout) → check_sizes n e c d b ≡ ok l → IsFit n l
unfolding check_sizes check_memory check_offset check_file
check_sizes-IsFit n e c d b l h = ground arith

parse_sizes-IsFit :
    (xs : List ℕ) (e c d b : Option ℕ) (l : AppLayout)
    → parse_sizes xs e c d b ≡ ok l
    → IsFit (length xs) l
unfolding parse_sizes
parse_sizes-IsFit xs (some e) (some c) (some d) (some b) l h =
    check_sizes-IsFit (length xs) e c d b l h
parse_sizes-IsFit xs none c d b l h = cc
parse_sizes-IsFit xs (some e) none d b l h = cc
parse_sizes-IsFit xs (some e) (some c) none b l h = cc
parse_sizes-IsFit xs (some e) (some c) (some d) none l h = cc

parse_version-IsFit :
    (xs : List ℕ) (o : Option ℕ) (l : AppLayout) → parse_version xs o ≡ ok l → IsFit (length xs) l
unfolding parse_version
parse_version-IsFit xs none l h = cc
parse_version-IsFit xs (some v) l h = elim (Bool-cases (not (v == app_version))) [
  | inl e ↦ absurd (ground arith)
  | inr e ↦
      elim (Bool-cases (
        not (is_number (read_number 2 xs 10) app_header_size)
        || not (is_number (read_number 4 xs 12) 0))) [
          | inl f ↦ absurd (ground arith)
          | inr f ↦
              parse_sizes-IsFit xs (read_number 8 xs 16) (read_number 8 xs 24) (read_number 8 xs 32)
                (read_number 8 xs 40) l (rw (e, f) at h)
        ]
]

parse_app_image-IsFit :
    (xs : List ℕ) (l : AppLayout) → parse_app_image xs ≡ ok l → IsFit (length xs) l
unfolding parse_app_image
parse_app_image-IsFit xs l h =
    elim (Bool-cases (ltb (length xs) app_header_size || not (has_magic xs))) [
      | inl e ↦ absurd (ground arith)
      | inr e ↦ parse_version-IsFit xs (read_number 2 xs 8) l (rw e at h)
    ]

-- The parts of an image that is loaded.
abbrev pub Accepts : List ℕ → Segments → Type 0
Accepts xs s =
    (s.entry_offset < length s.code)
    × (length s.code + length s.data_bytes + s.bss_len ≤ 65536)
    × (drop 48 xs ≡ s.code ++ s.data_bytes)

-- The slices of an accepted layout.
app_parsed-Accepts :
    (xs : List ℕ) (s : Segments) (l : AppLayout)
    → IsFit (length xs) l
    → app_parsed xs (ok l) ≡ ok s
    → Accepts xs s
unfolding app_parsed app_data
app_parsed-Accepts xs s l (entered, fits, at, whole) h = subst (Accepts xs) loaded (
  omega (arith, code_len),
  omega (arith, code_len, data_len),
  sym (take-append-drop l.code_len (drop 48 xs)) ∙ ap (λ ys. code ++ ys) (sym rest),
)
  where
    code : List ℕ
    code = take l.code_len (drop 48 xs)

    rest_of : List ℕ
    rest_of = take l.data_len (drop l.data_offset xs)

    code_len : length code ≡ l.code_len
    code_len = omega (arith, length-take l.code_len (drop 48 xs), length-drop 48 xs)

    data_len : length rest_of ≡ l.data_len
    data_len =
        omega (arith, length-take l.data_len (drop l.data_offset xs), length-drop l.data_offset xs)

    rest : rest_of ≡ drop l.code_len (drop 48 xs)
    rest =
        ap (λ n. take n (drop l.data_offset xs)) (omega (arith, length-drop l.data_offset xs))
        ∙ take_whole (drop l.data_offset xs)
        ∙ ap (λ n. drop n xs) at
        ∙ drop-add 48 l.code_len xs

    loaded :
        record {
          code = code;
          data_bytes = rest_of;
          bss_len = l.bss_len;
          entry_offset = l.entry_offset;
        }
        ≡ s
    loaded =
        let a : get_range xs 48 l.data_offset ≡ some code =
          get_range-inside xs 48 l.data_offset (omega arith)
          ∙ ap (λ n. some (take n (drop 48 xs))) (omega arith) in
        let b : ltb (l.data_offset + l.data_len) word ≡ true = ground arith in
        let c : get_range xs l.data_offset (l.data_offset + l.data_len) ≡ some rest_of =
          get_range-inside xs l.data_offset (l.data_offset + l.data_len) (omega arith)
          ∙ ap (λ n. some (take n (drop l.data_offset xs))) (omega arith) in
        let q : ok _ ≡ ok s = rw (a, b, c) at h in cc

-- An `.app` image that is loaded has its entry in its code; its code, its data and its zeroed memory
-- together fill at most 64 KiB; and after the header of 48 bytes it consists of the code and the data,
-- with nothing left over.
pub load_app_image-Accepts : (xs : List ℕ) (s : Segments) → load_app_image xs ≡ ok s → Accepts xs s
unfolding load_app_image
load_app_image-Accepts xs s h = go (parse_app_image xs) refl h
  where
    go :
        (r : Result AppLayout ImageError)
        → parse_app_image xs ≡ r
        → app_parsed xs r ≡ ok s
        → Accepts xs s
    go (err e) p q = cc
    go (ok l) p q = app_parsed-Accepts xs s l (parse_app_image-IsFit xs l p) q
