-- ===== src/Archive.antt =====
-- fs/mod.rs: the read-only USTAR archive. The archive, a path and a name are the lists of their bytes;
-- `usize` has 64 bits.
pub mod Entries
pub mod Lookup
mod Tests
use mathlib.Core.Option
use leaf_os_alpha.Base.{
  ℕ, zero, suc, ◌+◌, ◌-◌, ◌*◌, ◌/◌, Bool, true, false, ◌&&◌, ◌||◌, not, Option, none, some, List,
  [], ◌∷◌, ◌++◌, if◌then◌else◌, ◌==◌, ltb, leb, length, take, drop, Result, ok, err, ok_or,
  checked_add, checked_mul, ◌>>=◌,
}
use leaf_os_alpha.Program.{bytes_eq, get_range}

abbrev pub block_size : ℕ
block_size = 512

abbrev pub max_path_len : ℕ
max_path_len = 255

abbrev pub max_component_len : ℕ
max_component_len = 100

pub data FsError : Type 0 where
  missing_archive invalid_archive too_many_files not_initialized : FsError

-- `name` holds the first `name_len` bytes of the array.
pub record TarEntry : Type 0 where
  pub name : List ℕ
  pub contents : List ℕ
  pub next_offset : ℕ
  pub is_dir : Bool

-- What `octal` does on a byte.
pub data OctalStep : Type 0 where
  skips stops fails : OctalStep
  takes : ℕ → OctalStep

abbrev pub octal_step : ℕ → Bool → OctalStep
octal_step byte started =
    if ((byte == 0x20) || (byte == 0)) && not started
    then skips
    else (if leb 0x30 byte && leb byte 0x37
        then takes (byte - 0x30)
        else (if (byte == 0x20) || (byte == 0) then stops else fails))

-- `rest` is the loop over the bytes that follow.
abbrev pub on_step : OctalStep → ℕ → (Bool → ℕ → Option ℕ) → Option ℕ
on_step skips value rest = rest false value
on_step stops value rest = some value
on_step fails value rest = none
on_step (takes digit) value rest =
    checked_mul value 8 >>= λ shifted. checked_add shifted digit >>= λ next. rest true next

abbrev pub octal_loop : List ℕ → Bool → ℕ → Option ℕ
octal_loop [] started value = some value
octal_loop (byte ∷ bytes) started value =
    on_step (octal_step byte started) value (λ s v. octal_loop bytes s v)

pub octal : List ℕ → Option ℕ
octal bytes = octal_loop bytes false 0

abbrev pub cons_first : ℕ → List (List ℕ) → List (List ℕ)
cons_first byte [] = (byte ∷ []) ∷ []
cons_first byte (xs ∷ xss) = (byte ∷ xs) ∷ xss

-- `path.split(|byte| *byte == b'/')`
abbrev pub split_path : List ℕ → List (List ℕ)
split_path [] = [] ∷ []
split_path (byte ∷ path) =
    let rest = split_path path in if byte == 0x2f then [] ∷ rest else cons_first byte rest

abbrev pub name_byte : ℕ → Bool
name_byte byte =
    (leb 0x30 byte && leb byte 0x39)
    || (leb 0x41 byte && leb byte 0x5a)
    || (leb 0x61 byte && leb byte 0x7a)
    || (byte == 0x2e)
    || (byte == 0x5f)
    || (byte == 0x2d)

abbrev pub name_bytes : List ℕ → Bool
name_bytes [] = true
name_bytes (byte ∷ bytes) = name_byte byte && name_bytes bytes

abbrev pub safe_component : List ℕ → Bool
safe_component component =
    not (length component == 0)
    && leb (length component) max_component_len
    && not (bytes_eq component (0x2e ∷ []))
    && not (bytes_eq component (0x2e ∷ 0x2e ∷ []))
    && name_bytes component

abbrev pub safe_components : List (List ℕ) → Bool
safe_components [] = true
safe_components (component ∷ components) = safe_component component && safe_components components

pub safe_path : List ℕ → Bool → Bool
safe_path path allow_empty =
    if length path == 0 then allow_empty else safe_components (split_path path)

pub field : List ℕ → List ℕ
field [] = []
field (byte ∷ bytes) = let rest = field bytes in if byte == 0 then [] else byte ∷ rest

-- `header[first..last]` of a header, which has 512 bytes.
abbrev pub header_range : List ℕ → ℕ → ℕ → List ℕ
header_range header first last = take (last - first) (drop first header)

abbrev pub all_zero : List ℕ → Bool
all_zero [] = true
all_zero (byte ∷ bytes) = (byte == 0) && all_zero bytes

-- The sum over the bytes from `index` on.
pub checksum_from : List ℕ → ℕ → ℕ
checksum_from [] index = 0
checksum_from (byte ∷ header) index =
    (if leb 148 index && ltb index 156 then 0x20 else byte) + checksum_from header (suc index)

-- The checksum and the magic number "ustar".
abbrev pub is_ustar : List ℕ → ℕ → Bool
unfolding checksum_from
is_ustar header expected_checksum =
    (checksum_from header 0 == expected_checksum)
    && bytes_eq (header_range header 257 262) (0x75 ∷ 0x73 ∷ 0x74 ∷ 0x61 ∷ 0x72 ∷ [])

-- Is the entry of this type a directory?
abbrev pub entry_type : List ℕ → Option Bool
entry_type [] = none
entry_type (byte ∷ bytes) =
    if (byte == 0) || (byte == 0x30) then some false else (if byte == 0x35 then some true else none)

abbrev pub ends_in_slash : List ℕ → Bool
ends_in_slash [] = false
ends_in_slash (byte ∷ []) = byte == 0x2f
ends_in_slash (_ ∷ byte ∷ bytes) = ends_in_slash (byte ∷ bytes)

-- A slash at the end is taken off.
pub checked_name : Bool → List ℕ → Option (List ℕ)
unfolding safe_path
checked_name is_dir full_name =
    if ends_in_slash full_name
    then (if not is_dir
        then none
        else (if safe_path (take (length full_name - 1) full_name) false
            then some (take (length full_name - 1) full_name)
            else none))
    else (if safe_path full_name false then some full_name else none)

pub entry_name : Bool → List ℕ → List ℕ → Option (List ℕ)
unfolding checked_name
entry_name is_dir name prefix =
    if length name == 0
    then none
    else (checked_add (length prefix) (if length prefix == 0 then 0 else 1) >>= λ length_so_far.
        checked_add length_so_far (length name) >>= λ raw_len.
        (if ltb max_path_len raw_len
          then none
          else checked_name is_dir (if length prefix == 0 then name else prefix ++ (0x2f ∷ name))))

-- The contents of the entry, after its header, and the rest of its last block.
pub entry_contents : List ℕ → ℕ → Bool → List ℕ → ℕ → Option TarEntry
entry_contents archive data_start is_dir name size =
    if is_dir && not (size == 0)
    then none
    else (checked_add size (block_size - 1) >>= λ padded.
        checked_add data_start size >>= λ data_end.
        checked_add data_start (padded / block_size * block_size) >>= λ next_offset.
        get_range archive data_start data_end >>= λ contents.
        (if ltb (length archive) next_offset
          then none
          else some (record {
            name = name;
            contents = contents;
            next_offset = next_offset;
            is_dir = is_dir;
          })))

-- Every failure is `InvalidArchive`.
pub entry_in : List ℕ → List ℕ → ℕ → Option TarEntry
unfolding octal entry_name entry_contents
entry_in archive header header_end = octal (header_range header 148 156) >>= λ expected_checksum.
    (if not (is_ustar header expected_checksum)
      then none
      else (entry_type (header_range header 156 157) >>= λ is_dir.
          entry_name is_dir (field (take 100 header)) (field (header_range header 345 500))
          >>= λ name. octal (header_range header 124 136) >>= λ size.
              entry_contents archive header_end is_dir name size))

abbrev pub entry_after : List ℕ → ℕ → List ℕ → Option (Option TarEntry)
entry_after archive header_end header =
    if all_zero header then some none else Option.map some (entry_in archive header header_end)

pub entry_at : List ℕ → ℕ → Result (Option TarEntry) FsError
entry_at archive offset =
    ok_or
      (checked_add offset block_size >>= λ header_end.
        get_range archive offset header_end >>= λ header. entry_after archive header_end header)
      invalid_archive

-- A round of the loop of `read_file`, with the rounds that follow from an offset on.
abbrev pub on_entry :
    List ℕ
    → (ℕ → Option (Result (Option (List ℕ)) FsError))
    → Result (Option TarEntry) FsError
    → Option (Result (Option (List ℕ)) FsError)
on_entry name rest (err e) = some (err e)
on_entry name rest (ok none) = some (ok none)
on_entry name rest (ok (some entry)) =
    if not entry.is_dir && bytes_eq entry.name name
    then some (ok (some entry.contents))
    else rest entry.next_offset

-- The loop, on fuel.
pub read_loop : List ℕ → List ℕ → ℕ → ℕ → Option (Result (Option (List ℕ)) FsError)
read_loop archive name zero offset = none
read_loop archive name (suc fuel) offset =
    on_entry name (λ next. read_loop archive name fuel next) (entry_at archive offset)

-- An archive that is not there, or was not valid, is its error.
pub read_file : Result (List ℕ) FsError → List ℕ → Option (Result (Option (List ℕ)) FsError)
read_file (err e) name = if safe_path name false then some (err e) else some (ok none)
read_file (ok archive) name =
    if safe_path name false then read_loop archive name (length archive + 1) 0 else some (ok none)
