-- ===== src/Archive/Tests.antt =====
-- Runs on an archive with one file, "a", of three bytes.
use leaf_os_alpha.Base.{
  ℕ, ◌≡◌, refl, true, false, Option, some, List, [], ◌∷◌, ◌++◌, replicate, Result, ok,
}
use leaf_os_alpha.Archive.{
  TarEntry, FsError, safe_path, field, entry_in, entry_at, is_ustar, read_file,
}
use leaf_os_alpha.Archive.Entries.{IsEntry, entry_at-IsEntry}
use leaf_os_alpha.Archive.Lookup.{AnswersFrom, read_file-Answers}

abbrev name : List ℕ
name = 0x61 ∷ []

-- The name, the size, the checksum, the type and "ustar".
abbrev header : List ℕ
header =
    name
    ++ replicate 123 0
    ++ (0x33 ∷ replicate 23 0)
    ++ (0x31 ∷ 0x37 ∷ 0x36 ∷ 0x33 ∷ 0 ∷ 0 ∷ 0 ∷ 0 ∷ 0x30 ∷ replicate 100 0)
    ++ (0x75 ∷ 0x73 ∷ 0x74 ∷ 0x61 ∷ 0x72 ∷ replicate 250 0)

abbrev contents : List ℕ
contents = 1 ∷ 2 ∷ 3 ∷ []

abbrev archive : List ℕ
archive = header ++ (contents ++ replicate 1021 0)

abbrev entry : TarEntry
entry = record { name = name; contents = contents; next_offset = 1024; is_dir = false }

found : entry_at archive 0 ≡ ok (some entry)
unfolding entry_at entry_in is_ustar field
found = refl

safe : safe_path name false ≡ true
unfolding safe_path
safe = refl

entry_at-IsEntry_example : IsEntry archive 512 entry
entry_at-IsEntry_example = entry_at-IsEntry archive 0 entry found

read_file-Answers_example :
    (r : Result (Option (List ℕ)) FsError) × (read_file (ok archive) name ≡ some r)
    × AnswersFrom archive name 0 r
read_file-Answers_example = read_file-Answers archive name safe
