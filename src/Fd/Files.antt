-- ===== src/Fd/Files.antt =====
-- Reading a file through its descriptor (tasking/fd.rs, `FileRead`).
use leaf_os_alpha.Base.{
  ℕ, ◌+◌, ◌≡◌, refl, sym, ap, ◌∙◌, some, List, [], ◌∷◌, ◌++◌, length, get_elem?, Result, ok, err,
  take, drop, min, get_elem?-modify, ==_refl, take-min, drop-min, take-add, drop-add, ap₂,
}
use leaf_os_alpha.Fd.{file_read, Store, FileRead, ReadError, read, read_file}

abbrev bytes_of : Result (ℕ × List ℕ) ReadError → List ℕ
bytes_of (ok (n, out)) = out
bytes_of (err e) = []

module _ {Disk : Type 0} where
  -- A series of reads of the given sizes: all bytes given, and the store left.
  pub read_series : Store Disk → ℕ → List ℕ → List ℕ × Store Disk
  read_series s i [] = ([], s)
  read_series s i (size ∷ sizes) =
      let (reply, s') = read s (file_read i) size in
      let (out, s'') = read_series s' i sizes in (bytes_of reply ++ out, s'')

-- What one read leaves of the file.
abbrev after_read : FileRead → ℕ → FileRead
after_read f size = record f { offset = f.offset + min size (length (drop f.offset f.contents)) }

unfoldable pub sum : List ℕ → ℕ
sum [] = 0
sum (n ∷ ns) = n + sum ns

module _ {Disk : Type 0} where
  read_step :
      (s : Store Disk) (i : ℕ) (f : FileRead) (size : ℕ)
      → get_elem? s.file_reads i ≡ some f
      → (bytes_of (read s (file_read i) size).0 ≡ take size (drop f.offset f.contents))
        × (get_elem? (read s (file_read i) size).1.file_reads i ≡ some (after_read f size))
  unfolding read read_file
  read_step s i f size there = (
    rw (there, read_file) (take-min size (drop f.offset f.contents)),
    rw (there, read_file) (get_elem?-modify _ i i s.file_reads ∙ rw (==_refl i, there)),
  )

  -- However a file is read through a descriptor, the bytes given are, in order, those from its offset
  -- on, as many as were asked for in all or as are left: none is lost, repeated or made up.
  pub read_series_lem :
      (sizes : List ℕ) (s : Store Disk) (i : ℕ) (f : FileRead)
      → get_elem? s.file_reads i ≡ some f
      → (read_series s i sizes).0 ≡ take (sum sizes) (drop f.offset f.contents)
  unfolding read_series sum
  read_series_lem [] s i f there = refl
  read_series_lem (size ∷ sizes) s i f there =
      let (out, left) = read_step s i f size there in
      let rest = drop f.offset f.contents in
      ap₂ ◌++◌ out (
        read_series_lem sizes (read s (file_read i) size).1 i (after_read f size) left
        ∙ ap (take (sum sizes))
            (drop-add f.offset (min size (length rest)) f.contents ∙ drop-min size rest))
      ∙ sym (take-add size (sum sizes) rest)
