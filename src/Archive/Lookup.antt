-- ===== src/Archive/Lookup.antt =====
-- The search of `read_file` of fs/mod.rs through the archive.
use leaf_os_alpha.Base.{
  ℕ, zero, suc, ◌+◌, ◌-◌, ◌≡◌, ◌≤◌, ◌<◌, refl, sym, ap, ap₂, subst, true, false, ◌&&◌, not, Option,
  none, some, List, [], ◌∷◌, arith, if◌then◌else◌, length, Result, ok, err, Bool-cases, inl, inr,
}
use leaf_os_alpha.Program.{bytes_eq}
use leaf_os_alpha.Archive.{FsError, TarEntry, safe_path, entry_at, on_entry, read_loop, read_file}
use leaf_os_alpha.Archive.Entries.{entry_at-IsEntry}

bytes_eq-same : (xs ys : List ℕ) → bytes_eq xs ys ≡ true → xs ≡ ys
bytes_eq-same [] [] h = refl
bytes_eq-same (x ∷ xs) (y ∷ ys) h =
    let e : x ≡ y = ground arith in
    ap₂ (λ (z : ℕ) zs. z ∷ zs) e (bytes_eq-same xs ys (ground arith))
bytes_eq-same [] (y ∷ ys) h = cc
bytes_eq-same (x ∷ xs) [] h = cc

bytes_eq_refl : (xs : List ℕ) → bytes_eq xs xs ≡ true
bytes_eq_refl [] = refl
bytes_eq_refl (x ∷ xs) = ground (arith, bytes_eq_refl xs)

-- The file of that name.
abbrev pub IsFile : List ℕ → TarEntry → Type 0
IsFile name e = (e.is_dir ≡ false) × (e.name ≡ name)

-- The entries from one offset up to another, each of which starts where the one before says, and none
-- of which is the file.
pub data Passes (archive name : List ℕ) : ℕ → ℕ → Type 0 where
  here : {offset : ℕ} → Passes archive name offset offset
  passes :
      {offset target : ℕ} (e : TarEntry)
      → entry_at archive offset ≡ ok (some e)
      → ¬ (IsFile name e)
      → Passes archive name e.next_offset target
      → Passes archive name offset target

-- Where an answer to a search from an offset comes from: the first file of that name, the end of the
-- entries, or an invalid entry, with no such file before it.
abbrev pub AnswersFrom : List ℕ → List ℕ → ℕ → Result (Option (List ℕ)) FsError → Type 0
AnswersFrom archive name offset (ok (some contents)) =
    (target : ℕ) × (e : TarEntry) × Passes archive name offset target
    × (entry_at archive target ≡ ok (some e))
    × IsFile name e
    × (contents ≡ e.contents)
AnswersFrom archive name offset (ok none) =
    (target : ℕ) × Passes archive name offset target × (entry_at archive target ≡ ok none)
AnswersFrom archive name offset (err error) =
    (target : ℕ) × Passes archive name offset target × (entry_at archive target ≡ err error)

module _ (archive name : List ℕ) where
  abbrev IsAnswered : ℕ → Option (Result (Option (List ℕ)) FsError) → Type 0
  IsAnswered offset o =
      (r : Result (Option (List ℕ)) FsError) × (o ≡ some r) × AnswersFrom archive name offset r

  -- An entry more in front.
  after :
      (offset : ℕ) (e : TarEntry) (r : Result (Option (List ℕ)) FsError)
      → entry_at archive offset ≡ ok (some e)
      → ¬ (IsFile name e)
      → AnswersFrom archive name e.next_offset r
      → AnswersFrom archive name offset r
  after offset e (ok (some contents)) eq other (target, f, p, at, is, same) =
      (target, f, passes e eq other p, at, is, same)
  after offset e (ok none) eq other (target, p, at) = (target, passes e eq other p, at)
  after offset e (err error) eq other (target, p, at) = (target, passes e eq other p, at)

  no-IsFile : (e : TarEntry) → (not e.is_dir && bytes_eq e.name name) ≡ false → ¬ (IsFile name e)
  no-IsFile e t (dir, same) =
      let b : bytes_eq e.name name ≡ true =
        subst (λ n. bytes_eq e.name n ≡ true) same (bytes_eq_refl e.name) in
      absurd (ground arith)

  on_entry-IsAnswered :
      (offset : ℕ) (rest : ℕ → Option (Result (Option (List ℕ)) FsError))
      → ((next : ℕ) → offset < next → next ≤ length archive → IsAnswered next (rest next))
      → (r : Result (Option TarEntry) FsError) → entry_at archive offset ≡ r
      → IsAnswered offset (on_entry name rest r)
  on_entry-IsAnswered offset rest h (err error) eq = (err error, refl, (offset, here, eq))
  on_entry-IsAnswered offset rest h (ok none) eq = (ok none, refl, (offset, here, eq))
  on_entry-IsAnswered offset rest h (ok (some e)) eq =
      elim (Bool-cases (not e.is_dir && bytes_eq e.name name)) [
        | inl t ↦
            subst (IsAnswered offset)
              (sym (ap (λ b. if b then some (ok (some e.contents)) else rest e.next_offset) t))
              (
                ok (some e.contents),
                refl,
                (
                  offset,
                  e,
                  here,
                  eq,
                  (ground arith, bytes_eq-same e.name name (ground arith)),
                  refl,
                ),
              )
        | inr t ↦
            let (within, safe) = entry_at-IsEntry archive offset e eq in
            let (r, found, answers) = h e.next_offset (omega arith) (omega arith) in
            subst (IsAnswered offset)
              (sym (ap (λ b. if b then some (ok (some e.contents)) else rest e.next_offset) t))
              (r, found, after offset e r eq (no-IsFile e t) answers)
      ]

  read_loop-IsAnswered :
      (fuel offset : ℕ)
      → length archive - offset < fuel
      → IsAnswered offset (read_loop archive name fuel offset)
  unfolding read_loop
  read_loop-IsAnswered zero offset h = ground arith
  read_loop-IsAnswered (suc fuel) offset h =
      on_entry-IsAnswered offset (λ next. read_loop archive name fuel next)
        (λ next a b. read_loop-IsAnswered fuel next (omega arith)) (entry_at archive offset) refl

  -- Reading a safe path ends, whatever bytes the archive has. The entries are gone through from the
  -- start of the archive, each where the one before says. Contents are those of the first entry that is
  -- no directory and has just that path as its name; if there are none, the end of the entries was
  -- reached without such an entry; and an error is that of an entry that is invalid, with no such entry
  -- before it.
  pub read_file-Answers :
      safe_path name false ≡ true
      → (r : Result (Option (List ℕ)) FsError) × (read_file (ok archive) name ≡ some r)
        × AnswersFrom archive name 0 r
  unfolding read_file
  read_file-Answers safe =
      subst (IsAnswered 0)
        (sym (
          ap (λ b. if b then read_loop archive name (length archive + 1) 0 else some (ok none))
            safe))
        (read_loop-IsAnswered (length archive + 1) 0 (omega arith))
