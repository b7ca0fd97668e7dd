-- ===== src/Archive/Entries.antt =====
-- What is known of an entry that `entry_at` of fs/mod.rs gives.
use mathlib.Core.Option
use leaf_os_alpha.Base.{
  ℕ, ◌+◌, ◌-◌, ◌*◌, ◌/◌, ◌≡◌, ◌≤◌, refl, sym, ap, subst, ◌∙◌, Bool, true, false, ◌&&◌, not, Option,
  none, some, List, ◌∷◌, ◌++◌, arith, if◌then◌else◌, ◌==◌, ltb, leb, length, length-take,
  length-drop, take, drop, ok, ok_or, checked_add, ◌>>=◌, Bool-cases, inl, inr,
}
use leaf_os_alpha.Program.{get_range}
use leaf_os_alpha.Archive.{
  invalid_archive, TarEntry, octal, header_range, is_ustar, entry_type, safe_path, field,
  checked_name, ends_in_slash, entry_name, entry_contents, entry_in, entry_after, all_zero,
  entry_at,
}

-- An entry whose data starts at `start`: the data lie in the archive, right there, and the next entry
-- starts at the first multiple of 512 bytes behind them, and not behind the end; a directory has none.
abbrev pub IsWithin : List ℕ → ℕ → TarEntry → Type 0
IsWithin archive start e =
    (e.next_offset ≡ start + (length e.contents + 511) / 512 * 512)
    × (e.next_offset ≤ length archive)
    × (e.contents ≡ take (length e.contents) (drop start archive))
    × (e.is_dir ≡ true → length e.contents ≡ 0)

bind-some :
    {A B : Type 0} (o : Option A) (f : A → Option B) (b : B)
    → (o >>= f) ≡ some b
    → (a : A) × (o ≡ some a) × (f a ≡ some b)
bind-some none f b h = cc
bind-some (some a) f b h = (a, refl, h)

checked_add-some : (a b c : ℕ) → checked_add a b ≡ some c → c ≡ a + b
checked_add-some a b c h = ground arith

get_range-some :
    (xs ys : List ℕ) (a b : ℕ)
    → get_range xs a b ≡ some ys
    → (b ≤ length xs) × (ys ≡ take (b - a) (drop a xs))
get_range-some xs ys a b h = elim (Bool-cases (leb b (length xs))) [
  | inl e ↦ let q : some (take (b - a) (drop a xs)) ≡ some ys = rw e at h in (ground arith, cc)
  | inr e ↦ let q : none ≡ some ys = rw e at h in cc
]

entry_contents-IsWithin :
    (archive : List ℕ) (start : ℕ) (is_dir : Bool) (name : List ℕ) (size : ℕ) (e : TarEntry)
    → entry_contents archive start is_dir name size ≡ some e
    → IsWithin archive start e × (e.name ≡ name)
unfolding entry_contents
entry_contents-IsWithin archive start is_dir name size e h =
    elim (Bool-cases (is_dir && not (size == 0))) [
      | inl t ↦ let q : none ≡ some e = rw t at h in cc
      | inr t ↦
          let (padded, h1, r1) = bind-some (checked_add size 511) _ e (rw t at h) in
          let (data_end, h2, r2) = bind-some (checked_add start size) _ e r1 in
          let (next, h3, r3) = bind-some (checked_add start (padded / 512 * 512)) _ e r2 in
          let (contents, h4, r4) = bind-some (get_range archive start data_end) _ e r3 in
          last padded data_end next contents t (checked_add-some size 511 padded h1)
            (checked_add-some start size data_end h2)
            (checked_add-some start (padded / 512 * 512) next h3)
            (get_range-some archive contents start data_end h4) r4
    ]
  where
    last :
        (padded data_end next : ℕ) (contents : List ℕ)
        → (is_dir && not (size == 0)) ≡ false
        → padded ≡ size + 511
        → data_end ≡ start + size
        → next ≡ start + padded / 512 * 512
        → (data_end ≤ length archive) × (contents ≡ take (data_end - start) (drop start archive))
        → (if ltb (length archive) next
            then none
            else some
                (record { name = name; contents = contents; next_offset = next; is_dir = is_dir }))
          ≡ some e
        → IsWithin archive start e × (e.name ≡ name)
    last padded data_end next contents t a b c (d, f) g =
        elim (Bool-cases (ltb (length archive) next)) [
          | inl u ↦ let q : none ≡ some e = rw u at g in cc
          | inr u ↦
              let full : length contents ≡ size =
                ap length f
                ∙ length-take (data_end - start) (drop start archive)
                ∙ omega (arith, length-drop start archive) in
              let same : record {
                name = name;
                contents = contents;
                next_offset = next;
                is_dir = is_dir;
              }
                  ≡ e =
                let q : some _ ≡ some e = rw u at g in cc in
              let width : data_end - start ≡ length contents = omega arith in
              subst (λ (x : TarEntry). IsWithin archive start x × (x.name ≡ name)) same
                (
                  (
                    omega arith,
                    ground arith,
                    f ∙ ap (λ n. take n (drop start archive)) width,
                    λ dir. ground arith,
                  ),
                  refl,
                )
        ]

guard-some :
    {A : Type 0} (b : Bool) (a c : A) → (if b then some a else none) ≡ some c → (b ≡ true) × (a ≡ c)
guard-some true a c h = (refl, cc)
guard-some false a c h = cc

unless-some :
    {A : Type 0} (b : Bool) (o : Option A) (c : A) → (if b then none else o) ≡ some c → o ≡ some c
unless-some false o c h = h
unless-some true o c h = cc

checked_name-safe :
    (is_dir : Bool) (xs name : List ℕ)
    → checked_name is_dir xs ≡ some name
    → safe_path name false ≡ true
unfolding checked_name
checked_name-safe is_dir xs name h = elim (Bool-cases (ends_in_slash xs)) [
  | inl e ↦
      let (a, b) =
        guard-some (safe_path (take (length xs - 1) xs) false) (take (length xs - 1) xs) name
          (unless-some (not is_dir) _ name (rw e at h)) in
      subst (λ n. safe_path n false ≡ true) b a
  | inr e ↦
      let (a, b) = guard-some (safe_path xs false) xs name (rw e at h) in
      subst (λ n. safe_path n false ≡ true) b a
]

entry_name-safe :
    (is_dir : Bool) (name prefix full_name : List ℕ)
    → entry_name is_dir name prefix ≡ some full_name
    → safe_path full_name false ≡ true
unfolding entry_name
entry_name-safe is_dir name prefix full_name h =
    let (so_far, h1, r1) =
      bind-some (checked_add (length prefix) (if length prefix == 0 then 0 else 1)) _ full_name
        (unless-some (length name == 0) _ full_name h) in
    let (raw_len, h2, r2) = bind-some (checked_add so_far (length name)) _ full_name r1 in
    checked_name-safe is_dir (if length prefix == 0 then name else prefix ++ (0x2f ∷ name))
      full_name (unless-some (ltb 255 raw_len) _ full_name r2)

-- Of an entry whose data starts at `start`.
abbrev pub IsEntry : List ℕ → ℕ → TarEntry → Type 0
IsEntry archive start e = IsWithin archive start e × (safe_path e.name false ≡ true)

entry_in-IsEntry :
    (archive header : List ℕ) (start : ℕ) (e : TarEntry)
    → entry_in archive header start ≡ some e
    → IsEntry archive start e
unfolding entry_in
entry_in-IsEntry archive header start e h =
    let (sum, h1, r1) = bind-some (octal (header_range header 148 156)) _ e h in
    let (is_dir, h2, r2) =
      bind-some (entry_type (header_range header 156 157)) _ e
        (unless-some (not (is_ustar header sum)) _ e r1) in
    let (name, h3, r3) =
      bind-some (entry_name is_dir (field (take 100 header)) (field (header_range header 345 500)))
        _ e r2 in
    let (size, h4, r4) = bind-some (octal (header_range header 124 136)) _ e r3 in
    let (within, same) = entry_contents-IsWithin archive start is_dir name size e r4 in
    (
      within,
      subst (λ n. safe_path n false ≡ true) (sym same)
          (entry_name-safe is_dir (field (take 100 header)) (field (header_range header 345 500))
            name h3),
    )

ok_or-ok : {A E : Type 0} (o : Option A) (x : E) (a : A) → ok_or o x ≡ ok a → o ≡ some a
ok_or-ok none x a h = cc
ok_or-ok (some b) x a h = cc

entry_after-IsEntry :
    (archive header : List ℕ) (start : ℕ) (e : TarEntry)
    → entry_after archive start header ≡ some (some e)
    → IsEntry archive start e
entry_after-IsEntry archive header start e h = elim (Bool-cases (all_zero header)) [
  | inl t ↦ let q : some none ≡ some (some e) = rw t at h in cc
  | inr t ↦ go (entry_in archive header start) refl (rw t at h)
]
  where
    go :
        (o : Option TarEntry)
        → entry_in archive header start ≡ o
        → Option.map some o ≡ some (some e)
        → IsEntry archive start e
    go none eq q = cc
    go (some f) eq q =
        let same : f ≡ e = cc in entry_in-IsEntry archive header start e (eq ∙ ap some same)

-- An entry that is found at an offset has a safe path as its name; its data lie in the archive, right
-- behind its header of 512 bytes; the next entry starts at the first multiple of 512 bytes behind them,
-- counted from the header, and not behind the end of the archive; and a directory has no data.
pub entry_at-IsEntry :
    (archive : List ℕ) (offset : ℕ) (e : TarEntry)
    → entry_at archive offset ≡ ok (some e)
    → IsEntry archive (offset + 512) e
unfolding entry_at
entry_at-IsEntry archive offset e h =
    let (header_end, h1, r1) =
      bind-some (checked_add offset 512) _ (some e) (ok_or-ok _ invalid_archive (some e) h) in
    let (header, h2, r2) = bind-some (get_range archive offset header_end) _ (some e) r1 in
    subst (λ n. IsEntry archive n e) (checked_add-some offset 512 header_end h1)
      (entry_after-IsEntry archive header header_end e r2)
