-- ===== src/Memory/Space/Ranges.antt =====
-- User address ranges that memory/mod.rs accepts.
use leaf_os_alpha.Base.{
  ℕ, zero, suc, ◌+◌, ◌-◌, ◌*◌, ◌/◌, ◌^◌, ◌≡◌, ◌≤◌, ◌<◌, refl, subst, Bool, true, false, ◌||◌,
  Option, none, some, arith, ◌==◌, ltb, leb, checked_add, word, Bool-cases, Option-cases, inl, inr,
  ok,
}
use leaf_os_alpha.Memory.Space.{
  AddressSpace, UserPageAccess, is_read_write, user_page_access, page_error, page_of, range_error,
  is_root, validate_pages, validate_from, validate_user_range,
}

-- The page is mapped, and may be written to if asked.
abbrev pub Allows : AddressSpace → Bool → ℕ → Type 0
Allows space writable page =
    (access : UserPageAccess) × (user_page_access space page ≡ some access)
    × (writable ≡ true → is_read_write access ≡ true)

page_error-none :
    (writable : Bool) (o : Option UserPageAccess)
    → page_error writable o ≡ none
    → (access : UserPageAccess) × (o ≡ some access)
      × (writable ≡ true → is_read_write access ≡ true)
unfolding page_error
page_error-none writable none e = cc
page_error-none writable (some access) e = (access, refl, λ w. ground arith)

-- Where the loop finds no error, it has found each page before the end that it came to.
range_error-none :
    (space : AddressSpace) (writable : Bool) (end n first k : ℕ)
    → range_error space writable end n first ≡ none
    → k < n
    → first + k * 4096 < end
    → Allows space writable (first + k * 4096)
unfolding range_error
range_error-none space writable end zero first k e h l = absurd (omega arith)
range_error-none space writable end (suc n) first k e h l =
    elim (Option-cases (page_error writable (user_page_access space first))) [
      | inr (x, t) ↦
          let below : ltb first end ≡ true = ground arith in
          let y = rw (below, t, range_error) at e in cc
      | inl t ↦ elim (Bool-cases (k == 0)) [
        | inl z ↦
            let same : first ≡ first + k * 4096 = ground arith in
            subst (Allows space writable) same
              (page_error-none writable (user_page_access space first) t)
        | inr z ↦
            let same : first + 4096 + (k - 1) * 4096 ≡ first + k * 4096 = ground arith in
            subst (Allows space writable) same (
              range_error-none space writable end n (first + 4096) (k - 1) (next t) (ground arith)
                (ground arith))
      ]
    ]
  where
    below : ltb first end ≡ true
    below = ground arith

    next :
        page_error writable (user_page_access space first) ≡ none
        → range_error space writable end n (first + 4096) ≡ none
    next t = elim (Option-cases (checked_add first 4096)) [
      | inl u ↦ let y = rw (below, t, u, range_error) at e in cc
      | inr (x, u) ↦ rw (below, t, u, range_error) at e
    ]

validate_pages-ok :
    (space : AddressSpace) (active : ℕ) (writable : Bool) (start end : ℕ)
    → validate_pages space active writable start end ≡ ok tt
    → (is_root space.root active ≡ true)
      × ((b : ℕ) → start ≤ b → b < end → Allows space writable (page_of b))
unfolding validate_pages
validate_pages-ok space active writable start end h =
    elim (Option-cases
      (range_error space writable end ((end - page_of start + 4095) / 4096) (page_of start))) [
        | inr (x, t) ↦ let y = rw (t, validate_pages) at h in cc
        | inl t ↦ elim (Bool-cases (is_root space.root active)) [
          | inr u ↦ let y = rw (t, u, validate_pages) at h in cc
          | inl u ↦ (
            u,
            λ b l k.
                let round = (b - page_of start) / 4096 in
                let same : page_of start + (b - page_of start) / 4096 * 4096 ≡ page_of b =
                  omega arith in
                subst (Allows space writable) same (
                  range_error-none space writable end ((end - page_of start + 4095) / 4096)
                    (page_of start) ((b - page_of start) / 4096) t (omega arith) (omega arith)),
          )
        ]
      ]

validate_from-ok :
    (space : AddressSpace) (active : ℕ) (writable : Bool) (o : Option ℕ) (length : ℕ)
    → validate_from space active writable o length ≡ ok tt
    → (start : ℕ) × (o ≡ some start)
      × (255 * 2 ^ 39 ≤ start)
      × (start + length ≤ 256 * 2 ^ 39)
      × (validate_pages space active writable start (start + length) ≡ ok tt)
unfolding validate_from
validate_from-ok space active writable none length h = cc
validate_from-ok space active writable (some start) length h =
    elim (Bool-cases (ltb (start + length) word)) [
      | inr u ↦ let y = rw (u, validate_from) at h in cc
      | inl u ↦
          elim (Bool-cases (
            ltb start (255 * 2 ^ 39)
            || ltb (256 * 2 ^ 39) (start + length)
            || leb (start + length) start)) [
              | inl v ↦ let y = rw (u, v, validate_from) at h in cc
              | inr v ↦ (start, refl, ground arith, ground arith, rw (u, v, validate_from) at h)
            ]
    ]

-- If a range that is not empty is accepted, the address space is the active one, and each byte of the
-- range lies in the user part of the addresses and on a page that is mapped in it, and that may be
-- written to if the range is to be written. This holds where `try_new` gives the address back.
pub validate-Allows :
    (try_new : ℕ → Option ℕ) (space : AddressSpace) (active address length : ℕ) (writable : Bool)
    → ((a b : ℕ) → try_new a ≡ some b → b ≡ a)
    → 0 < length
    → validate_user_range try_new space active address length writable ≡ ok tt
    → (is_root space.root active ≡ true)
      × ((b : ℕ)
          → address ≤ b
          → b < address + length
          → (255 * 2 ^ 39 ≤ b) × (b < 256 * 2 ^ 39) × Allows space writable (page_of b))
unfolding validate_user_range
validate-Allows try_new space active address length writable same h e =
    let some_bytes : (length == 0) ≡ false = ground arith in
    let (start, f, lo, hi, pages) =
      validate_from-ok space active writable (try_new address) length
        (rw (some_bytes, validate_user_range) at e) in
    let at : start ≡ address = same address start f in
    let (root, all) = validate_pages-ok space active writable start (start + length) pages in
    (root, λ b l k. (omega arith, omega arith, all b (omega arith) (omega arith)))
