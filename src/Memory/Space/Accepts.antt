-- ===== src/Memory/Space/Accepts.antt =====
-- User address ranges that memory/mod.rs must accept.
use leaf_os_alpha.Base.{
  ℕ, zero, suc, ◌+◌, ◌-◌, ◌*◌, ◌/◌, ◌^◌, ◌≡◌, ◌≤◌, ◌<◌, refl, subst, Bool, true, false, ◌||◌,
  Option, none, some, arith, ◌==◌, ltb, leb, checked_add, Bool-cases, inl, inr, ok,
}
use leaf_os_alpha.Memory.Space.{
  AddressSpace, user_page_access, page_error, page_of, range_error, is_root, validate_pages,
  validate_from, validate_user_range,
}
use leaf_os_alpha.Memory.Space.Ranges.{Allows}

page_error-allowed :
    (space : AddressSpace) (writable : Bool) (page : ℕ)
    → Allows space writable page
    → page_error writable (user_page_access space page) ≡ none
unfolding page_error
page_error-allowed space writable page (access, e, w) = rw e (ground (arith, w))

range_error-allowed :
    (space : AddressSpace) (writable : Bool) (end n first : ℕ)
    → end ≤ 2 ^ 47
    → ((k : ℕ) → k < n → first + k * 4096 < end → Allows space writable (first + k * 4096))
    → range_error space writable end n first ≡ none
unfolding range_error
range_error-allowed space writable end zero first b all = refl
range_error-allowed space writable end (suc n) first b all = elim (Bool-cases (ltb first end)) [
  | inr t ↦ rw t refl
  | inl t ↦
      let same : first + 0 * 4096 ≡ first = omega arith in
      let here : Allows space writable first =
        subst (Allows space writable) same (all 0 (omega arith) (ground arith)) in
      let clear = page_error-allowed space writable first here in
      let fits : checked_add first 4096 ≡ some (first + 4096) = ground arith in
      rw (t, clear, fits)
        (range_error-allowed space writable end n (first + 4096) b (λ k h l.
          let shift : first + (k + 1) * 4096 ≡ first + 4096 + k * 4096 = omega arith in
          subst (Allows space writable) shift (all (k + 1) (omega arith) (omega arith))))
]

validate_pages-allowed :
    (space : AddressSpace) (active start end : ℕ) (writable : Bool)
    → end ≤ 2 ^ 47
    → start < end
    → is_root space.root active ≡ true
    → ((b : ℕ) → start ≤ b → b < end → Allows space writable (page_of b))
    → validate_pages space active writable start end ≡ ok tt
unfolding validate_pages
validate_pages-allowed space active start end writable b h r all =
    rw
      (
        validate_pages,
        range_error-allowed space writable end ((end - page_of start + 4095) / 4096) (page_of start)
            b page_at,
        r,
      )
      refl
  where
    page_at :
        (k : ℕ)
        → k < (end - page_of start + 4095) / 4096
        → page_of start + k * 4096 < end
        → Allows space writable (page_of start + k * 4096)
    page_at k h' l = elim (Bool-cases (k == 0)) [
      | inl z ↦
          let none_in : k ≡ 0 = ground arith in
          let same : page_of start ≡ page_of start + k * 4096 = omega arith in
          subst (Allows space writable) same (all start (omega arith) h)
      | inr z ↦
          let some_in : 0 < k = ground arith in
          let same : page_of (page_of start + k * 4096) ≡ page_of start + k * 4096 = omega arith in
          subst (Allows space writable) same (all (page_of start + k * 4096) (omega arith) l)
    ]

-- A range in the user part of the addresses is accepted if the address space is the active one and
-- each byte of the range lies on a page that is mapped in it, and that may be written to if the range
-- is to be written. This holds where `try_new` accepts the address.
pub validate-accepts :
    (try_new : ℕ → Option ℕ) (space : AddressSpace) (active address length : ℕ) (writable : Bool)
    → try_new address ≡ some address
    → 255 * 2 ^ 39 ≤ address
    → address + length ≤ 256 * 2 ^ 39
    → is_root space.root active ≡ true
    → ((b : ℕ) → address ≤ b → b < address + length → Allows space writable (page_of b))
    → validate_user_range try_new space active address length writable ≡ ok tt
unfolding validate_user_range validate_from
validate-accepts try_new space active address length writable e lo hi r all =
    elim (Bool-cases (length == 0)) [
      | inl t ↦ rw t refl
      | inr t ↦
          let fits : checked_add address length ≡ some (address + length) = ground arith in
          let inside : (ltb address (255 * 2 ^ 39)
                || ltb (256 * 2 ^ 39) (address + length)
                || leb (address + length) address)
              ≡ false =
            ground arith in
          rw (t, e, validate_from, fits, inside)
            (validate_pages-allowed space active address (address + length) writable (omega arith)
              (ground arith) r all)
    ]
