-- ===== src/Memory/Space/Tests.antt =====
-- A small user program's address space.
use leaf_os_alpha.Base.{
  ℕ, ◌+◌, ◌-◌, ◌*◌, ◌%◌, ◌^◌, ◌≡◌, ◌≢◌, ◌≤◌, ◌<◌, refl, subst, true, Option, none, some, [], ◌∷◌,
  arith, if◌then◌else◌, ltb, ok,
}
use leaf_os_alpha.Scheduler.Task.{UserContext}
use leaf_os_alpha.Memory.Space.{
  AddressSpace, read_write, read_execute, user_page_access, access_in, page_of, is_root,
  validate_user_range, for_address_space_with_arguments, checked_context, with_arguments,
  contains_user_address,
}
use leaf_os_alpha.Memory.Space.Ranges.{Allows, validate-Allows}
use leaf_os_alpha.Memory.Space.Accepts.{validate-accepts}
use leaf_os_alpha.Memory.Space.Contexts.{IsUserAddress, context-pages}

abbrev base : ℕ
base = 255 * 2 ^ 39

-- A page of code, and a page for the stack behind it.
abbrev program : AddressSpace
program = record {
  root = some 0x5000;
  user_pages = (base, read_execute) ∷ (base + 4096, read_write) ∷ [];
}

abbrev lower_half : ℕ → Option ℕ
lower_half a = if ltb a (2 ^ 47) then some a else none

lower_half_same : (a b : ℕ) → lower_half a ≡ some b → b ≡ a
lower_half_same a b e = ground arith

stack_page : user_page_access program (base + 4096) ≡ some read_write
unfolding user_page_access access_in
stack_page = refl

on_stack_page : (b : ℕ) → base + 4100 ≤ b → b < base + 4100 + 8 → Allows program true (page_of b)
on_stack_page b l h =
    let same : base + 4096 ≡ page_of b = omega arith in
    subst (Allows program true) same (read_write, stack_page, λ e. refl)

validate-accepts_example :
    validate_user_range lower_half program 0x5000 (base + 4100) 8 true ≡ ok tt
validate-accepts_example =
    validate-accepts lower_half program 0x5000 (base + 4100) 8 true refl (omega arith) (omega arith)
      refl on_stack_page

validate-Allows_example :
    (is_root program.root 0x5000 ≡ true)
    × ((b : ℕ)
        → base + 4100 ≤ b
        → b < base + 4100 + 8
        → (255 * 2 ^ 39 ≤ b) × (b < 256 * 2 ^ 39) × Allows program true (page_of b))
validate-Allows_example =
    validate-Allows lower_half program 0x5000 (base + 4100) 8 true lower_half_same (omega arith)
      validate-accepts_example

abbrev context : UserContext
context = record { entry = base + 16; stack = base + 8192; argument_count = 0; argument_vector = 0 }

accepted : for_address_space_with_arguments program (base + 16) (base + 8192) 0 0 ≡ ok context
unfolding for_address_space_with_arguments checked_context with_arguments contains_user_address
    user_page_access access_in
accepted = refl

context-pages_example :
    (context
      ≡ record { entry = base + 16; stack = base + 8192; argument_count = 0; argument_vector = 0 })
    × IsUserAddress (base + 16)
    × IsUserAddress (base + 8192)
    × (0 < 0 → IsUserAddress 0)
    × ((base + 8192) % 16 ≡ 0)
    × (user_page_access program (page_of (base + 16)) ≡ some read_execute)
    × (user_page_access program (page_of (base + 8192 - 1)) ≡ some read_write)
    × (page_of (base + 16) ≢ page_of (base + 8192 - 1))
    × (0 < 0 → user_page_access program (page_of 0) ≡ some read_write)
context-pages_example = context-pages program (base + 16) (base + 8192) 0 0 context accepted
