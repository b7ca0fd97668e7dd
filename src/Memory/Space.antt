-- ===== src/Memory/Space.antt =====
-- memory/mod.rs: what the kernel checks of a user address range, and arch/user.rs: the checks of a
-- context in which a user program starts. A page is its start address, as is a frame.
pub mod Ranges
pub mod Accepts
pub mod Contexts
mod Tests
use leaf_os_alpha.Base.{
  ℕ, zero, suc, ◌+◌, ◌-◌, ◌*◌, ◌/◌, ◌%◌, ◌^◌, Bool, true, false, ◌&&◌, ◌||◌, not, Option, none,
  some, List, [], ◌∷◌, if◌then◌else◌, ◌==◌, ltb, leb, checked_add, Result, ok, err,
}
use leaf_os_alpha.Memory.Map.{page_size}
use leaf_os_alpha.Scheduler.Task.{
  UserContext, UserContextError, invalid_entry, invalid_stack, entry_not_executable,
  stack_not_writable,
}

abbrev pub user_space_start : ℕ
user_space_start = 255 * 2 ^ 39

abbrev pub user_space_end : ℕ
user_space_end = 256 * 2 ^ 39

pub data UserPageAccess : Type 0 where
  read_only read_write read_execute : UserPageAccess

abbrev pub is_read_write : UserPageAccess → Bool
is_read_write read_write = true
is_read_write _ = false

abbrev pub is_read_execute : UserPageAccess → Bool
is_read_execute read_execute = true
is_read_execute _ = false

pub data UserMemoryError : Type 0 where
  invalid_address unmapped not_writable inactive_address_space : UserMemoryError

pub record AddressSpace : Type 0 where
  pub root : Option ℕ
  pub user_pages : List (ℕ × UserPageAccess)

pub contains_user_address : ℕ → Bool
contains_user_address address = leb user_space_start address && ltb address user_space_end

-- `find_map` on the list of pages.
pub access_in : List (ℕ × UserPageAccess) → ℕ → Option UserPageAccess
access_in [] page = none
access_in ((mapped, access) ∷ pages) page =
    if mapped == page then some access else access_in pages page

pub user_page_access : AddressSpace → ℕ → Option UserPageAccess
unfolding access_in
user_page_access space page = access_in space.user_pages page

-- The error that a page of a range gives, if any.
pub page_error : Bool → Option UserPageAccess → Option UserMemoryError
page_error writable none = some unmapped
page_error writable (some access) =
    if writable && not (is_read_write access) then some not_writable else none

-- The loop of `validate_user_range`, for at most `n` rounds: the error it returns, if any.
pub range_error : AddressSpace → Bool → ℕ → ℕ → ℕ → Option UserMemoryError
range_error space writable end zero page_address = none
range_error space writable end (suc n) page_address =
    let rest = range_error space writable end n (page_address + page_size) in
    if ltb page_address end
    then (elim (page_error writable (user_page_access space page_address)) [
      | some e ↦ some e
      | none ↦ elim (checked_add page_address page_size) [
        | none ↦ some invalid_address
        | some following ↦ rest
      ]
    ])
    else none

abbrev pub is_root : Option ℕ → ℕ → Bool
is_root none active = false
is_root (some root) active = root == active

-- One round for each page that the range meets.
pub validate_pages : AddressSpace → ℕ → Bool → ℕ → ℕ → Result (Unit {0}) UserMemoryError
unfolding range_error
validate_pages space active writable start end =
    let first = start - start % page_size in
    elim (range_error space writable end ((end - first + (page_size - 1)) / page_size) first) [
      | some e ↦ err e
      | none ↦ if is_root space.root active then ok tt else err inactive_address_space
    ]

pub validate_from : AddressSpace → ℕ → Bool → Option ℕ → ℕ → Result (Unit {0}) UserMemoryError
unfolding validate_pages
validate_from space active writable none length = err invalid_address
validate_from space active writable (some start) length = elim (checked_add start length) [
  | none ↦ err invalid_address
  | some end ↦
      if ltb start user_space_start || ltb user_space_end end || leb end start
      then err invalid_address
      else validate_pages space active writable start end
]

-- `try_new` is `VirtAddr::try_new` of the crate x86_64, and `active` the frame in the register CR3.
pub validate_user_range :
    (ℕ → Option ℕ) → AddressSpace → ℕ → ℕ → ℕ → Bool → Result (Unit {0}) UserMemoryError
unfolding validate_from
validate_user_range try_new space active address length writable =
    if length == 0 then ok tt else validate_from space active writable (try_new address) length

pub with_arguments : ℕ → ℕ → ℕ → ℕ → Result UserContext UserContextError
with_arguments entry stack argument_count argument_vector =
    if not (contains_user_address entry)
    then err invalid_entry
    else (if not (contains_user_address stack) || not (stack % 16 == 0)
        then err invalid_stack
        else (if not (argument_count == 0) && not (contains_user_address argument_vector)
            then err invalid_stack
            else ok (record {
              entry = entry;
              stack = stack;
              argument_count = argument_count;
              argument_vector = argument_vector;
            })))

abbrev pub is_executable : Option UserPageAccess → Bool
is_executable none = false
is_executable (some access) = is_read_execute access

abbrev pub is_writable : Option UserPageAccess → Bool
is_writable none = false
is_writable (some access) = is_read_write access

-- The start of the page that contains an address.
abbrev pub page_of : ℕ → ℕ
page_of address = address - address % page_size

pub checked_context :
    AddressSpace
    → ℕ
    → ℕ
    → ℕ
    → ℕ
    → Result UserContext UserContextError
    → Result UserContext UserContextError
checked_context space entry stack argument_count argument_vector (err e) = err e
checked_context space entry stack argument_count argument_vector (ok context) =
    if not (is_executable (user_page_access space (page_of entry)))
    then err entry_not_executable
    else (if not (is_writable (user_page_access space (page_of (stack - 1))))
        then err stack_not_writable
        else (if not (argument_count == 0)
              && not (is_writable (user_page_access space (page_of argument_vector)))
            then err stack_not_writable
            else ok context))

pub for_address_space_with_arguments :
    AddressSpace → ℕ → ℕ → ℕ → ℕ → Result UserContext UserContextError
unfolding checked_context
for_address_space_with_arguments space entry stack argument_count argument_vector =
    checked_context space entry stack argument_count argument_vector
      (with_arguments entry stack argument_count argument_vector)

pub for_address_space : AddressSpace → ℕ → ℕ → Result UserContext UserContextError
for_address_space space entry stack = for_address_space_with_arguments space entry stack 0 0
