-- ===== src/Keyboard/Tables.antt =====
-- drivers/keyboard.rs: the tables of scancodes and of shifted characters. A `char` is its code
-- point. Each table lists the arms of a `match` in their order.
pub mod Bounds
use leaf_os_alpha.Base.{
  ℕ, ◌+◌, ◌-◌, Option, none, some, List, [], ◌∷◌, if◌then◌else◌, ◌&&◌, ◌==◌, leb,
}
use leaf_os_alpha.Keyboard.Key.{
  KeyCode, char, enter, escape, backspace, tab, space, left_shift, right_shift, left_ctrl,
  right_ctrl, left_alt, right_alt, caps_lock, num_lock, scroll_lock, f, arrow_up, arrow_down,
  arrow_left, arrow_right, home, end, page_up, page_down, insert, delete, unknown,
}

-- The first arm that matches, or the last one.
pub arm {ℓ} : {A : Type ℓ} → List (ℕ × A) → ℕ → A → A
arm [] n other = other
arm ((m, a) ∷ arms) n other = if m == n then a else arm arms n other

-- The arm `0x3B..=0x44` is written where `normal_key` is.
abbrev pub normal_keys : List (ℕ × KeyCode)
normal_keys =
    (0x01, escape)
    ∷ (0x02, char 49)
    ∷ (0x03, char 50)
    ∷ (0x04, char 51)
    ∷ (0x05, char 52)
    ∷ (0x06, char 53)
    ∷ (0x07, char 54)
    ∷ (0x08, char 55)
    ∷ (0x09, char 56)
    ∷ (0x0A, char 57)
    ∷ (0x0B, char 48)
    ∷ (0x0C, char 45)
    ∷ (0x0D, char 61)
    ∷ (0x0E, backspace)
    ∷ (0x0F, tab)
    ∷ (0x10, char 113)
    ∷ (0x11, char 119)
    ∷ (0x12, char 101)
    ∷ (0x13, char 114)
    ∷ (0x14, char 116)
    ∷ (0x15, char 121)
    ∷ (0x16, char 117)
    ∷ (0x17, char 105)
    ∷ (0x18, char 111)
    ∷ (0x19, char 112)
    ∷ (0x1A, char 91)
    ∷ (0x1B, char 93)
    ∷ (0x1C, enter)
    ∷ (0x1D, left_ctrl)
    ∷ (0x1E, char 97)
    ∷ (0x1F, char 115)
    ∷ (0x20, char 100)
    ∷ (0x21, char 102)
    ∷ (0x22, char 103)
    ∷ (0x23, char 104)
    ∷ (0x24, char 106)
    ∷ (0x25, char 107)
    ∷ (0x26, char 108)
    ∷ (0x27, char 59)
    ∷ (0x28, char 39)
    ∷ (0x29, char 96)
    ∷ (0x2A, left_shift)
    ∷ (0x2B, char 92)
    ∷ (0x2C, char 122)
    ∷ (0x2D, char 120)
    ∷ (0x2E, char 99)
    ∷ (0x2F, char 118)
    ∷ (0x30, char 98)
    ∷ (0x31, char 110)
    ∷ (0x32, char 109)
    ∷ (0x33, char 44)
    ∷ (0x34, char 46)
    ∷ (0x35, char 47)
    ∷ (0x36, right_shift)
    ∷ (0x37, char 42)
    ∷ (0x38, left_alt)
    ∷ (0x39, space)
    ∷ (0x3A, caps_lock)
    ∷ (0x45, num_lock)
    ∷ (0x46, scroll_lock)
    ∷ (0x47, char 55)
    ∷ (0x48, char 56)
    ∷ (0x49, char 57)
    ∷ (0x4A, char 45)
    ∷ (0x4B, char 52)
    ∷ (0x4C, char 53)
    ∷ (0x4D, char 54)
    ∷ (0x4E, char 43)
    ∷ (0x4F, char 49)
    ∷ (0x50, char 50)
    ∷ (0x51, char 51)
    ∷ (0x52, char 48)
    ∷ (0x53, char 46)
    ∷ (0x57, f 11)
    ∷ (0x58, f 12)
    ∷ []

abbrev pub extended_keys : List (ℕ × KeyCode)
extended_keys =
    (0x1C, enter)
    ∷ (0x1D, right_ctrl)
    ∷ (0x35, char 47)
    ∷ (0x38, right_alt)
    ∷ (0x47, home)
    ∷ (0x48, arrow_up)
    ∷ (0x49, page_up)
    ∷ (0x4B, arrow_left)
    ∷ (0x4D, arrow_right)
    ∷ (0x4F, end)
    ∷ (0x50, arrow_down)
    ∷ (0x51, page_down)
    ∷ (0x52, insert)
    ∷ (0x53, delete)
    ∷ []

abbrev pub shifted_characters : List (ℕ × ℕ)
shifted_characters =
    (49, 33)
    ∷ (50, 64)
    ∷ (51, 35)
    ∷ (52, 36)
    ∷ (53, 37)
    ∷ (54, 94)
    ∷ (55, 38)
    ∷ (56, 42)
    ∷ (57, 40)
    ∷ (48, 41)
    ∷ (45, 95)
    ∷ (61, 43)
    ∷ (91, 123)
    ∷ (93, 125)
    ∷ (92, 124)
    ∷ (59, 58)
    ∷ (39, 34)
    ∷ (96, 126)
    ∷ (44, 60)
    ∷ (46, 62)
    ∷ (47, 63)
    ∷ []

pub normal_key : ℕ → KeyCode
normal_key code =
    if leb 0x3B code && leb code 0x44 then f (code - 0x3A) else arm normal_keys code (unknown code)

-- `code | 0x80` adds, as `code` has seven bits.
pub extended_key : ℕ → KeyCode
extended_key code = arm extended_keys code (unknown (code + 0x80))

pub shifted_character : ℕ → ℕ
shifted_character c = arm shifted_characters c c
