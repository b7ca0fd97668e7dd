-- ===== src/Keyboard/Decode.antt =====
-- drivers/keyboard.rs: from scancodes to key events and characters.
pub mod Modifiers
pub mod Ascii
pub mod Pause
use leaf_os_alpha.Base.{
  ℕ, ◌+◌, ◌-◌, ◌%◌, Bool, true, false, ◌&&◌, ◌||◌, not, Option, none, some, List, [], ◌∷◌,
  if◌then◌else◌, ◌==◌, ltb, leb,
}
use leaf_os_alpha.Keyboard.Key.{
  KeyState, pressed, released, KeyCode, char, enter, escape, backspace, tab, space, left_shift,
  right_shift, left_ctrl, right_ctrl, left_alt, right_alt, caps_lock, num_lock, scroll_lock,
  KeyEvent, Keyboard,
}
use leaf_os_alpha.Keyboard.Tables.{normal_key, extended_key, shifted_character}

abbrev pub is_ascii_alphabetic : ℕ → Bool
is_ascii_alphabetic c = (leb 65 c && leb c 90) || (leb 97 c && leb c 122)

abbrev pub to_ascii_uppercase : ℕ → ℕ
to_ascii_uppercase c = if leb 97 c && leb c 122 then c - 32 else c

abbrev pub xor : Bool → Bool → Bool
xor true b = not b
xor false b = b

pub letter_to_ascii : Keyboard → ℕ → ℕ
letter_to_ascii k c =
    if k.right_alt && (c == 119)
    then 124
    else (let byte =
          if xor (k.left_shift || k.right_shift) k.caps_lock then to_ascii_uppercase c else c in
        if k.left_ctrl || k.right_ctrl then to_ascii_uppercase byte - 65 + 1 else byte)

pub sign_to_ascii : Keyboard → ℕ → ℕ
sign_to_ascii k c =
    let byte = (if k.left_shift || k.right_shift then shifted_character c else c) % 256 in
    if (k.left_ctrl || k.right_ctrl) && is_ascii_alphabetic byte
    then to_ascii_uppercase byte - 65 + 1
    else byte

pub to_ascii : Keyboard → KeyCode → Option ℕ
unfolding letter_to_ascii sign_to_ascii
to_ascii k (char c) =
    some (if is_ascii_alphabetic c then letter_to_ascii k c else sign_to_ascii k c)
to_ascii k space = some 32
to_ascii k enter = some 10
to_ascii k tab = some 9
to_ascii k backspace = some 0x08
to_ascii k escape = some 0x1B
to_ascii k _ = none

-- The modifiers after a key was pressed, or released if `up`.
pub set_modifiers : Keyboard → KeyCode → Bool → Keyboard
set_modifiers k left_shift up = record k { left_shift = not up }
set_modifiers k right_shift up = record k { right_shift = not up }
set_modifiers k left_ctrl up = record k { left_ctrl = not up }
set_modifiers k right_ctrl up = record k { right_ctrl = not up }
set_modifiers k left_alt up = record k { left_alt = not up }
set_modifiers k right_alt up = record k { right_alt = not up }
set_modifiers k caps_lock up = if up then k else record k { caps_lock = not k.caps_lock }
set_modifiers k num_lock up = if up then k else record k { num_lock = not k.num_lock }
set_modifiers k scroll_lock up = if up then k else record k { scroll_lock = not k.scroll_lock }
set_modifiers k _ up = k

pub key_event : Keyboard → KeyCode → Bool → Option KeyEvent × Keyboard
key_event k key up =
    let k' = set_modifiers k key up in
    (
      some (record {
        code = key;
        state = if up then released else pressed;
        ascii = if up then none else to_ascii k' key;
      }),
      k',
    )

-- The low seven bits of a byte are its remainder by 0x80, and its high bit is set from 0x80 on.
pub process_scancode : Keyboard → ℕ → Option KeyEvent × Keyboard
unfolding key_event
process_scancode k scancode =
    if ltb 0 k.pause_remaining
    then (none, record k { pause_remaining = k.pause_remaining - 1 })
    else (if scancode == 0xE1
        then (none, record k { extended = false; pause_remaining = 5 })
        else (if scancode == 0xE0
            then (none, record k { extended = true })
            else (let code = scancode % 0x80 in
                let key = if k.extended then extended_key code else normal_key code in
                key_event (record k { extended = false }) key (leb 0x80 scancode))))

abbrev pub reported : Option KeyEvent → List KeyEvent → List KeyEvent
reported none events = events
reported (some e) events = e ∷ events

-- The events of a stream of scancodes, and the state left.
pub run : Keyboard → List ℕ → List KeyEvent × Keyboard
run k [] = ([], k)
run k (scancode ∷ scancodes) =
    let (event, k') = process_scancode k scancode in
    let (events, k'') = run k' scancodes in (reported event events, k'')
