-- ===== src/Keyboard/Decode/Modifiers.antt =====
-- The modifiers of drivers/keyboard.rs against the events it reports.
use leaf_os_alpha.Base.{
  ℕ, ◌≡◌, refl, sym, ◌∙◌, ap, Bool, true, false, not, Option, none, some, List, [], ◌∷◌, arith,
  if◌then◌else◌,
}
use leaf_os_alpha.Keyboard.Key.{KeyState, pressed, released, KeyCode, KeyEvent, Keyboard}
use leaf_os_alpha.Keyboard.Decode.{set_modifiers, key_event, process_scancode, run, reported}

pub data Modifier : Type 0 where
  left_shift right_shift left_ctrl right_ctrl left_alt right_alt : Modifier
  caps_lock num_lock scroll_lock : Modifier

abbrev pub flag : Keyboard → Modifier → Bool
flag k left_shift = k.left_shift
flag k right_shift = k.right_shift
flag k left_ctrl = k.left_ctrl
flag k right_ctrl = k.right_ctrl
flag k left_alt = k.left_alt
flag k right_alt = k.right_alt
flag k caps_lock = k.caps_lock
flag k num_lock = k.num_lock
flag k scroll_lock = k.scroll_lock

-- Is the key that of the modifier?
abbrev pub affects : KeyCode → Modifier → Bool
affects KeyCode.left_shift left_shift = true
affects KeyCode.right_shift right_shift = true
affects KeyCode.left_ctrl left_ctrl = true
affects KeyCode.right_ctrl right_ctrl = true
affects KeyCode.left_alt left_alt = true
affects KeyCode.right_alt right_alt = true
affects KeyCode.caps_lock caps_lock = true
affects KeyCode.num_lock num_lock = true
affects KeyCode.scroll_lock scroll_lock = true
affects _ _ = false

abbrev pub is_lock : Modifier → Bool
is_lock caps_lock = true
is_lock num_lock = true
is_lock scroll_lock = true
is_lock _ = false

abbrev pub is_pressed : KeyState → Bool
is_pressed pressed = true
is_pressed released = false

-- A lock changes when its key goes down; the other modifiers are on while their key is down.
abbrev pub changed : Modifier → Bool → KeyEvent → Bool
changed m b e =
    if affects e.code m
    then (if is_lock m then (if is_pressed e.state then not b else b) else is_pressed e.state)
    else b

pub after : Modifier → Bool → List KeyEvent → Bool
after m b [] = b
after m b (e ∷ events) = after m (changed m b e) events

flag_step :
    (m : Modifier) (k : Keyboard) (key : KeyCode) (up : Bool) (a : Option ℕ)
    → flag (set_modifiers k key up) m
      ≡ changed m
          (flag k m)
          (record { code = key; state = if up then released else pressed; ascii = a })
unfolding set_modifiers
flag_step m k key up a = ground arith

abbrev pub after_report : Modifier → Bool → Option KeyEvent → Bool
after_report m b none = b
after_report m b (some e) = changed m b e

process_step :
    (m : Modifier) (k : Keyboard) (scancode : ℕ)
    → let (event, k') = process_scancode k scancode in flag k' m ≡ after_report m (flag k m) event
unfolding process_scancode key_event set_modifiers
process_step m k scancode = ground arith

after-reported :
    (m : Modifier) (b : Bool) (event : Option KeyEvent) (events : List KeyEvent)
    → after m b (reported event events) ≡ after m (after_report m b event) events
unfolding after
after-reported m b none events = refl
after-reported m b (some e) events = refl

-- After any stream of scancodes, each modifier is what the reported events say: Shift, Ctrl and Alt on
-- each side are on exactly if the last event of that key was a press, and each lock has changed once
-- for every press of its key. Without an event of its key a modifier is as it was.
pub flag-run :
    (scancodes : List ℕ) (k : Keyboard) (m : Modifier)
    → let (events, k') = run k scancodes in flag k' m ≡ after m (flag k m) events
unfolding run after
flag-run [] k m = refl
flag-run (scancode ∷ scancodes) k m =
    let (event, k') = process_scancode k scancode in
    flag-run scancodes k' m
    ∙ ap (λ b. after m b (run k' scancodes).0) (process_step m k scancode)
    ∙ sym (after-reported m (flag k m) event (run k' scancodes).0)
