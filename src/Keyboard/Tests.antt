-- ===== src/Keyboard/Tests.antt =====
-- Runs of the decoder of drivers/keyboard.rs.
use leaf_os_alpha.Base.{ℕ, ◌≡◌, ◌<◌, refl, false, some, List, [], ◌∷◌, ◌++◌, arith}
use leaf_os_alpha.Keyboard.Key.{pressed, KeyCode, KeyEvent, new}
use leaf_os_alpha.Keyboard.Tables.Bounds.{normal_key_a}
use leaf_os_alpha.Keyboard.Decode.{process_scancode, run}
use leaf_os_alpha.Keyboard.Decode.Modifiers.{flag, after, caps_lock, flag-run}
use leaf_os_alpha.Keyboard.Decode.Pause.{run-pause}
use leaf_os_alpha.Keyboard.Decode.Ascii.{process-ascii, process-letter}

-- Caps Lock down and up, A down and up.
abbrev typed : List ℕ
typed = 0x3A ∷ 0xBA ∷ 0x1E ∷ 0x9E ∷ []

flag-run_example :
    let (events, k) = run new typed in
    flag k caps_lock ≡ after caps_lock (flag new caps_lock) events
flag-run_example = flag-run typed new caps_lock

run-pause_example :
    run new (0xE1 ∷ ((0x1D ∷ 0x45 ∷ 0xE1 ∷ 0x9D ∷ 0xC5 ∷ []) ++ typed))
    ≡ run (record new { extended = false }) typed
run-pause_example = run-pause new (0x1D ∷ 0x45 ∷ 0xE1 ∷ 0x9D ∷ 0xC5 ∷ []) typed refl refl

process-letter_example :
    (process_scancode new 0x1E).0
    ≡ some (record { code = KeyCode.char 97; state = pressed; ascii = some 97 })
process-letter_example = process-letter new 0x1E 97 refl refl (omega arith) normal_key_a refl

abbrev typed_a : KeyEvent
typed_a = record { code = KeyCode.char 97; state = pressed; ascii = some 97 }

process-ascii_example : (97 < 128) × (0x1E < 128)
process-ascii_example = process-ascii new 0x1E 97 typed_a process-letter_example refl
