-- ===== src/Keyboard/Key.antt =====
-- drivers/keyboard.rs: keys, their events and the state of the decoder.
use leaf_os_alpha.Base.{ℕ, Bool, false, Option}

pub data KeyState : Type 0 where
  pressed released : KeyState

pub data KeyCode : Type 0 where
  char : ℕ → KeyCode
  enter escape backspace tab space : KeyCode
  left_shift right_shift left_ctrl right_ctrl left_alt right_alt : KeyCode
  caps_lock num_lock scroll_lock : KeyCode
  f : ℕ → KeyCode
  arrow_up arrow_down arrow_left arrow_right : KeyCode
  home end page_up page_down insert delete : KeyCode
  unknown : ℕ → KeyCode

pub record KeyEvent : Type 0 where
  pub code : KeyCode
  pub state : KeyState
  pub ascii : Option ℕ

pub record Keyboard : Type 0 where
  pub extended : Bool
  pub pause_remaining : ℕ
  pub left_shift : Bool
  pub right_shift : Bool
  pub left_ctrl : Bool
  pub right_ctrl : Bool
  pub left_alt : Bool
  pub right_alt : Bool
  pub caps_lock : Bool
  pub num_lock : Bool
  pub scroll_lock : Bool

abbrev pub new : Keyboard
new = record {
  extended = false;
  pause_remaining = 0;
  left_shift = false;
  right_shift = false;
  left_ctrl = false;
  right_ctrl = false;
  left_alt = false;
  right_alt = false;
  caps_lock = false;
  num_lock = false;
  scroll_lock = false;
}
