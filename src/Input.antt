-- ===== src/Input.antt =====
-- native/freerdp-helper/src/input.c: mouse and keyboard commands as calls of FreeRDP's input API. What
-- is sent is a log, newest first; the mutex makes each call one step.
pub mod Events
mod Runs
use Prim.Native.Nat.{bit_or}
use rdp_mcp.Prelude.{
  ℕ, ◌+◌, Bool, true, false, not, Option, none, some, List, [], ◌∷◌, ltb, leb, ◌==◌, ◌||◌,
  if◌then◌else◌, ℤ, pos, negsuc, ltb_ℤ, leb_ℤ, ◌-ℤ◌, u16, u32, signed32, wrap,
}

-- The constants of freerdp/input.h and MAKE_RDP_SCANCODE.
pub record InputApi : Type 0 where
  pub ptr_flags_move : ℕ
  pub ptr_flags_down : ℕ
  pub ptr_flags_button1 : ℕ
  pub ptr_flags_button2 : ℕ
  pub ptr_flags_button3 : ℕ
  pub ptr_flags_wheel : ℕ
  pub ptr_flags_hwheel : ℕ
  pub ptr_flags_wheel_negative : ℕ
  pub kbd_flags_release : ℕ
  pub make_rdp_scancode : ℕ → Bool → ℕ

-- freerdp_input_send_mouse_event, freerdp_input_send_keyboard_event_ex (no repeat) and
-- freerdp_input_send_unicode_keyboard_event.
pub data InputEvent : Type 0 where
  mouse : ℕ → ℕ → ℕ → InputEvent
  keyboard : Bool → ℕ → InputEvent
  unicode : ℕ → ℕ → InputEvent

-- `-delta` of an `int`; that of INT_MIN is INT_MIN itself.
abbrev pub negate : ℤ → ℤ
negate d = signed32 (u32 (pos 0 -ℤ d))

-- `abs_delta` behind its clamp.
unfoldable pub abs_delta : ℤ → ℤ
abs_delta delta =
    let size = if ltb_ℤ delta (pos 0) then negate delta else delta in
    if ltb_ℤ (pos 120) size then pos 120 else size

-- The early returns of the key functions.
abbrev refuses : ℤ → Bool → ℤ → Bool
refuses top input n = not input || (leb_ℤ n (pos 0) || ltb_ℤ top n)

module _ (api : InputApi) where
  -- `input` says that the instance, its context and its input are there.
  unfoldable pub input_mouse_move : Bool → ℤ → ℤ → List InputEvent → List InputEvent
  input_mouse_move input x y log =
      if input then mouse api.ptr_flags_move (u16 x) (u16 y) ∷ log else log

  abbrev pub button_flag : ℤ → ℕ
  button_flag (pos n) =
      if n == 1
      then api.ptr_flags_button3
      else if n == 2
      then api.ptr_flags_button2
      else api.ptr_flags_button1
  button_flag (negsuc n) = api.ptr_flags_button1

  unfoldable pub input_mouse_button_down : Bool → ℤ → ℤ → ℤ → List InputEvent → List InputEvent
  input_mouse_button_down input x y button log =
      if input
      then mouse (bit_or api.ptr_flags_down (button_flag button)) (u16 x) (u16 y) ∷ log
      else log

  unfoldable pub input_mouse_button_up : Bool → ℤ → ℤ → ℤ → List InputEvent → List InputEvent
  input_mouse_button_up input x y button log =
      if input then mouse (button_flag button) (u16 x) (u16 y) ∷ log else log

  abbrev pub wheel_axis : Bool → ℕ
  wheel_axis vertical = if vertical then api.ptr_flags_wheel else api.ptr_flags_hwheel

  -- The low byte of the flags is the distance: `(UINT16)(abs_delta & 0xFF)`, the last byte of the
  -- two's complement.
  unfoldable pub wheel_flags : ℤ → Bool → ℕ
  wheel_flags delta vertical =
      let turned = bit_or (wheel_axis vertical) (wrap 256 (abs_delta delta)) in
      if ltb_ℤ delta (pos 0) then bit_or turned api.ptr_flags_wheel_negative else turned

  unfoldable pub input_mouse_scroll : Bool → ℤ → ℤ → ℤ → Bool → List InputEvent → List InputEvent
  input_mouse_scroll input x y delta vertical log =
      if input then mouse (wheel_flags delta vertical) (u16 x) (u16 y) ∷ log else log

  abbrev send_key : Bool → Bool → ℤ → Bool → Bool → List InputEvent → Bool × List InputEvent
  send_key input sent scancode extended down log =
      if refuses (pos 255) input scancode
      then (false, log)
      else (sent, keyboard down (api.make_rdp_scancode (wrap 256 scancode) extended) ∷ log)

  abbrev send_unicode : Bool → Bool → ℤ → ℕ → List InputEvent → Bool × List InputEvent
  send_unicode input sent code_unit flags log =
      if refuses (pos 65535) input code_unit
      then (false, log)
      else (sent, unicode flags (u16 code_unit) ∷ log)

  -- The key functions answer whether FreeRDP, that says `sent`, took the event.
  unfoldable pub input_key_down : Bool → Bool → ℤ → Bool → List InputEvent → Bool × List InputEvent
  input_key_down input sent scancode extended log = send_key input sent scancode extended true log

  unfoldable pub input_key_up : Bool → Bool → ℤ → Bool → List InputEvent → Bool × List InputEvent
  input_key_up input sent scancode extended log = send_key input sent scancode extended false log

  unfoldable pub input_unicode_key_down : Bool → Bool → ℤ → List InputEvent → Bool × List InputEvent
  input_unicode_key_down input sent code_unit log = send_unicode input sent code_unit 0 log

  unfoldable pub input_unicode_key_up : Bool → Bool → ℤ → List InputEvent → Bool × List InputEvent
  input_unicode_key_up input sent code_unit log =
      send_unicode input sent code_unit api.kbd_flags_release log
