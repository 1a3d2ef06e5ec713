-- ===== src/Pointer.antt =====
-- native/freerdp-helper/src/pointer.c: the cursor callbacks. The pointers that FreeRDP has are a list,
-- and a callback names one of them by its place; NULL is a place outside the list. A callback gives its
-- return value with the new state.
pub mod Shape
pub mod Messages
mod Runs
use rdp_mcp.Prelude.{
  ℕ, zero, suc, ◌+◌, ◌*◌, ◌%◌, Bool, true, false, not, ◌&&◌, ◌||◌, Option, none, some, List, [],
  ◌∷◌, ◌++◌, Bytes, get_elem?, set, length, ltb, ◌==◌, if◌then◌else◌, ◌>>=◌,
}
use rdp_mcp.Output.{Output, output_send_cursor, output_send_cursor_null, output_send_cursor_default}

-- What the code reads of rdpPointer, and its own two fields.
pub record ConduitPointer : Type 0 where
  pub width : ℕ
  pub height : ℕ
  pub x_pos : ℕ
  pub y_pos : ℕ
  pub rgba_data : Option Bytes
  pub rgba_size : ℕ

pub record Pointers : Type 0 where
  pub pointers : List ConduitPointer
  pub output : Output

-- What a call meets: whether the context has a GDI, whether `calloc` succeeds, and what
-- freerdp_image_copy_from_pointer_data leaves in a buffer, `none` if it fails.
pub record Env : Type 0 where
  pub gdi : Bool
  pub allocates : Bool
  pub copy_from_pointer_data : Bytes → Option Bytes

abbrev pub zeros : ℕ → Bytes
zeros zero = []
zeros (suc n) = 0 ∷ zeros n

abbrev put_pointer : ℕ → ConduitPointer → Pointers → Pointers
put_pointer k p s = record s { pointers = set s.pointers k p }

-- `w` and `h` are below 385 where they are multiplied.
unfoldable pub load_image : Env → ℕ → ConduitPointer → Pointers → Pointers × Bool
load_image e k p s =
    if not e.allocates
    then (s, false)
    else elim (e.copy_from_pointer_data (zeros (p.width * p.height * 4))) [
      | none ↦ (s, false)
      | some px ↦ (
        put_pointer k (record p { rgba_data = some px; rgba_size = p.width * p.height * 4 }) s,
        true,
      )
    ]

abbrev pub bad_size : ConduitPointer → Bool
bad_size p = p.width == 0 || p.height == 0 || ltb 384 p.width || ltb 384 p.height

unfoldable pub cb_pointer_new : Env → ℕ → Pointers → Pointers × Bool
unfolding load_image
cb_pointer_new e k s = elim (get_elem? s.pointers k) [
  | none ↦ (s, false)
  | some p ↦ if not e.gdi || bad_size p then (s, false) else load_image e k p s
]

abbrev pub send_image : ConduitPointer → Option Bytes → Pointers → Option (Pointers × Bool)
send_image p none s = some (s, false)
send_image p (some px) s = if p.rgba_size == 0 then some (s, false) else (do
  o ←
      output_send_cursor (p.x_pos % 65536) (p.y_pos % 65536) (p.width % 65536) (p.height % 65536)
        (some px) p.rgba_size s.output
  some (record s { output = o }, true))

abbrev pub set_pointer : Option ConduitPointer → Pointers → Option (Pointers × Bool)
set_pointer none s = some (s, false)
set_pointer (some p) s = send_image p p.rgba_data s

-- `none` is a read outside the pixels.
unfoldable pub cb_pointer_set : ℕ → Pointers → Option (Pointers × Bool)
cb_pointer_set k s = set_pointer (get_elem? s.pointers k) s

unfoldable pub cb_pointer_free : ℕ → Pointers → Pointers
cb_pointer_free k s = elim (get_elem? s.pointers k) [
  | none ↦ s
  | some p ↦ put_pointer k (record p { rgba_data = none; rgba_size = 0 }) s
]

unfoldable pub cb_pointer_set_null : Pointers → Option (Pointers × Bool)
cb_pointer_set_null s = do
  o ← output_send_cursor_null s.output
  some (record s { output = o }, true)

unfoldable pub cb_pointer_set_default : Pointers → Option (Pointers × Bool)
cb_pointer_set_default s = do
  o ← output_send_cursor_default s.output
  some (record s { output = o }, true)

unfoldable pub cb_pointer_set_position : ℕ → ℕ → Pointers → Pointers × Bool
cb_pointer_set_position x y s = (s, true)

-- The callbacks; FreeRDP makes a pointer before New.
pub data Event : Type 0 where
  make : (width height x_pos y_pos : ℕ) → Event
  new : Env → ℕ → Event
  show free : ℕ → Event
  show_null show_default : Event
  move : ℕ → ℕ → Event

abbrev pub make_pointer : ℕ → ℕ → ℕ → ℕ → ConduitPointer
make_pointer w h x y = record {
  width = w;
  height = h;
  x_pos = x;
  y_pos = y;
  rgba_data = none;
  rgba_size = 0;
}

abbrev pub forget : Option (Pointers × Bool) → Option Pointers
forget none = none
forget (some (s, shown)) = some s

unfoldable pub step : Event → Pointers → Option Pointers
step (make w h x y) s = some (record s { pointers = s.pointers ++ (make_pointer w h x y ∷ []) })
step (new e k) s = some (cb_pointer_new e k s).0
step (show k) s = forget (cb_pointer_set k s)
step (free k) s = some (cb_pointer_free k s)
step show_null s = forget (cb_pointer_set_null s)
step show_default s = forget (cb_pointer_set_default s)
step (move x y) s = some (cb_pointer_set_position x y s).0

unfoldable pub run : List Event → Pointers → Option Pointers
run [] s = some s
run (e ∷ es) s = do s' ← step e s; run es s'
