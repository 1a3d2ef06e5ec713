-- ===== src/Paint.antt =====
-- native/freerdp-helper/src/connection.c: the paint callbacks, which send what has changed of the
-- desktop, and the resize callback. FreeRDP's GDI is a part of the state that the callbacks read. An
-- `int` that overflows, like a read outside the frame buffer, is `none`. The counters do not wrap.
pub mod Clip
pub mod Pixels
pub mod Viewer
pub mod Shown
pub mod Invalid
pub mod Frames
mod Runs
use rdp_mcp.Prelude.{
  ℕ, zero, suc, ◌+◌, ◌*◌, Bool, true, false, not, ◌&&◌, ◌||◌, Option, none, some, List, [], ◌∷◌,
  ◌++◌, Bytes, get_elem?, length, ltb, leb, ◌==◌, if◌then◌else◌, ◌>>=◌, ℤ, pos, negsuc, pos_part,
  leb_ℤ, ltb_ℤ, ◌+ℤ◌, ◌-ℤ◌, signed32, u16,
}
use rdp_mcp.Output.{Output, output_send_bitmap, output_send_resized}

-- What the callbacks read of rdpGdi; `primary_buffer` holds four bytes for a pixel: B, G, R, X.
pub record Gdi : Type 0 where
  pub width : ℤ
  pub height : ℤ
  pub stride : ℕ
  pub primary : Bool
  pub primary_buffer : Option Bytes

-- The invalid region of the window.
pub record Rect : Type 0 where
  pub x : ℤ
  pub y : ℤ
  pub w : ℤ
  pub h : ℤ

pub record Paint : Type 0 where
  pub gdi : Option Gdi
  pub invalid_null : Bool
  pub invalid : Rect
  pub ninvalid : ℕ
  pub end_paint_count : ℕ
  pub resize_gen : ℕ
  pub post_resize_frames : ℕ
  pub output : Output

-- `a + b` and `a - b` of `INT32`.
abbrev pub in_int : ℤ → Option ℤ
in_int v = if leb_ℤ (negsuc 2147483647) v && leb_ℤ v (pos 2147483647) then some v else none

-- `if (x < 0) { w += x; x = 0; }`
unfoldable pub clip_low : ℤ → ℤ → Option (ℤ × ℤ)
clip_low x w = if ltb_ℤ x (pos 0) then (do w' ← in_int (w +ℤ x); some (pos 0, w')) else some (x, w)

-- `if (x + w > dw) w = dw - x`
unfoldable pub clip_high : ℤ → ℤ × ℤ → Option (ℤ × ℤ)
clip_high dw (x, w) = do
  far ← in_int (x +ℤ w)
  if ltb_ℤ dw far then (do w' ← in_int (dw -ℤ x); some (x, w')) else some (x, w)

-- Both tests on one axis of the rectangle.
unfoldable pub clip_axis : ℤ → ℤ → ℤ → Option (ℤ × ℤ)
unfolding clip_low clip_high
clip_axis dw x w = do p ← clip_low x w; clip_high dw p

-- The three bytes that are read of a pixel.
abbrev pub read_pixel : Bytes → ℕ → Option (ℕ × ℕ × ℕ)
read_pixel src n = do
  r ← get_elem? src (n + 2)
  g ← get_elem? src (n + 1)
  b ← get_elem? src n
  some (r, g, b)

-- The inner loop: the columns that are left, and the offset of `src`.
unfoldable pub convert_row : ℕ → ℕ → Bytes → Option Bytes
convert_row zero n src = some []
convert_row (suc cols) n src = do
  (r, g, b) ← read_pixel src n
  rest ← convert_row cols (n + 4) src
  some (r ∷ g ∷ b ∷ 255 ∷ rest)

-- `gdi->primary_buffer + (y + row) * stride + x * 4`: the two products are `int`s, and are added to
-- the pointer one after the other.
abbrev pub row_offset : ℕ → ℕ → ℕ → Option ℕ
row_offset y x stride =
    if ltb (y * stride) 2147483648 && ltb (x * 4) 2147483648
    then some (y * stride + x * 4)
    else none

-- The outer loop: the rows that are left, and the next one.
unfoldable pub convert_rows : ℕ → ℕ → ℕ → ℕ → ℕ → Bytes → Option Bytes
unfolding convert_row
convert_rows zero y x w stride src = some []
convert_rows (suc rows) y x w stride src = do
  n ← row_offset y x stride
  row ← convert_row w n src
  rest ← convert_rows rows (suc y) x w stride src
  some (row ++ rest)

unfoldable pub cb_begin_paint : Paint → Paint
cb_begin_paint s = elim s.gdi [
  | none ↦ s
  | some g ↦ if g.primary then record s { invalid_null = true; ninvalid = 0 } else s
]

abbrev pub count_frame : Paint → Paint
count_frame s = record s {
  end_paint_count = suc s.end_paint_count;
  post_resize_frames = suc s.post_resize_frames;
}

-- The clipped rectangle is converted and sent, if its buffer can be allocated.
unfoldable pub send_rect : Bool → Gdi → Bytes → ℤ × ℤ → ℤ × ℤ → Paint → Option Paint
unfolding convert_rows
send_rect allocated g src (x, w) (y, h) s =
    if leb_ℤ w (pos 0) || leb_ℤ h (pos 0) || not allocated then some s else (do
      rgba ← convert_rows (pos_part h) (pos_part y) (pos_part x) (pos_part w) g.stride src
      o ←
          output_send_bitmap (u16 x) (u16 y) (u16 w) (u16 h) (some rgba)
            (pos_part w * 4 * pos_part h) s.output
      some (count_frame (record s { output = o })))

unfoldable pub paint_invalid : Bool → Gdi → Bytes → Paint → Option Paint
unfolding clip_axis send_rect
paint_invalid allocated g src s =
    if leb_ℤ g.width (pos 0) || leb_ℤ g.height (pos 0) then some s else (do
      across ← clip_axis g.width s.invalid.x s.invalid.w
      down ← clip_axis g.height s.invalid.y s.invalid.h
      send_rect allocated g src across down s)

-- `allocated` says that `malloc` gives the buffer for the pixels.
unfoldable pub cb_end_paint : Bool → Paint → Option Paint
unfolding paint_invalid
cb_end_paint allocated s = elim s.gdi [
  | none ↦ some s
  | some g ↦ elim g.primary_buffer [
    | none ↦ some s
    | some src ↦ if not g.primary || s.invalid_null then some s else paint_invalid allocated g src s
  ]
]

abbrev same_size : ℕ → ℕ → Gdi → Bool
same_size w h g =
    not (ltb_ℤ g.width (signed32 w))
    && not (ltb_ℤ (signed32 w) g.width)
    && (not (ltb_ℤ g.height (signed32 h)) && not (ltb_ℤ (signed32 h) g.height))

-- `w` and `h` are the new dimensions in the settings, and `gdi_resize` what FreeRDP makes of its GDI,
-- whether it succeeds or not.
unfoldable pub cb_desktop_resize : (ℕ → ℕ → Gdi → Gdi) → ℕ → ℕ → Paint → Option Paint
cb_desktop_resize gdi_resize w h s = elim s.gdi [
  | none ↦ some s
  | some g ↦ do
    o ← output_send_resized (signed32 w) (signed32 h) s.output
    some (record s {
      gdi = some (if same_size w h g then g else gdi_resize w h g);
      resize_gen = suc s.resize_gen;
      post_resize_frames = 0;
      output = o;
    })
]

-- connection_get_resize_diag
unfoldable pub connection_get_resize_diag : Paint → ℕ × ℕ
connection_get_resize_diag s = (s.resize_gen, s.post_resize_frames)
