-- ===== src/Paint/Shown.antt =====
-- The canvas of a viewer after a part of the desktop was sent.
use rdp_mcp.Prelude.{
  ℕ, ◌+◌, ◌-◌, ◌%◌, ◌/◌, ◌≤◌, ◌<◌, ◌≡◌, refl, ◌∙◌, ap, ◌⊎◌, inl, inr, Bool, true, false, Bytes,
  ◌&&◌, arith, Bool-cases, pos,
}
use rdp_mcp.Output.{Call, sub_header}
use rdp_mcp.Output.Frame.{from_le16}
use rdp_mcp.Output.Request.{message_of}
use rdp_mcp.Output.Buffers.{call_of}
use rdp_mcp.Paint.{Rect}
use rdp_mcp.Paint.Clip.{Covers}
use rdp_mcp.Paint.Pixels.{buffer_at, IsPart}
use rdp_mcp.Paint.Viewer.{Canvas, within, draw, draw_part}

abbrev pub part_call : ℕ → ℕ → ℕ → ℕ → ℕ → Bytes → Call
part_call u x y w h px = call_of 0x02 (sub_header x y w h) px u

from-le16 : (n : ℕ) → n < 65536 → from_le16 (n % 256) (n / 256 % 256) ≡ n
from-le16 n h = omega arith

pub draw-part_call :
    (u x y w h : ℕ) (px : Bytes) (canvas : Canvas)
    → x < 65536
    → y < 65536
    → w < 65536
    → h < 65536
    → draw (message_of (part_call u x y w h px)) canvas ≡ draw_part x y w h px canvas
draw-part_call u x y w h px canvas a b c d =
    rw (from-le16 x a, from-le16 y b, from-le16 w c, from-le16 h d) refl

-- The canvas shows what the frame buffer holds of the desktop.
abbrev pub Shows : ℕ → ℕ → ℕ → Bytes → Canvas → Type 0
Shows dw dh stride src canvas =
    (col row : ℕ) → col < dw → row < dh → canvas col row ≡ buffer_at stride src row col

-- It does outside a rectangle.
abbrev pub ShowsBeside : ℕ → ℕ → ℕ → Bytes → Rect → Canvas → Type 0
ShowsBeside dw dh stride src r canvas =
    (col row : ℕ)
    → col < dw
    → row < dh
    → (Covers r.x r.w (pos col) × Covers r.y r.h (pos row))
      ⊎ (canvas col row ≡ buffer_at stride src row col)

pub draw_part-Shows :
    (dw dh stride : ℕ) (src : Bytes) (r : Rect) (canvas : Canvas) (x w y h : ℕ) (px : Bytes)
    → IsPart h y x w stride src px
    → ((c : ℕ) → c < dw → Covers r.x r.w (pos c) → within x w c ≡ true)
    → ((c : ℕ) → c < dh → Covers r.y r.h (pos c) → within y h c ≡ true)
    → ShowsBeside dw dh stride src r canvas
    → Shows dw dh stride src (draw_part x y w h px canvas)
draw_part-Shows dw dh stride src r canvas x w y h px part across down old col row a b =
    elim (Bool-cases (within x w col && within y h row)) [
      | inl inside ↦ rw (inside) (
          let (near, k, top, l) = split col row inside in
          part.1 (row - y) (col - x) (omega arith) (omega arith)
          ∙ ap (buffer_at stride src (y + (row - y))) (from_start x col near)
          ∙ ap (λ n. buffer_at stride src n col) (from_start y row top))
      | inr beside ↦ rw (beside) (elim (old col row a b) [
        | inl (cx, cy) ↦ absurd (differ (both (across col a cx) (down row b cy)) beside)
        | inr same ↦ same
      ])
    ]
  where
    split :
        (col row : ℕ)
        → (within x w col && within y h row) ≡ true
        → (x ≤ col) × (col < x + w) × (y ≤ row) × (row < y + h)
    split col row k = (ground arith, ground arith, ground arith, ground arith)

    from_start : (a b : ℕ) → a ≤ b → a + (b - a) ≡ b
    from_start a b k = omega arith

    both : {p q : Bool} → p ≡ true → q ≡ true → (p && q) ≡ true
    both h k = rw (h, k) refl

    differ : {p : Bool} → p ≡ true → p ≡ false → ⊥
    differ h k = cc
