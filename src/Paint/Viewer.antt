-- ===== src/Paint/Viewer.antt =====
-- The other end of the bitmap messages of connection.c: a canvas that draws them.
use rdp_mcp.Prelude.{
  ℕ, ◌+◌, ◌-◌, ◌*◌, ◌≤◌, ◌<◌, ◌≡◌, refl, ◌∙◌, ap, ◌⊎◌, inl, inr, Option, some, Bool, true, false,
  List, [], ◌∷◌, Bytes, ltb, leb, ◌==◌, ◌&&◌, if◌then◌else◌, arith, Bool-cases, ℤ, pos, negsuc,
  ◌≤ℤ◌, ◌<ℤ◌, leb_ℤ, ◌+ℤ◌,
}
use rdp_mcp.Output.Frame.{Message, from_le16}
use rdp_mcp.Paint.{clip_axis}
use rdp_mcp.Paint.Clip.{Covers, IsModest, low, high, clip_axis-some, clip_bounds, clipped_Covers}
use rdp_mcp.Paint.Pixels.{Colour, colour_at}

-- The colours of the pixels, by column and row.
abbrev pub Canvas : Type 0
Canvas = ℕ → ℕ → Option Colour

abbrev pub within : ℕ → ℕ → ℕ → Bool
within x w c = leb x c && ltb c (x + w)

abbrev pub draw_part : ℕ → ℕ → ℕ → ℕ → Bytes → Canvas → Canvas
draw_part x y w h px canvas = λ col row.
    if within x w col && within y h row
    then colour_at px ((row - y) * w + (col - x))
    else canvas col row

-- The payload of a bitmap message by the table of output.h: x, y, w and h in 16 bits each, and RGBA.
abbrev pub draw_payload : Bytes → Canvas → Canvas
draw_payload (x0 ∷ x1 ∷ y0 ∷ y1 ∷ w0 ∷ w1 ∷ h0 ∷ h1 ∷ px) canvas =
    draw_part (from_le16 x0 x1) (from_le16 y0 y1) (from_le16 w0 w1) (from_le16 h0 h1) px canvas
draw_payload _ canvas = canvas

abbrev pub draw : Message → Canvas → Canvas
draw m canvas = if m.kind == 0x02 then draw_payload m.payload canvas else canvas

abbrev pub draw_all : List Message → Canvas → Canvas
draw_all [] canvas = canvas
draw_all (m ∷ ms) canvas = draw_all ms (draw m canvas)

-- The part of an interval on an axis of the desktop that is left, if there is one.
abbrev pub IsClipped : ℕ → ℤ → ℤ → Type 0
IsClipped dw x w =
    ((nx : ℕ) × (nw : ℕ) × (clip_axis (pos dw) x w ≡ some (pos nx, pos nw))
      × (0 < nw)
      × (nx + nw ≤ dw)
      × ((c : ℕ) → c < dw → Covers x w (pos c) → within nx nw c ≡ true))
    ⊎ ((p : ℤ × ℤ) × (clip_axis (pos dw) x w ≡ some p)
        × (leb_ℤ p.1 (pos 0) ≡ true)
        × ((c : ℕ) → c < dw → Covers x w (pos c) → ⊥))

within-true : (x w c : ℕ) → x ≤ c → c < x + w → within x w c ≡ true
within-true x w c h k = ground arith

natural_part :
    (dw : ℕ) (q : ℤ × ℤ)
    → pos 0 ≤ℤ q.0
    → pos 0 <ℤ q.1
    → q.0 +ℤ q.1 ≤ℤ pos dw
    → (nx : ℕ) × (nw : ℕ) × (q ≡ (pos nx, pos nw))
      × (0 < nw)
      × (nx + nw ≤ dw)
      × ((c : ℕ) → Covers q.0 q.1 (pos c) → within nx nw c ≡ true)
natural_part dw (pos nx, pos nw) a b c =
    (nx, nw, refl, ground arith, ground arith, λ p k. ground arith)
natural_part dw (pos nx, negsuc n) a b c = absurd (omega (arith, b))
natural_part dw (negsuc n, w) a b c = absurd (omega (arith, a))

pub clip_axis-IsClipped : (dw : ℕ) (x w : ℤ) → IsModest x w → 0 < dw → dw ≤ 65535 → IsClipped dw x w
clip_axis-IsClipped dw x w h d e =
    let run = clip_axis-some (pos dw) x w h (omega arith) (omega arith) in
    let q = high (pos dw) (low x w) in
    elim (Bool-cases (leb_ℤ q.1 (pos 0))) [
      | inl empty ↦ inr (
        q,
        run,
        empty,
        λ c k covers.
            nothing q.0 q.1 (pos c) empty
              ((clipped_Covers (pos dw) x w (pos c) h).1 (covers, omega arith, omega arith)),
      )
      | inr left ↦
          let some_left : pos 0 <ℤ q.1 = positive q.1 left in
          let (above, below) = clip_bounds (pos dw) x w (omega arith) some_left in
          let (nx, nw, same, p, room, inside) = natural_part dw q above some_left below in
          inl (
            nx,
            nw,
            run ∙ ap some same,
            p,
            room,
            λ c k covers.
                inside c
                  ((clipped_Covers (pos dw) x w (pos c) h).1 (covers, omega arith, omega arith)),
          )
    ]
  where
    nothing : (x w p : ℤ) → leb_ℤ w (pos 0) ≡ true → Covers x w p → ⊥
    nothing x w p h k = ground arith

    positive : (w : ℤ) → leb_ℤ w (pos 0) ≡ false → pos 0 <ℤ w
    positive w h = ground arith
