-- ===== src/Paint/Invalid.antt =====
-- `paint_invalid` of connection.c: what a canvas that draws its messages shows of the frame buffer.
use native.Mathlib.Nat.{mul-le-mul_right, mul-le-mul_left}
use rdp_mcp.Prelude.{
  ℕ, ◌+◌, ◌*◌, ◌%◌, ◌≤◌, ◌<◌, ◌≡◌, refl, sym, subst, inl, inr, Option, some, Bool, true, false,
  List, [], ◌∷◌, ◌++◌, map, Bytes, length, ◌||◌, arith, ℤ, pos, leb_ℤ, append-nil,
}
use rdp_mcp.Output.{Call}
use rdp_mcp.Output.Request.{perform, bitmap, on_callback, message_of}
use rdp_mcp.Output.Callback.{perform_callback}
use rdp_mcp.Paint.{Paint, Gdi, Rect, clip_axis, send_rect, count_frame, paint_invalid}
use rdp_mcp.Paint.Clip.{Covers, IsModest}
use rdp_mcp.Paint.Pixels.{convert_rows-some, IsPart}
use rdp_mcp.Paint.Viewer.{Canvas, draw_all, clip_axis-IsClipped, IsClipped}
use rdp_mcp.Paint.Shown.{part_call, draw-part_call, draw_part-Shows, Shows, ShowsBeside}

-- A GDI of a size, a stride and a frame buffer.
abbrev pub gdi_of : ℕ → ℕ → ℕ → Bytes → Gdi
gdi_of dw dh stride src = record {
  width = pos dw;
  height = pos dh;
  stride = stride;
  primary = true;
  primary_buffer = some src;
}

-- The frame buffer holds the desktop, and its offsets are an `int`.
abbrev pub HoldsDesktop : ℕ → ℕ → ℕ → Bytes → Type 0
HoldsDesktop dw dh stride src =
    (4 * dw ≤ stride) × (dh * stride ≤ length src) × (length src < 2147483648)

-- `dw` and `dh` fit the fields of a message.
abbrev pub IsScreen : ℕ → ℕ → Type 0
IsScreen dw dh = (0 < dw) × (dw ≤ 65535) × (0 < dh) × (dh ≤ 65535)

positive : (w : ℕ) → 0 < w → leb_ℤ (pos w) (pos 0) ≡ false
positive w h = ground arith

send-IsPart :
    (dw dh stride : ℕ) (src : Bytes) (t : Paint) (u : ℕ) (calls : List Call) (x w y h : ℕ)
    → HoldsDesktop dw dh stride src
    → IsScreen dw dh
    → 0 < w
    → x + w ≤ dw
    → 0 < h
    → y + h ≤ dh
    → (px : Bytes) × (send_rect true
          (gdi_of dw dh stride src)
          src
          (pos x, pos w)
          (pos y, pos h)
          (record t { output = on_callback u calls })
        ≡ some (
            count_frame
              (record t { output = on_callback u (calls ++ (part_call u x y w h px ∷ [])) })))
      × IsPart h y x w stride src px
unfolding send_rect perform
send-IsPart dw dh stride src t u calls x w y h holds screen a b c d =
    let tall : (y + h) * stride ≤ length src = omega (arith, mul-le-mul_right stride d, holds.1) in
    let (px, run, part) =
      convert_rows-some h y x w stride src (omega (arith, b, holds.0)) tall holds.2 in
    let wide : h * (4 * w) ≤ h * stride = mul-le-mul_left h (omega (arith, b, holds.0)) in
    let size : w * 4 * h ≡ length px = omega (arith, part.0) in
    let wrap_x : x % 65536 ≡ x = omega arith in
    let wrap_y : y % 65536 ≡ y = omega arith in
    let wrap_w : w % 65536 ≡ w = omega arith in
    let wrap_h : h % 65536 ≡ h = omega arith in
    let sent = perform_callback u calls (bitmap x y w h px) (omega (arith, part.0, wide, tall)) in
    (
      px,
      rw (positive w a, positive h c) (rw (run, size, wrap_x, wrap_y, wrap_w, wrap_h, sent) refl),
      part,
    )

send_rect-empty :
    (allocated : Bool) (g : Gdi) (src : Bytes) (p q : ℤ × ℤ) (s : Paint)
    → (leb_ℤ p.1 (pos 0) || leb_ℤ q.1 (pos 0)) ≡ true
    → send_rect allocated g src p q s ≡ some s
unfolding send_rect
send_rect-empty allocated g src p q s h = rw (h) refl

-- The state with a frame buffer, and with the calls of the callback so far.
abbrev pub at : ℕ → ℕ → ℕ → Bytes → ℕ → List Call → Paint → Paint
at dw dh stride src u calls t = record t {
  gdi = some (gdi_of dw dh stride src);
  output = on_callback u calls;
}

-- What a paint leads to: a state with its new calls, which bring the canvas up to date.
abbrev pub Updates : ℕ → ℕ → ℕ → Bytes → ℕ → List Call → Canvas → Option Paint → Type 0
Updates dw dh stride src u calls canvas result =
    (t : Paint) × (cs : List Call) × (result ≡ some (at dw dh stride src u (calls ++ cs) t))
    × Shows dw dh stride src (draw_all (map message_of cs) canvas)

pub paint_invalid-Updates :
    (dw dh stride : ℕ) (src : Bytes) (t : Paint) (r : Rect) (u : ℕ) (calls : List Call)
    (canvas : Canvas)
    → HoldsDesktop dw dh stride src
    → IsScreen dw dh
    → IsModest r.x r.w
    → IsModest r.y r.h
    → ShowsBeside dw dh stride src r canvas
    → Updates dw dh stride src u calls canvas (
        paint_invalid true
          (gdi_of dw dh stride src)
          src
          (record (at dw dh stride src u calls t) { invalid = r }))
unfolding paint_invalid
paint_invalid-Updates dw dh stride src t r u calls canvas holds screen mx my old =
    go (clip_axis-IsClipped dw r.x r.w mx screen.0 screen.1)
      (clip_axis-IsClipped dh r.y r.h my screen.2 screen.3)
  where
    s0 : Paint
    s0 = record t { gdi = some (gdi_of dw dh stride src); invalid = r }

    result : Type 0
    result = Updates dw dh stride src u calls canvas (
        paint_invalid true (gdi_of dw dh stride src) src
          (record s0 { output = on_callback u calls }))

    -- No point of the desktop is in the rectangle.
    same :
        ((col row : ℕ)
          → col < dw
          → row < dh
          → Covers r.x r.w (pos col)
          → Covers r.y r.h (pos row)
          → ⊥)
        → Shows dw dh stride src canvas
    same none_in col row a b = elim (old col row a b) [
      | inl (cx, cy) ↦ absurd (none_in col row a b cx cy)
      | inr e ↦ e
    ]

    g : Gdi
    g = gdi_of dw dh stride src

    unchanged :
        (p q : ℤ × ℤ)
        → clip_axis (pos dw) r.x r.w ≡ some p
        → clip_axis (pos dh) r.y r.h ≡ some q
        → (leb_ℤ p.1 (pos 0) || leb_ℤ q.1 (pos 0)) ≡ true
        → Shows dw dh stride src canvas
        → result
    unchanged p q run run' h shown = (
      s0,
      [],
      rw (positive dw screen.0, positive dh screen.2)
          (rw (run, run', append-nil calls)
            (send_rect-empty true g src p q (record s0 { output = on_callback u calls }) h)),
      shown,
    )

    go : IsClipped dw r.x r.w → IsClipped dh r.y r.h → result
    go (inr (p, run, empty, none_in)) (inl (ny, nh, run', above, low, inside)) =
        unchanged p (pos ny, pos nh) run run' (rw (empty) refl)
          (same (λ c k a b cx cy. none_in c a cx))
    go (inr (p, run, empty, none_in)) (inr (q, run', empty', none_in')) =
        unchanged p q run run' (rw (empty) refl) (same (λ c k a b cx cy. none_in c a cx))
    go (inl (nx, nw, run, above, low, inside)) (inr (q, run', empty', none_in')) =
        unchanged (pos nx, pos nw) q run run' (rw (positive nw above, empty') refl)
          (same (λ c k a b cx cy. none_in' k b cy))
    go (inl (nx, nw, run, some_x, fits_x, in_x)) (inl (ny, nh, run', some_y, fits_y, in_y)) =
        let (px, sent, part) =
          send-IsPart dw dh stride src s0 u calls nx nw ny nh holds screen some_x fits_x some_y
            fits_y in
        (
          count_frame s0,
          part_call u nx ny nw nh px ∷ [],
          rw (positive dw screen.0, positive dh screen.2) (rw (run, run') sent),
          subst (Shows dw dh stride src)
              (sym (
                draw-part_call u nx ny nw nh px canvas (omega arith) (omega arith) (omega arith)
                  (omega arith)))
              (draw_part-Shows dw dh stride src r canvas nx nw ny nh px part in_x in_y old),
        )
