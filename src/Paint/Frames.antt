-- ===== src/Paint/Frames.antt =====
-- The paint callbacks of connection.c from frame to frame: what a canvas that draws their messages shows.
use rdp_mcp.Prelude.{
  ℕ, ◌<◌, ◌≡◌, refl, ◌∙◌, sym, ap, subst, ◌⊎◌, inl, inr, Option, none, some, true, false, List, [],
  ◌∷◌, ◌++◌, map, Bytes, pos, append_assoc, append-nil, ◌>>=◌,
}
use rdp_mcp.Output.{Call}
use mathlib.Core.List.{map-append}
use rdp_mcp.Output.Frame.{Message}
use rdp_mcp.Output.Request.{message_of}
use rdp_mcp.Paint.{Paint, Rect, cb_begin_paint, cb_end_paint}
use rdp_mcp.Paint.Clip.{Covers, IsModest}
use rdp_mcp.Paint.Pixels.{buffer_at}
use rdp_mcp.Paint.Shown.{Shows}
use rdp_mcp.Paint.Invalid.{HoldsDesktop, IsScreen, at, Updates, paint_invalid-Updates}
use rdp_mcp.Paint.Viewer.{Canvas, draw, draw_all}

-- GDI draws to the frame buffer, in the rectangle that it then names as invalid.
pub record Drawing : Type 0 where
  pub rect : Rect
  pub buffer : Bytes

abbrev pub gdi_draws : Drawing → Paint → Paint
gdi_draws d s = record s {
  gdi = elim s.gdi [ none ↦ none | some g ↦ some (record g { primary_buffer = some d.buffer }) ];
  invalid_null = false;
  invalid = d.rect;
}

-- A frame: the two callbacks, and what GDI draws between them.
abbrev pub frame : Drawing → Paint → Option Paint
frame d s = cb_end_paint true (gdi_draws d (cb_begin_paint s))

abbrev pub run_frames : List Drawing → Paint → Option Paint
run_frames [] s = some s
run_frames (d ∷ ds) s = do s' ← frame d s; run_frames ds s'

-- The frame buffer after them.
abbrev pub last_buffer : Bytes → List Drawing → Bytes
last_buffer src [] = src
last_buffer src (d ∷ ds) = last_buffer d.buffer ds

-- A drawing changes pixels only in its rectangle.
abbrev pub ChangesPart : ℕ → ℕ → ℕ → Bytes → Drawing → Type 0
ChangesPart dw dh stride src d =
    (col row : ℕ)
    → col < dw
    → row < dh
    → (Covers d.rect.x d.rect.w (pos col) × Covers d.rect.y d.rect.h (pos row))
      ⊎ (buffer_at stride src row col ≡ buffer_at stride d.buffer row col)

abbrev pub AreDrawings : ℕ → ℕ → ℕ → Bytes → List Drawing → Type 0
AreDrawings dw dh stride src [] = Unit
AreDrawings dw dh stride src (d ∷ ds) =
    HoldsDesktop dw dh stride d.buffer
    × IsModest d.rect.x d.rect.w
    × IsModest d.rect.y d.rect.h
    × ChangesPart dw dh stride src d
    × AreDrawings dw dh stride d.buffer ds

frame-Updates :
    (dw dh stride : ℕ) (src : Bytes) (d : Drawing) (t : Paint) (u : ℕ) (calls : List Call)
    (canvas : Canvas)
    → HoldsDesktop dw dh stride d.buffer
    → IsScreen dw dh
    → IsModest d.rect.x d.rect.w
    → IsModest d.rect.y d.rect.h
    → ChangesPart dw dh stride src d
    → Shows dw dh stride src canvas
    → Updates dw dh stride d.buffer u calls canvas (frame d (at dw dh stride src u calls t))
unfolding cb_begin_paint cb_end_paint
frame-Updates dw dh stride src d t u calls canvas holds screen mx my changes shown =
    paint_invalid-Updates dw dh stride d.buffer (record t { invalid_null = false; ninvalid = 0 })
      d.rect u calls canvas holds screen mx my
      (λ col row a b. elim (changes col row a b) [
        | inl covers ↦ inl covers
        | inr same ↦ inr (shown col row a b ∙ same)
      ])

draw_all-append :
    (ms ns : List Message) (canvas : Canvas)
    → draw_all (ms ++ ns) canvas ≡ draw_all ns (draw_all ms canvas)
draw_all-append [] ns canvas = refl
draw_all-append (m ∷ ms) ns canvas = draw_all-append ms ns (draw m canvas)

-- Frame after frame, whatever GDI draws as long as it changes pixels only in the rectangle that it
-- names, a canvas that showed the desktop and draws the bitmap messages that are sent shows the desktop
-- as it is after the last frame; no frame fails, reads outside the frame buffer or overflows an `int`.
-- The buffers are allocated, the desktop fits 16 bits on each side, the frame buffer is below 2 ^ 31
-- bytes, and the rectangles are within 2 ^ 30.
pub run_frames-Updates :
    (dw dh stride : ℕ) (src : Bytes) (ds : List Drawing) (t : Paint) (u : ℕ) (calls : List Call)
    (canvas : Canvas)
    → IsScreen dw dh
    → AreDrawings dw dh stride src ds
    → Shows dw dh stride src canvas
    → Updates dw dh stride
        (last_buffer src ds)
        u
        calls
        canvas
        (run_frames ds (at dw dh stride src u calls t))
run_frames-Updates dw dh stride src [] t u calls canvas screen good shown =
    (t, [], rw (append-nil calls) refl, shown)
run_frames-Updates dw dh stride src (d ∷ ds) t u calls canvas screen (holds, mx, my, changes, good)
      shown =
    let (t', cs, run, now) =
      frame-Updates dw dh stride src d t u calls canvas holds screen mx my changes shown in
    let (t'', cs', run', later) =
      run_frames-Updates dw dh stride d.buffer ds t' u (calls ++ cs)
        (draw_all (map message_of cs) canvas) screen good now in
    (
      t'',
      cs ++ cs',
      rw (run) (
          run'
          ∙ ap (λ c. some (at dw dh stride (last_buffer d.buffer ds) u c t''))
              (append_assoc calls cs cs')),
      subst (Shows dw dh stride (last_buffer d.buffer ds))
          (sym (
            ap (λ ms. draw_all ms canvas) (map-append message_of cs cs')
            ∙ draw_all-append (map message_of cs) (map message_of cs') canvas))
          later,
    )
