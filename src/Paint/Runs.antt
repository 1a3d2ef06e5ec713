-- ===== src/Paint/Runs.antt =====
-- The paint callbacks on a desktop of two pixels.
use rdp_mcp.Prelude.{
  zero, suc, ◌≡◌, refl, inl, inr, none, some, [], ◌∷◌, ◌↔◌, Bytes, arith, ℤ, pos, negsuc, ◌≤ℤ◌,
  ◌<ℤ◌, true,
}
use rdp_mcp.Output.Request.{on_callback}
use rdp_mcp.Paint.{Paint, clip_axis}
use rdp_mcp.Paint.Clip.{Covers, clip_axis-Covers}
use rdp_mcp.Paint.Pixels.{buffer_at}
use rdp_mcp.Paint.Invalid.{Updates, at}
use rdp_mcp.Paint.Frames.{Drawing, run_frames, run_frames-Updates, ChangesPart}

clip_axis-Covers_example :
    (x' : ℤ) × (w' : ℤ) × (clip_axis (pos 4) (negsuc 1) (pos 5) ≡ some (x', w'))
    × (Covers x' w' (pos 2)
        ↔ (Covers (negsuc 1) (pos 5) (pos 2) × (pos 0 ≤ℤ pos 2) × (pos 2 <ℤ pos 4)))
clip_axis-Covers_example =
    clip_axis-Covers (pos 4) (negsuc 1) (pos 5) (pos 2)
      (omega arith, omega arith, omega arith, omega arith) (omega arith) (omega arith)

abbrev before : Bytes
before = 1 ∷ 2 ∷ 3 ∷ 0 ∷ 4 ∷ 5 ∷ 6 ∷ 0 ∷ []

abbrev after : Bytes
after = 7 ∷ 8 ∷ 9 ∷ 0 ∷ 4 ∷ 5 ∷ 6 ∷ 0 ∷ []

-- The left pixel changes; the rectangle begins left of the desktop.
abbrev left_pixel : Drawing
left_pixel = record {
  rect = record { x = negsuc 0; y = pos 0; w = pos 2; h = pos 1 };
  buffer = after;
}

abbrev idle : Paint
idle = record {
  gdi = none;
  invalid_null = true;
  invalid = record { x = pos 0; y = pos 0; w = pos 0; h = pos 0 };
  ninvalid = 0;
  end_paint_count = 0;
  resize_gen = 0;
  post_resize_frames = 0;
  output = on_callback 0 [];
}

left_pixel-ChangesPart : ChangesPart 2 1 8 before left_pixel
left_pixel-ChangesPart zero row a b = inl ((omega arith, omega arith), (omega arith, omega arith))
left_pixel-ChangesPart (suc zero) zero a b = inr refl
left_pixel-ChangesPart (suc zero) (suc row) a b = absurd (omega (arith, b))
left_pixel-ChangesPart (suc (suc col)) row a b = absurd (omega (arith, a))

run_frames-Updates_example :
    Updates 2 1 8 after 5 []
      (λ col row. buffer_at 8 before row col)
      (run_frames (left_pixel ∷ []) (at 2 1 8 before 5 [] idle))
run_frames-Updates_example =
    run_frames-Updates 2 1 8 before (left_pixel ∷ []) idle 5 []
      (λ col row. buffer_at 8 before row col) (omega arith, omega arith, omega arith, omega arith)
      (
        (omega arith, omega arith, omega arith),
        (omega arith, omega arith, omega arith, omega arith),
        (omega arith, omega arith, omega arith, omega arith),
        left_pixel-ChangesPart,
        tt,
      )
      (λ col row a b. refl)
