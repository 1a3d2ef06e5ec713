-- ===== src/Paint/Clip.antt =====
-- The clipping of connection.c.
use rdp_mcp.Prelude.{
  ◌≡◌, ◌↔◌, some, ℤ, pos, negsuc, ◌≤ℤ◌, ◌<ℤ◌, ◌+ℤ◌, ◌-ℤ◌, ltb_ℤ, arith, if◌then◌else◌,
}
use rdp_mcp.Paint.{in_int, clip_low, clip_high, clip_axis}

-- The points of an interval.
abbrev pub Covers : ℤ → ℤ → ℤ → Type 0
Covers x w p = (x ≤ℤ p) × (p <ℤ x +ℤ w)

-- An interval that GDI keeps: not negative in size, and far from the limits of an `int`.
abbrev pub IsModest : ℤ → ℤ → Type 0
IsModest x w =
    (negsuc 1073741823 ≤ℤ x) × (x ≤ℤ pos 1073741823) × (pos 0 ≤ℤ w) × (w ≤ℤ pos 1073741823)

abbrev pub low : ℤ → ℤ → ℤ × ℤ
low x w = if ltb_ℤ x (pos 0) then (pos 0, w +ℤ x) else (x, w)

abbrev pub high : ℤ → ℤ × ℤ → ℤ × ℤ
high dw p = if ltb_ℤ dw (p.0 +ℤ p.1) then (p.0, dw -ℤ p.0) else p

in_int-some : (v : ℤ) → negsuc 2147483647 ≤ℤ v → v ≤ℤ pos 2147483647 → in_int v ≡ some v
in_int-some v h k = ground arith

clip_low-some : (x w : ℤ) → IsModest x w → clip_low x w ≡ some (low x w)
unfolding clip_low
clip_low-some x w h = ground arith

clip_high-some :
    (dw x w : ℤ)
    → pos 0 ≤ℤ x
    → x ≤ℤ pos 1073741823
    → negsuc 1073741823 ≤ℤ w
    → w ≤ℤ pos 1073741823
    → pos 0 ≤ℤ dw
    → dw ≤ℤ pos 1073741823
    → clip_high dw (x, w) ≡ some (high dw (x, w))
unfolding clip_high
clip_high-some dw x w a b c d e f = ground arith

low_bounds :
    (x w : ℤ)
    → IsModest x w
    → (pos 0 ≤ℤ (low x w).0)
      × ((low x w).0 ≤ℤ pos 1073741823)
      × (negsuc 1073741823 ≤ℤ (low x w).1)
      × ((low x w).1 ≤ℤ pos 1073741823)
low_bounds x w h = (ground arith, ground arith, ground arith, ground arith)

pub clip_axis-some :
    (dw x w : ℤ)
    → IsModest x w
    → pos 0 <ℤ dw
    → dw ≤ℤ pos 1073741823
    → clip_axis dw x w ≡ some (high dw (low x w))
unfolding clip_axis
clip_axis-some dw x w h d e =
    let (a, b, c, f) = low_bounds x w h in
    rw (clip_low-some x w h) (clip_high-some dw (low x w).0 (low x w).1 a b c f (ground arith) e)

-- What is left of an interval lies in 0 .. dw, and is that of the interval that does.
pub clip_bounds :
    (dw x w : ℤ)
    → pos 0 <ℤ dw
    → pos 0 <ℤ (high dw (low x w)).1
    → (pos 0 ≤ℤ (high dw (low x w)).0) × ((high dw (low x w)).0 +ℤ (high dw (low x w)).1 ≤ℤ dw)
clip_bounds dw x w d h = (ground arith, ground arith)

low-Covers : (x w p : ℤ) → Covers (low x w).0 (low x w).1 p ↔ (Covers x w p × (pos 0 ≤ℤ p))
low-Covers x w p = (λ h. ground arith, λ h. ground arith)

high-Covers :
    (dw x w p : ℤ)
    → pos 0 ≤ℤ x
    → Covers (high dw (x, w)).0 (high dw (x, w)).1 p ↔ (Covers x w p × (p <ℤ dw))
high-Covers dw x w p h = (λ k. ground arith, λ k. ground arith)

pub clipped_Covers :
    (dw x w p : ℤ)
    → IsModest x w
    → Covers (high dw (low x w)).0 (high dw (low x w)).1 p
      ↔ (Covers x w p × (pos 0 ≤ℤ p) × (p <ℤ dw))
clipped_Covers dw x w p h =
    let near = low-Covers x w p in
    let far = high-Covers dw (low x w).0 (low x w).1 p (low_bounds x w h).0 in
    (
      λ k. let (c, below) = far.0 k in let (old, above) = near.0 c in (old, above, below),
      λ (old, above, below). far.1 (near.1 (old, above), below),
    )

-- On each axis the clipping of `cb_end_paint` leaves the part of the interval that lies on the desktop:
-- it never overflows for an interval and a desktop below 2 ^ 30, and a point is in the interval that is
-- left exactly if it is in the interval and on the desktop.
pub clip_axis-Covers :
    (dw x w p : ℤ)
    → IsModest x w
    → pos 0 <ℤ dw
    → dw ≤ℤ pos 1073741823
    → (x' : ℤ) × (w' : ℤ) × (clip_axis dw x w ≡ some (x', w'))
      × (Covers x' w' p ↔ (Covers x w p × (pos 0 ≤ℤ p) × (p <ℤ dw)))
clip_axis-Covers dw x w p h d e = (
  (high dw (low x w)).0,
  (high dw (low x w)).1,
  clip_axis-some dw x w h d e,
  clipped_Covers dw x w p h,
)
