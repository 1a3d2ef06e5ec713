-- ===== src/Input/Events.antt =====
-- What input.c sends for the wheel.
use rdp_mcp.Prelude.{◌+◌, ◌≡◌, leb, if◌then◌else◌, ℤ, IsInt32, wrap, min, arith, pos_part, neg_part}
use rdp_mcp.Input.{abs_delta}

-- The distance of the wheel is that of the argument up to 120, except that INT_MIN stays itself, and
-- its low byte is 0.
pub abs_delta_lem :
    (delta : ℤ)
    → IsInt32 delta
    → wrap 256 (abs_delta delta)
      ≡ (if leb 2147483648 (neg_part delta) then 0 else min (pos_part delta + neg_part delta) 120)
unfolding abs_delta
abs_delta_lem delta h = ground arith
