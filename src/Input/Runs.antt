-- ===== src/Input/Runs.antt =====
-- Runs of input.c, and its theorems at these runs.
use rdp_mcp.Prelude.{◌≡◌, refl, true, [], ◌∷◌, pos, negsuc}
use rdp_mcp.Input.{mouse, abs_delta, input_mouse_scroll, wheel_flags}
use rdp_mcp.Samples.{freerdp}

-- A notch towards the user, and INT_MIN.
scroll_down :
    input_mouse_scroll freerdp true (pos 1) (negsuc 0) (negsuc 119) true []
    ≡ mouse 0x0378 1 65535 ∷ []
unfolding input_mouse_scroll wheel_flags abs_delta
scroll_down = refl

scroll_least :
    input_mouse_scroll freerdp true (pos 1) (pos 1) (negsuc 2147483647) true []
    ≡ mouse 0x0300 1 1 ∷ []
unfolding input_mouse_scroll wheel_flags abs_delta
scroll_least = refl
