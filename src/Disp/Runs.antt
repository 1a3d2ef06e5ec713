-- ===== src/Disp/Runs.antt =====
-- Runs of disp.c, and its theorems at these runs.
use rdp_mcp.Prelude.{
  inl, inl, ℕ, ◌≡◌, refl, ◌≤◌, true, false, some, List, [], ◌∷◌, ◌++◌, All, pos, arith,
}
use rdp_mcp.Disp.{
  Disp, Size, Sent, Env, init, connected, caps, check, request, no_size, clamp_size, layout_of,
  step, run, inactive, elapsed, disp_rate_limit_ms, disp_check_pending, disp_request_resize,
  send_resize_locked, clamp_even,
}
use rdp_mcp.Disp.Limits.{LayoutInLimits, run-sent_limits}
use rdp_mcp.Disp.Rate.{Spaced, run-Spaced}
use rdp_mcp.Disp.Latest.{newest, request-run-check}

abbrev at : ℕ → Env
at t = record { now = t; ok = true; after = t }

abbrev size : ℕ → ℕ → Size
size w h = record { width = pos w; height = pos h; desktop_sf = pos 100; device_sf = pos 100 }

-- An active channel on which nothing was sent yet.
abbrev active : Disp
active = record {
  mutex_inited = true;
  disp = some 1;
  activated = true;
  last_send_ms = 0;
  pending = false;
  pending_size = no_size;
  initial_set = false;
  initial_size = no_size;
  sent = [];
}

abbrev widths : List Sent → List ℕ
widths [] = []
widths (t ∷ ts) = t.layout.width ∷ widths ts

-- Two resizes in 100 ms: the second waits for the poll 200 ms after the first.
two_resizes :
    widths
      (run
        (request (size 801 600) (at 1000)
          ∷ request (size 90000 10) (at 1100)
          ∷ check (at 1150)
          ∷ check (at 1200)
          ∷ [])
        active).sent
    ≡ 8192 ∷ 800 ∷ []
unfolding run step disp_request_resize disp_check_pending send_resize_locked clamp_even
two_resizes = refl

run-Spaced_example :
    (new : List Sent) × ((run (request (size 800 600) (at 1000) ∷ check (at 1200) ∷ []) active).sent
      ≡ new ++ [])
    × Spaced 0 new
run-Spaced_example =
    run-Spaced (request (size 800 600) (at 1000) ∷ check (at 1200) ∷ []) active 0 (omega arith)
      (tt, omega arith, omega arith, omega arith, (tt, omega arith, omega arith, omega arith, tt))

run-sent_limits_example :
    All
      (λ t. LayoutInLimits t.layout)
      (run
        (connected 1 ∷ caps (at 5) ∷ request (size 99999 3) (at 1000) ∷ [])
        (step init active)).sent
run-sent_limits_example =
    run-sent_limits (connected 1 ∷ caps (at 5) ∷ request (size 99999 3) (at 1000) ∷ []) active

-- A resize requested at once, and a poll before its time.
abbrev polled : Disp
polled = run (check (at 1050) ∷ []) (step (request (size 640 480) (at 1000)) active)

polled_active : inactive polled ≡ false
unfolding run step disp_request_resize disp_check_pending send_resize_locked clamp_even
polled_active = refl

polled_late : disp_rate_limit_ms ≤ elapsed (at 1300) polled
unfolding run step disp_request_resize disp_check_pending send_resize_locked clamp_even
polled_late = omega arith

request-run-check_example :
    let t = step (check (at 1300)) polled in
    (newest t.sent ≡ some (layout_of (clamp_size (size 640 480)))) × (t.pending ≡ false)
request-run-check_example =
    request-run-check (size 640 480) (at 1000) (at 1300) (check (at 1050) ∷ []) active (inl refl)
      (tt, tt) polled_active polled_late
