-- ===== src/Disp/Limits.antt =====
-- The sizes that disp.c lets through.
use rdp_mcp.Prelude.{
  ◌%◌, ◌≤◌, ◌≡◌, true, false, List, [], ◌∷◌, All, ℤ, pos, pos_part, ◌≤ℤ◌, ◌+ℤ◌, ◌<ℤ◌, arith,
}
use rdp_mcp.Disp.{
  Disp, Size, Layout, Sent, Env, Event, init, connected, disconnected, caps, check, set_initial,
  request, clamp_even, clamp_size, layout_of, send_resize_locked, disp_init, cb_disp_caps,
  disp_check_pending, disp_request_resize, disp_min_size, disp_max_size, step, run,
}

abbrev pub InLimits : ℤ → Type 0
InLimits v = (pos 200 ≤ℤ v) × (v ≤ℤ pos 8192) × (pos_part v % 2 ≡ 0)

-- The clamped size is within the limits, a size within the limits loses at most its low bit, and a
-- size outside goes to the nearer limit.
pub clamp_even_limits :
    (v : ℤ)
    → InLimits (clamp_even v disp_min_size disp_max_size)
      × (pos 200 ≤ℤ v
          → v ≤ℤ pos 8192
          → (clamp_even v disp_min_size disp_max_size ≤ℤ v)
            × (v <ℤ clamp_even v disp_min_size disp_max_size +ℤ pos 2))
      × (v <ℤ pos 200 → clamp_even v disp_min_size disp_max_size ≡ pos 200)
      × (pos 8192 <ℤ v → clamp_even v disp_min_size disp_max_size ≡ pos 8192)
unfolding clamp_even
clamp_even_limits v = (ground arith, ground arith, ground arith, ground arith)

abbrev pub SizeInLimits : Size → Type 0
SizeInLimits z = InLimits z.width × InLimits z.height

abbrev pub LayoutInLimits : Layout → Type 0
LayoutInLimits l =
    (200 ≤ l.width)
    × (l.width ≤ 8192)
    × (l.width % 2 ≡ 0)
    × (200 ≤ l.height)
    × (l.height ≤ 8192)
    × (l.height % 2 ≡ 0)

clamp_size_limits : (z : Size) → SizeInLimits (clamp_size z)
clamp_size_limits z = ((clamp_even_limits z.width).0, (clamp_even_limits z.height).0)

layout_of_limits : (z : Size) → SizeInLimits z → LayoutInLimits (layout_of z)
layout_of_limits z h = ground arith

abbrev SentInLimits : Sent → Type 0
SentInLimits t = LayoutInLimits t.layout

pub record Inv (s : Disp) : Type 0 where
  pub pending_ok : s.pending ≡ true → SizeInLimits s.pending_size
  pub initial_ok : s.initial_set ≡ true → SizeInLimits s.initial_size
  pub sent_ok : All SentInLimits s.sent

send-sent :
    (z : Size) (e : Env) (s : Disp)
    → SizeInLimits z
    → All SentInLimits s.sent
    → All SentInLimits (send_resize_locked z e s).sent
unfolding send_resize_locked
send-sent z e s hz h = ground (arith, layout_of_limits z)

-- A send touches the log and the time of the last send only.
pub send-frame :
    (z : Size) (e : Env) (s : Disp)
    → let t = send_resize_locked z e s in
      (t.pending ≡ s.pending)
      × (t.pending_size ≡ s.pending_size)
      × (t.initial_set ≡ s.initial_set)
      × (t.initial_size ≡ s.initial_size)
      × (t.disp ≡ s.disp)
      × (t.activated ≡ s.activated)
unfolding send_resize_locked
send-frame z e s = ground arith

caps-Inv : (e : Env) (s : Disp) → Inv s → Inv (cb_disp_caps e s)
unfolding cb_disp_caps
caps-Inv e s v = record {
  pending_ok = λ p. ground (
    arith,
    send-frame s.pending_size e (record s { activated = true; pending = false }),
    send-frame s.initial_size e (record s { activated = true }),
  );
  initial_ok = λ p. cc;
  sent_ok = ground (
    arith,
    send-sent s.pending_size e (record s { activated = true; pending = false }),
    send-sent s.initial_size e (record s { activated = true }),
  );
}

check-Inv : (e : Env) (s : Disp) → Inv s → Inv (disp_check_pending e s)
unfolding disp_check_pending
check-Inv e s v = ground (
  arith,
  send-frame s.pending_size e (record s { pending = false }),
  send-sent s.pending_size e (record s { pending = false }),
)

request-Inv : (z : Size) (e : Env) (s : Disp) → Inv s → Inv (disp_request_resize z e s)
unfolding disp_request_resize
request-Inv z e s v =
    ground (arith, clamp_size_limits z, send-frame (clamp_size z) e s, send-sent (clamp_size z) e s)

pub step-Inv : (e : Event) (s : Disp) → Inv s → Inv (step e s)
unfolding step
step-Inv init s v = record { pending_ok = λ e. cc; initial_ok = λ e. cc; sent_ok = tt }
step-Inv (connected c) s v = record {
  pending_ok = v.pending_ok;
  initial_ok = v.initial_ok;
  sent_ok = v.sent_ok;
}
step-Inv disconnected s v = record {
  pending_ok = v.pending_ok;
  initial_ok = v.initial_ok;
  sent_ok = v.sent_ok;
}
step-Inv (caps e) s v = caps-Inv e s v
step-Inv (check e) s v = check-Inv e s v
step-Inv (set_initial z) s v = ground (arith, clamp_size_limits z)
step-Inv (request z e) s v = request-Inv z e s v

run-Inv : (es : List Event) (s : Disp) → Inv s → Inv (run es s)
unfolding run
run-Inv [] s v = v
run-Inv (e ∷ es) s v = run-Inv es (step e s) (step-Inv e s v)

-- Whatever calls reach the module after `disp_init`, with any sizes and at any times, every layout
-- that it hands to FreeRDP has both sides between 200 and 8192 and even.
pub run-sent_limits :
    (es : List Event) (s : Disp) → All (λ t. LayoutInLimits t.layout) (run es (step init s)).sent
run-sent_limits es s =
    (run-Inv es (step init s) (
      unfold step disp_init in
      record { pending_ok = λ e. cc; initial_ok = λ e. cc; sent_ok = tt })).sent_ok
