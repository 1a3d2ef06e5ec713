-- ===== src/Disp/Latest.antt =====
-- The latest resize request of disp.c, and when it goes out.
use rdp_mcp.Prelude.{
  inl, ℕ, ◌⊎◌, ◌≤◌, ◌≡◌, refl, ◌⊎◌, inl, inr, ℕ, true, false, Option, none, some, List, [], ◌∷◌,
  arith, if◌then◌else◌, ◌∙◌,
}
use rdp_mcp.Disp.{
  Disp, Size, Layout, Sent, Env, Event, init, connected, disconnected, caps, check, set_initial,
  request, clamp_size, layout_of, elapsed, inactive, is_some, disp_rate_limit_ms,
  send_resize_locked, cb_disp_caps, disp_check_pending, disp_request_resize, step, run,
}
use rdp_mcp.Disp.Limits.{send-frame}
use rdp_mcp.Disp.Rate.{send_active}

abbrev pub newest : List Sent → Option Layout
newest [] = none
newest (t ∷ ts) = some t.layout

-- What the server has been told last, or is going to be told.
abbrev pub target : Disp → Option Layout
target s = if s.pending then some (layout_of s.pending_size) else newest s.sent

newest-send :
    (z : Size) (e : Env) (s : Disp)
    → inactive s ≡ false
    → newest (send_resize_locked z e s).sent ≡ some (layout_of z)
newest-send z e s on = let (c, d, sends) = send_active z e s on in rw sends

request-target :
    (z : Size) (e : Env) (s : Disp)
    → target (disp_request_resize z e s) ≡ some (layout_of (clamp_size z))
unfolding disp_request_resize
request-target z e s = ground (arith, newest-send (clamp_size z) e s)

request-initial :
    (z : Size) (e : Env) (s : Disp) → (disp_request_resize z e s).initial_set ≡ s.initial_set
unfolding disp_request_resize
request-initial z e s = ground (arith, send-frame (clamp_size z) e s)

-- What may happen between a request and the moment that it is drained: the channel comes and goes, it
-- announces its capabilities while it is connected, and the event loop looks for pending resizes.
abbrev pub Quiet : Event → Disp → Type 0
Quiet init s = ⊥
Quiet (set_initial z) s = ⊥
Quiet (request z e) s = ⊥
Quiet (caps e) s = is_some s.disp ≡ true
Quiet _ s = Unit

abbrev pub AllQuiet : List Event → Disp → Type 0
AllQuiet [] s = Unit
AllQuiet (e ∷ es) s = Quiet e s × AllQuiet es (step e s)

check-target : (e : Env) (s : Disp) → target (disp_check_pending e s) ≡ target s
unfolding disp_check_pending
check-target e s = ground (
  arith,
  newest-send s.pending_size e (record s { pending = false }),
  send-frame s.pending_size e (record s { pending = false }),
)

caps-target :
    (e : Env) (s : Disp)
    → s.initial_set ≡ false
    → is_some s.disp ≡ true
    → target (cb_disp_caps e s) ≡ target s
unfolding cb_disp_caps
caps-target e s h on =
    let ready = record s { activated = true; pending = false } in
    ground
      (arith, newest-send s.pending_size e ready (ground arith), send-frame s.pending_size e ready)

check-initial : (e : Env) (s : Disp) → (disp_check_pending e s).initial_set ≡ s.initial_set
unfolding disp_check_pending
check-initial e s = ground (arith, send-frame s.pending_size e (record s { pending = false }))

-- The initial layout does not stand before the pending resize: it was sent, or the channel is yet to
-- become active, and drops it for the resize.
abbrev pub Foremost : Disp → Type 0
Foremost s = (s.initial_set ≡ false) ⊎ ((s.pending ≡ true) × (inactive s ≡ true))

caps-pending :
    (e : Env) (s : Disp)
    → s.pending ≡ true
    → is_some s.disp ≡ true
    → target (cb_disp_caps e s) ≡ target s
unfolding cb_disp_caps
caps-pending e s p on =
    let ready = record s { activated = true; pending = false } in
    ground
      (arith, newest-send s.pending_size e ready (ground arith), send-frame s.pending_size e ready)

caps-Foremost :
    (e : Env) (s : Disp) → is_some s.disp ≡ true → Foremost s → target (cb_disp_caps e s) ≡ target s
caps-Foremost e s on (inl h) = caps-target e s h on
caps-Foremost e s on (inr (p, _)) = caps-pending e s p on

check-inactive : (e : Env) (s : Disp) → inactive s ≡ true → disp_check_pending e s ≡ s
unfolding disp_check_pending
check-inactive e s h = ground (arith, h)

check-Foremost : (e : Env) (s : Disp) → Foremost s → Foremost (disp_check_pending e s)
check-Foremost e s (inl h) = inl (check-initial e s ∙ h)
check-Foremost e s (inr (p, h)) = rw (check-inactive e s h) (inr (p, h))

connected-Foremost :
    (c : Option ℕ) (s : Disp) → Foremost s → Foremost (record s { disp = c; activated = false })
connected-Foremost c s (inl h) = inl h
connected-Foremost c s (inr (p, _)) = inr (p, ground arith)

request-Foremost :
    (z : Size) (e : Env) (s : Disp)
    → (s.initial_set ≡ false) ⊎ (inactive s ≡ true)
    → Foremost (disp_request_resize z e s)
request-Foremost z e s (inl h) = inl (request-initial z e s ∙ h)
request-Foremost z e s (inr h) =
    unfold disp_request_resize in inr (ground (arith, h), ground (arith, h))

step-target :
    (e : Event) (s : Disp)
    → Quiet e s
    → Foremost s
    → (target (step e s) ≡ target s) × Foremost (step e s)
unfolding step
step-target init s q h = absurd q
step-target (set_initial z) s q h = absurd q
step-target (request z e) s q h = absurd q
step-target (connected c) s q h = (refl, connected-Foremost (some c) s h)
step-target disconnected s q h = (refl, connected-Foremost none s h)
step-target (check e) s q h = (check-target e s, check-Foremost e s h)
step-target (caps e) s q h = (caps-Foremost e s q h, inl (unfold cb_disp_caps in refl))

run-target :
    (es : List Event) (s : Disp) → AllQuiet es s → Foremost s → target (run es s) ≡ target s
unfolding run
run-target [] s q h = refl
run-target (e ∷ es) s (q, qs) h =
    let (same, kept) = step-target e s q h in run-target es (step e s) qs kept ∙ same

check-drains :
    (e : Env) (s : Disp)
    → inactive s ≡ false
    → disp_rate_limit_ms ≤ elapsed e s
    → (newest (disp_check_pending e s).sent ≡ target s) × ((disp_check_pending e s).pending ≡ false)
unfolding disp_check_pending
check-drains e s on late =
    let idle = record s { pending = false } in
    ground (arith, newest-send s.pending_size e idle, send-frame s.pending_size e idle)

-- A requested resize is not forgotten before it is handed to FreeRDP. Let it be requested while the
-- channel is not active (as before it first is), or while no initial layout is waiting; let the
-- channel then come and go, announce its capabilities while connected, and be polled, in any order,
-- with no further request or initial layout. If the channel is then active and 200 ms have passed
-- since the last layout that FreeRDP accepted, the next poll leaves nothing pending, and the newest
-- layout handed to FreeRDP, be it accepted or refused, is the requested size, clamped.
pub request-run-check :
    (z : Size) (e e' : Env) (es : List Event) (s : Disp)
    → (s.initial_set ≡ false) ⊎ (inactive s ≡ true)
    → AllQuiet es (step (request z e) s)
    → inactive (run es (step (request z e) s)) ≡ false
    → disp_rate_limit_ms ≤ elapsed e' (run es (step (request z e) s))
    → let t = step (check e') (run es (step (request z e) s)) in
      (newest t.sent ≡ some (layout_of (clamp_size z))) × (t.pending ≡ false)
unfolding step
request-run-check z e e' es s h q on late =
    let (sent, idle) = check-drains e' (run es (disp_request_resize z e s)) on late in
    (
      sent
          ∙ run-target es (disp_request_resize z e s) q (request-Foremost z e s h)
          ∙ request-target z e s,
      idle,
    )
