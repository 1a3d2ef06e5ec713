-- ===== src/Disp.antt =====
-- native/freerdp-helper/src/disp.c: the display-control channel, which resizes the remote desktop.
-- Its static variables are one record; every public function and the capability callback is a
-- function on it. FreeRDP's `SendMonitorLayout` is not part of the repository: what it returns, and
-- what GetTickCount64 reads, are arguments of each operation. `sent` logs the layouts handed to it
-- since `disp_init`, newest first.
pub mod Limits
pub mod Rate
pub mod Latest
mod Runs
use rdp_mcp.Prelude.{
  ℕ, zero, suc, ◌+◌, ◌-◌, ◌%◌, Bool, true, false, not, ◌&&◌, ◌||◌, Option, none, some, List, [],
  ◌∷◌, ltb, if◌then◌else◌, ℤ, pos, negsuc, ltb_ℤ, u32,
}

abbrev pub disp_rate_limit_ms : ℕ
disp_rate_limit_ms = 200

abbrev pub disp_min_size : ℤ
disp_min_size = pos 200

abbrev pub disp_max_size : ℤ
disp_max_size = pos 8192

-- The fields of DISPLAY_CONTROL_MONITOR_LAYOUT that vary; the others are constants of FreeRDP or 0.
pub record Layout : Type 0 where
  pub width : ℕ
  pub height : ℕ
  pub desktop_scale_factor : ℕ
  pub device_scale_factor : ℕ

-- A call of SendMonitorLayout: the channel context, the layout, whether it returned CHANNEL_RC_OK,
-- and the time that was read before it and, if it succeeded, after it.
pub record Sent : Type 0 where
  pub context : ℕ
  pub layout : Layout
  pub ok : Bool
  pub at : ℕ

-- A size with its two scale factors, as `int`s.
pub record Size : Type 0 where
  pub width : ℤ
  pub height : ℤ
  pub desktop_sf : ℤ
  pub device_sf : ℤ

-- `disp` is `s_disp`; `pending_size` and `initial_size` are the four variables of each group.
pub record Disp : Type 0 where
  pub mutex_inited : Bool
  pub disp : Option ℕ
  pub activated : Bool
  pub last_send_ms : ℕ
  pub pending : Bool
  pub pending_size : Size
  pub initial_set : Bool
  pub initial_size : Size
  pub sent : List Sent

-- What the environment answers: `now` is what `now_ms` reads for the rate limit, `ok` says that
-- SendMonitorLayout returned CHANNEL_RC_OK, and `after` is what GetTickCount64 reads then.
pub record Env : Type 0 where
  pub now : ℕ
  pub ok : Bool
  pub after : ℕ

-- `val & ~1` of an `int`.
abbrev pub clear_low_bit : ℤ → ℤ
clear_low_bit (pos n) = pos (n - n % 2)
clear_low_bit (negsuc n) = negsuc (n + (1 - n % 2))

unfoldable pub clamp_even : ℤ → ℤ → ℤ → ℤ
clamp_even val lo hi =
    let raised = if ltb_ℤ val lo then lo else val in
    let clamped = if ltb_ℤ hi raised then hi else raised in clear_low_bit clamped

abbrev pub is_some : Option ℕ → Bool
is_some none = false
is_some (some c) = true

-- `!s_disp || !s_activated`
abbrev pub inactive : Disp → Bool
inactive s = not (is_some s.disp) || not s.activated

abbrev pub layout_of : Size → Layout
layout_of z = record {
  width = u32 z.width;
  height = u32 z.height;
  desktop_scale_factor = u32 z.desktop_sf;
  device_scale_factor = u32 z.device_sf;
}

abbrev pub record_sent : ℕ → Size → Env → Disp → Disp
record_sent c z e s = record s {
  last_send_ms = if e.ok then e.after else s.last_send_ms;
  sent = record { context = c; layout = layout_of z; ok = e.ok; at = e.after } ∷ s.sent;
}

unfoldable pub send_resize_locked : Size → Env → Disp → Disp
send_resize_locked z e s =
    if not s.activated then s else elim s.disp [ none ↦ s | some c ↦ record_sent c z e s ]

unfoldable pub cb_disp_caps : Env → Disp → Disp
cb_disp_caps e s =
    let active = record s { activated = true } in
    let drained =
      if s.pending
      then send_resize_locked s.pending_size e (record active { pending = false })
      else if s.initial_set
      then send_resize_locked s.initial_size e active
      else active in
    record drained { initial_set = false }

abbrev pub no_size : Size
no_size = record { width = pos 0; height = pos 0; desktop_sf = pos 100; device_sf = pos 100 }

unfoldable pub disp_init : Disp → Disp
disp_init s = record {
  mutex_inited = true;
  disp = none;
  activated = false;
  last_send_ms = 0;
  pending = false;
  pending_size = no_size;
  initial_set = false;
  initial_size = no_size;
  sent = [];
}

unfoldable pub disp_channel_connected : ℕ → Disp → Disp
disp_channel_connected c s = record s { disp = some c; activated = false }

unfoldable pub disp_channel_disconnected : Disp → Disp
disp_channel_disconnected s = record s { disp = none; activated = false }

abbrev pub clamp_size : Size → Size
clamp_size z = record z {
  width = clamp_even z.width disp_min_size disp_max_size;
  height = clamp_even z.height disp_min_size disp_max_size;
}

unfoldable pub disp_set_initial_layout : Size → Disp → Disp
disp_set_initial_layout z s =
    if not s.mutex_inited then s else record s { initial_size = clamp_size z; initial_set = true }

-- `UINT64 elapsed = now_ms() - s_last_send_ms`
abbrev pub elapsed : Env → Disp → ℕ
elapsed e s = (e.now + 18446744073709551616 - s.last_send_ms) % 18446744073709551616

unfoldable pub disp_request_resize : Size → Env → Disp → Disp
disp_request_resize z e s =
    let queued = record s { pending = true; pending_size = clamp_size z } in
    if inactive s
    then queued
    else if ltb (elapsed e s) disp_rate_limit_ms
    then queued
    else (let tried = send_resize_locked (clamp_size z) e s in record tried { pending = false })

unfoldable pub disp_check_pending : Env → Disp → Disp
disp_check_pending e s =
    if not s.pending || inactive s
    then s
    else if ltb (elapsed e s) disp_rate_limit_ms
    then s
    else send_resize_locked s.pending_size e (record s { pending = false })

-- The calls that reach the module, from the command thread and from the event loop; each runs
-- under the module's mutex, so a history is a sequence of them.
pub data Event : Type 0 where
  init : Event
  connected : ℕ → Event
  disconnected : Event
  caps check : Env → Event
  set_initial : Size → Event
  request : Size → Env → Event

unfoldable pub step : Event → Disp → Disp
unfolding disp_init disp_channel_connected disp_channel_disconnected cb_disp_caps
    disp_set_initial_layout disp_request_resize disp_check_pending
step init s = disp_init s
step (connected c) s = disp_channel_connected c s
step disconnected s = disp_channel_disconnected s
step (caps e) s = cb_disp_caps e s
step (check e) s = disp_check_pending e s
step (set_initial z) s = disp_set_initial_layout z s
step (request z e) s = disp_request_resize z e s

unfoldable pub run : List Event → Disp → Disp
run [] s = s
run (e ∷ es) s = run es (step e s)
