-- ===== src/Helper/Instances.antt =====
-- The instances of main.c.
use rdp_mcp.Prelude.{
  ℕ, ◌+◌, ◌≡◌, refl, Bool, true, false, ◌&&◌, Option, none, some, List, ◌∷◌, ◌++◌, if◌then◌else◌,
  if_intro, length, length-append, get_elem?, arith,
}
use rdp_mcp.Json.{Heap}
use rdp_mcp.Command.{
  ConnectConfig, Command, connect, disconnect, mouse_move, mouse_button_down, mouse_button_up,
  mouse_scroll, key_down, key_up, unicode_key_down, unicode_key_up, resize, clipboard_set,
  clipboard_set_files, clipboard_request_files, unknown,
}
use rdp_mcp.Input.{InputApi}
use rdp_mcp.Disp
use rdp_mcp.Disp.{Size, disp_init, disp_set_initial_layout}
use rdp_mcp.Session.{Answers, connected_to, send_error}
use rdp_mcp.Session.Ownership.{instances, kept, remove-own}
use rdp_mcp.Helper.{
  Helper, Worker, Phase, looping, leaving, returned, log, leave, put_phase, release, worker_turn,
  event_loop_thread, start_thread, connect_instance, start_connection, live, when_live, dispatch,
}

-- The instances that were created and not freed are that of `g_instance`, and so many others; none is
-- freed or connected that was not created or that was freed before.
abbrev pub Accounts : ℕ → Helper → Type 0
Accounts n s =
    (js : List ℕ) × (instances s.actions ≡ some (kept s.g_instance ++ js)) × (length js ≡ n)

-- The instances that a command leaves behind: that of `g_instance`, if it connects anew.
abbrev pub replaces : Command → Helper → ℕ
replaces (connect c) s = if s.g_connected then 0 else length (kept s.g_instance)
replaces _ s = 0

abbrev pub replaces_read : Option Command × Heap → Helper → ℕ
replaces_read (none, h) s = 0
replaces_read (some c, h) s = replaces c (record s { heap = h })

abbrev Lost : List ℕ → Helper → Type 0
Lost js s = instances s.actions ≡ some (kept s.g_instance ++ js)

thread-Lost :
    (ok : Bool) (i : ℕ) (js : List ℕ) (s : Helper)
    → s.g_instance ≡ some i
    → instances s.actions ≡ some (i ∷ js)
    → Lost js (start_thread ok i s)
unfolding start_thread
thread-Lost true i js s at logged = ground (arith, remove-own i)
thread-Lost false i js s at logged = ground (arith, remove-own i)

connect-Lost :
    (a : Answers) (z : Size) (i : ℕ) (js : List ℕ) (s : Helper)
    → s.g_instance ≡ some i
    → instances s.actions ≡ some (i ∷ js)
    → Lost js (connect_instance a z i s)
unfolding connect_instance
connect-Lost a z i js s at logged =
    if_intro (Lost js) a.connect_ok
      (thread-Lost a.thread_ok i js
        (record (log (connected_to i) s) {
          disp = disp_set_initial_layout z s.disp;
          g_connected = true;
        })
        at (ground (arith, logged)))
      (ground (arith, logged))

start-Lost :
    (a : Answers) (c : ConnectConfig) (js : List ℕ) (s : Helper)
    → Lost js s
    → Lost (kept s.g_instance ++ js) (start_connection a c s)
unfolding start_connection
start-Lost a c js s h =
    if_intro (Lost (kept s.g_instance ++ js)) a.init_ok
      (connect-Lost a _ s.next_instance (kept s.g_instance ++ js) _ refl (rw (instances, h) refl)) h

live-Accounts : (n : ℕ) (s t : Helper) → Accounts n s → Accounts n t → Accounts n (when_live t s)
live-Accounts n s t h k = if_intro (Accounts n) (live s) k h

pub none_more : (n : ℕ) (s : Helper) → Accounts n s → Accounts (0 + n) s
none_more n s (js, h, count) = (js, h, omega (arith, count))

pub dispatch-Accounts :
    (api : InputApi) (a : Answers) (c : Command) (n : ℕ) (s : Helper)
    → Accounts n s
    → Accounts (replaces c s + n) (dispatch api a c s)
unfolding dispatch
dispatch-Accounts api a (connect c) n s (js, h, count) = by_flag s.g_connected
  where
    by_flag :
        (b : Bool)
        → Accounts ((if b then 0 else length (kept s.g_instance)) + n) (
            release
              (connect c)
              (if b then log (send_error "Already connected") s else start_connection a c s))
    by_flag true = (js, h, omega (arith, count))
    by_flag false = (
      kept s.g_instance ++ js,
      start-Lost a c js s h,
      omega (arith, count, length-append (kept s.g_instance) js),
    )
dispatch-Accounts api a disconnect n s h = none_more n s h
dispatch-Accounts api a (mouse_move x y) n s h =
    let more = none_more n s h in live-Accounts (0 + n) s _ more more
dispatch-Accounts api a (mouse_button_down x y b) n s h =
    let more = none_more n s h in live-Accounts (0 + n) s _ more more
dispatch-Accounts api a (mouse_button_up x y b) n s h =
    let more = none_more n s h in live-Accounts (0 + n) s _ more more
dispatch-Accounts api a (mouse_scroll x y d v) n s h =
    let more = none_more n s h in live-Accounts (0 + n) s _ more more
dispatch-Accounts api a (key_down k x) n s h =
    let more = none_more n s h in live-Accounts (0 + n) s _ more more
dispatch-Accounts api a (key_up k x) n s h =
    let more = none_more n s h in live-Accounts (0 + n) s _ more more
dispatch-Accounts api a (unicode_key_down k) n s h =
    let more = none_more n s h in live-Accounts (0 + n) s _ more more
dispatch-Accounts api a (unicode_key_up k) n s h =
    let more = none_more n s h in live-Accounts (0 + n) s _ more more
dispatch-Accounts api a (resize w k d v) n s h =
    let more = none_more n s h in live-Accounts (0 + n) s _ more more
dispatch-Accounts api a (clipboard_set t k) n s h =
    let more = none_more n s h in live-Accounts (0 + n) s _ more more
dispatch-Accounts api a (clipboard_set_files t) n s h =
    let more = none_more n s h in live-Accounts (0 + n) s _ more more
dispatch-Accounts api a (clipboard_request_files t) n s h =
    let more = none_more n s h in live-Accounts (0 + n) s _ more more
dispatch-Accounts api a unknown n s h = none_more n s h

leave-Accounts : (k n : ℕ) (w : Worker) (s : Helper) → Accounts n s → Accounts n (leave k w s)
leave-Accounts k n w s h =
    if_intro (λ (t : Helper). Accounts n (put_phase k w returned t)) s.g_running h h

pub turn-Accounts :
    (events : Bool) (e : Disp.Env) (k n : ℕ) (s : Helper)
    → Accounts n s
    → Accounts n (event_loop_thread events e k s)
unfolding event_loop_thread
turn-Accounts events e k n s h = by_worker (get_elem? s.workers k)
  where
    by_phase : (w : Worker) (p : Phase) → Accounts n (worker_turn events e k w p s)
    by_phase w looping =
        if_intro (Accounts n) (s.g_running && s.g_connected) (if_intro (Accounts n) events h h) h
    by_phase w leaving = leave-Accounts k n w s h
    by_phase w returned = h

    by_worker :
        (o : Option Worker)
        → Accounts n (elim o [ none ↦ s | some w ↦ worker_turn events e k w w.phase s ])
    by_worker none = h
    by_worker (some w) = by_phase w w.phase
