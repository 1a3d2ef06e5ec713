-- ===== src/Session/Reports.antt =====
-- The messages of library.c about the end of a connection.
use rdp_mcp.Prelude.{
  ℕ, suc, ◌≡◌, refl, ◌∙◌, Bool, true, false, not, ◌&&◌, ◌||◌, Option, none, some, List, [], ◌∷◌,
  All, ◌+◌, if_intro, if_cases, ℤ, arith, Bytes,
}
use rdp_mcp.Json.{CJson, Heap}
use rdp_mcp.Protocol.{protocol_parse_command}
use rdp_mcp.Command.{
  Command, ConnectConfig, connect, disconnect, mouse_move, mouse_button_down, mouse_button_up,
  mouse_scroll, key_down, key_up, unicode_key_down, unicode_key_up, resize, clipboard_set,
  clipboard_set_files, clipboard_request_files, unknown,
}
use rdp_mcp.Input.{InputApi}
use rdp_mcp.Disp
use rdp_mcp.Disp.{Size, disp_init, disp_set_initial_layout}
use rdp_mcp.Session.{
  Session, Action, Answers, send_error, cliprdr_init, cliprdr_file_init, connected_to, freed,
  started, send_disconnected, log, leave_loop, loop_turn, event_loop_thread, join_thread,
  free_instance, stop_connection, start_connection, connect_instance, start_thread, create_instance,
  rdp_mcp_native_initialize, has_connection,
}
use rdp_mcp.Session.Ownership.{turning, cleared, stop_running}
use rdp_mcp.Session.Commands.{
  dispatch, rdp_mcp_native_command, Move, initialize, command, shutdown, turn, move, run, live,
  run_parsed,
}

abbrev one : Bool → ℕ
one true = 1
one false = 0

-- The threads that a log has started.
abbrev pub starts : List Action → ℕ
starts [] = 0
starts (started i ∷ rest) = suc (starts rest)
starts (a ∷ rest) = starts rest

-- The messages that a connection has ended.
abbrev pub reports : List Action → ℕ
reports [] = 0
reports (send_disconnected ∷ rest) = suc (reports rest)
reports (a ∷ rest) = reports rest

-- 1 while the event loop thread has not returned.
abbrev pub unreported : Session → ℕ
unreported s = one (turning s.g_event_thread)

-- Each thread that was started has reported its end or still runs, and a thread that runs is going to
-- report.
abbrev pub Reported : Session → Type 0
Reported s =
    (starts s.actions ≡ reports s.actions + unreported s)
    × ((turning s.g_event_thread && not s.g_running) ≡ false)

turn-Reported :
    (events : Bool) (e : Disp.Env) (s : Session)
    → Reported s
    → Reported (event_loop_thread events e s)
unfolding event_loop_thread loop_turn leave_loop
turn-Reported events e s h = ground arith

abbrev Ended : Session → Type 0
Ended s = (starts s.actions ≡ reports s.actions) × (s.g_event_thread ≡ none)

stop-Ended : (s : Session) → Reported s → Ended (stop_connection s)
unfolding stop_connection join_thread free_instance leave_loop
stop-Ended s h = ground arith

Ended→Reported : (s : Session) → Ended s → Reported s
Ended→Reported s h = ground arith

abbrev After : Session × ℤ → Type 0
After r = Reported r.0

thread-Reported :
    (ok : Bool) (i : ℕ) (s : Session) → Ended s → s.g_running ≡ true → After (start_thread ok i s)
unfolding start_thread
thread-Reported true i s h on = ground arith
thread-Reported false i s h on =
    let t =
      log (send_error "Failed to create FreeRDP event thread") (record s { g_connected = true }) in
    Ended→Reported (stop_connection t) (stop-Ended t (Ended→Reported t h))

connect-Reported :
    (a : Answers) (z : Size) (s : Session)
    → Ended s
    → s.g_running ≡ true
    → After (connect_instance a z s)
unfolding connect_instance
connect-Reported a z s h on =
    let i = s.next_instance in
    let got = create_instance s in
    if_intro After a.connect_ok
      (thread-Reported a.thread_ok i
        (record (log (connected_to i) got) { disp = disp_set_initial_layout z got.disp }) h on)
      (Ended→Reported (log (freed i) (record (create_instance s) { g_instance = none })) h)

clear-Ended : (s : Session) → Reported s → Ended (cleared s)
clear-Ended s h = if_cases Ended (has_connection s) (λ on. stop-Ended s h) (λ off. ground arith)

clear_running : (s : Session) → (cleared s).g_running ≡ s.g_running
clear_running s =
    if_intro (λ (t : Session). t.g_running ≡ s.g_running) (has_connection s) (stop_running s) refl

start-Reported :
    (a : Answers) (c : ConnectConfig) (s : Session)
    → Reported s
    → s.g_running ≡ true
    → After (start_connection a c s)
unfolding start_connection
start-Reported a c s h on =
    let ended = clear-Ended s h in
    if_intro After a.init_ok
      (connect-Reported a
        (record {
          width = c.width;
          height = c.height;
          desktop_sf = c.desktop_scale_factor;
          device_sf = c.device_scale_factor;
        })
        (log cliprdr_file_init
          (log cliprdr_init (record (cleared s) { disp = disp_init (cleared s).disp })))
        ended (clear_running s ∙ on))
      (Ended→Reported
        (log (send_error "Failed to initialize FreeRDP") (
          log cliprdr_file_init
            (log cliprdr_init (record (cleared s) { disp = disp_init (cleared s).disp }))))
        ended)

dispatch-Reported :
    (api : InputApi) (a : Answers) (c : Command) (s : Session)
    → Reported s
    → s.g_running ≡ true
    → Reported (dispatch api a c s).0
unfolding dispatch
dispatch-Reported api a (connect c) s h on =
    if_intro After s.g_connected h (start-Reported a c s h on)
dispatch-Reported api a disconnect s h on = Ended→Reported (stop_connection s) (stop-Ended s h)
dispatch-Reported api a (mouse_move x y) s h on = if_intro After (live s) h h
dispatch-Reported api a (mouse_button_down x y b) s h on = if_intro After (live s) h h
dispatch-Reported api a (mouse_button_up x y b) s h on = if_intro After (live s) h h
dispatch-Reported api a (mouse_scroll x y d v) s h on = if_intro After (live s) h h
dispatch-Reported api a (key_down n x) s h on = if_intro After (live s) h h
dispatch-Reported api a (key_up n x) s h on = if_intro After (live s) h h
dispatch-Reported api a (unicode_key_down n) s h on = if_intro After (live s) h h
dispatch-Reported api a (unicode_key_up n) s h on = if_intro After (live s) h h
dispatch-Reported api a (resize w k d v) s h on = if_intro After (live s) h h
dispatch-Reported api a (clipboard_set t n) s h on = if_intro After (live s) h h
dispatch-Reported api a (clipboard_set_files t) s h on = if_intro After (live s) h h
dispatch-Reported api a (clipboard_request_files t) s h on = if_intro After (live s) h h
dispatch-Reported api a unknown s h on = h

init-Reported : (b : Bool) (s : Session) → Reported s → Reported (rdp_mcp_native_initialize b s).0
unfolding rdp_mcp_native_initialize
init-Reported b s h = ground arith

-- Every move but the shutdown of the library.
abbrev pub Lasting : Move → Type 0
Lasting shutdown = ⊥
Lasting m = Unit

module _ {Item : Type 0} (json : CJson Item) (grants : ℕ → Bool) (api : InputApi) where
  parsed-Reported :
      (a : Answers) (s : Session) (r : Option Command × Heap)
      → Reported s
      → s.g_running ≡ true
      → After (run_parsed json grants api a s r)
  parsed-Reported a s (none, h) reported on = reported
  parsed-Reported a s (some c, h) reported on =
      dispatch-Reported api a c (record s { heap = h }) reported on

  command-Reported :
      (a : Answers) (text : Option Bytes) (s : Session)
      → Reported s
      → After (rdp_mcp_native_command json grants api a text s)
  unfolding rdp_mcp_native_command
  command-Reported a none s h = h
  command-Reported a (some text) s h =
      if_cases After (not s.g_initialized || not s.g_running) (λ off. h)
        (λ on.
          parsed-Reported a s (protocol_parse_command json grants (some text) s.heap) h
            (ground arith))

  move-Reported :
      (m : Move) (s : Session) → Lasting m → Reported s → Reported (move json grants api m s)
  unfolding move
  move-Reported (initialize b) s lasting h = init-Reported b s h
  move-Reported (command a text) s lasting h = command-Reported a text s h
  move-Reported shutdown s lasting h = absurd lasting
  move-Reported (turn events e) s lasting h = turn-Reported events e s h

  run-Reported :
      (ms : List Move) (s : Session)
      → All Lasting ms
      → Reported s
      → Reported (run json grants api ms s)
  unfolding run
  run-Reported [] s lasting h = h
  run-Reported (m ∷ ms) s (first, lasting) h =
      run-Reported ms (move json grants api m s) lasting (move-Reported m s first h)

  -- As long as the library is not shut down, each connection is reported to have ended exactly once: the
  -- threads that were started are as many as the reports, and one more while a thread has not returned.
  -- This holds at the start, where a thread that runs finds the library running.
  pub run-reports :
      (ms : List Move) (s : Session)
      → All Lasting ms
      → Reported s
      → starts (run json grants api ms s).actions
        ≡ reports (run json grants api ms s).actions + unreported (run json grants api ms s)
  run-reports ms s lasting h = (run-Reported ms s lasting h).0
