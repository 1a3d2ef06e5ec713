-- ===== src/Session/Connection.antt =====
-- The connection of library.c over the moves of the program.
use rdp_mcp.Prelude.{
  ℕ, ◌≡◌, refl, Bool, true, false, not, ◌||◌, Option, none, some, List, [], ◌∷◌, if_intro, if_cases,
  ℤ, pos, arith, Bytes, Option-cases, inl, inr,
}
use rdp_mcp.Json.{CJson, Heap}
use rdp_mcp.Protocol.{protocol_parse_command}
use rdp_mcp.Command.{
  Command, ConnectConfig, connect, disconnect, mouse_move, mouse_button_down, mouse_button_up,
  mouse_scroll, key_down, key_up, unicode_key_down, unicode_key_up, resize, clipboard_set,
  clipboard_set_files, clipboard_request_files, unknown,
}
use rdp_mcp.Input.{InputApi}
use rdp_mcp.Disp.{Size, disp_init, disp_set_initial_layout}
use rdp_mcp.Session.Ownership.{
  instances, kept, Coherent, remove-own, turn-Coherent, Stopped, stop-Stopped, stop-Owned,
  Stopped→Coherent, cleared, clear-Stopped,
}
use rdp_mcp.Session.{
  Session, Thread, Answers, send_error, cliprdr_init, cliprdr_file_init, cliprdr_file_cleanup,
  output_cleanup, connected_to, freed, log, stop_connection, start_connection, connect_instance,
  start_thread, create_instance, rdp_mcp_native_initialize,
}
use rdp_mcp.Session.Commands.{
  dispatch, rdp_mcp_native_command, rdp_mcp_native_shutdown, rdp_mcp_native_is_connected, Move,
  initialize, command, shutdown, turn, move, run, live, run_parsed,
}

thread-Coherent :
    (ok : Bool) (i : ℕ) (s : Session)
    → s.g_instance ≡ some i
    → s.g_event_thread ≡ none
    → s.g_running ≡ true
    → instances s.actions ≡ some (i ∷ [])
    → Coherent (start_thread ok i s).0
unfolding start_thread
thread-Coherent true i s at alone on logged = ground (arith, remove-own i)
thread-Coherent false i s at alone on logged =
    let t =
      log (send_error "Failed to create FreeRDP event thread") (record s { g_connected = true }) in
    Stopped→Coherent (stop_connection t) (stop-Stopped t (rw alone tt) (rw (at, logged)))

abbrev After : Session × ℤ → Type 0
After r = Coherent r.0

connect-Coherent :
    (a : Answers) (z : Size) (s : Session)
    → Stopped s
    → s.g_running ≡ true
    → Coherent (connect_instance a z s).0
unfolding connect_instance
connect-Coherent a z s (logged, gone, joined, off) on =
    let i = s.next_instance in
    let got = create_instance s in
    if_intro After a.connect_ok
      (thread-Coherent a.thread_ok i
        (record (log (connected_to i) got) { disp = disp_set_initial_layout z got.disp }) refl
        joined on (ground (arith, remove-own i)))
      (Stopped→Coherent (log (freed i) (record (create_instance s) { g_instance = none }))
        (ground (arith, remove-own i)))

start-Coherent :
    (a : Answers) (c : ConnectConfig) (s : Session)
    → Coherent s
    → s.g_running ≡ true
    → Coherent (start_connection a c s).0
unfolding start_connection
start-Coherent a c s h on =
    let (stopped, running) = clear-Stopped s h on in
    if_intro After a.init_ok (connect-Coherent a _ _ stopped running) (
      Stopped→Coherent
        (log (send_error "Failed to initialize FreeRDP") (
          log cliprdr_file_init
            (log cliprdr_init (record (cleared s) { disp = disp_init (cleared s).disp }))))
        stopped)

dispatch-Coherent :
    (api : InputApi) (a : Answers) (c : Command) (s : Session)
    → Coherent s
    → s.g_running ≡ true
    → Coherent (dispatch api a c s).0
unfolding dispatch
dispatch-Coherent api a (connect c) s h on =
    if_intro After s.g_connected h (start-Coherent a c s h on)
dispatch-Coherent api a disconnect s h on = Stopped→Coherent (stop_connection s) (stop-Owned s h.0)
dispatch-Coherent api a (mouse_move x y) s h on = if_intro After (live s) h h
dispatch-Coherent api a (mouse_button_down x y b) s h on = if_intro After (live s) h h
dispatch-Coherent api a (mouse_button_up x y b) s h on = if_intro After (live s) h h
dispatch-Coherent api a (mouse_scroll x y d v) s h on = if_intro After (live s) h h
dispatch-Coherent api a (key_down n x) s h on = if_intro After (live s) h h
dispatch-Coherent api a (key_up n x) s h on = if_intro After (live s) h h
dispatch-Coherent api a (unicode_key_down n) s h on = if_intro After (live s) h h
dispatch-Coherent api a (unicode_key_up n) s h on = if_intro After (live s) h h
dispatch-Coherent api a (resize w k d v) s h on = if_intro After (live s) h h
dispatch-Coherent api a (clipboard_set t n) s h on = if_intro After (live s) h h
dispatch-Coherent api a (clipboard_set_files t) s h on = if_intro After (live s) h h
dispatch-Coherent api a (clipboard_request_files t) s h on = if_intro After (live s) h h
dispatch-Coherent api a unknown s h on = h

init-Coherent : (b : Bool) (s : Session) → Coherent s → Coherent (rdp_mcp_native_initialize b s).0
unfolding rdp_mcp_native_initialize
init-Coherent b s h = ground arith

shutdown-Coherent : (s : Session) → Coherent s → Coherent (rdp_mcp_native_shutdown s)
unfolding rdp_mcp_native_shutdown
shutdown-Coherent s h =
    let t = record s { g_running = false } in
    if_intro Coherent (not s.g_initialized) h (
      Stopped→Coherent
        (record (log output_cleanup (log cliprdr_file_cleanup (stop_connection t))) {
          g_initialized = false;
        })
        (stop-Owned t h.0))

attended :
    (s : Session)
    → Coherent s
    → rdp_mcp_native_is_connected s ≡ pos 1
    → (t : Thread) × (s.g_event_thread ≡ some t)
      × (s.g_instance ≡ some t.argument)
      × (t.done ≡ false)
unfolding rdp_mcp_native_is_connected
attended s h on = elim (Option-cases s.g_event_thread) [
  | inl nil ↦ ground arith
  | inr (t, at) ↦ (t, at, ground arith, ground arith)
]

module _ {Item : Type 0} (json : CJson Item) (grants : ℕ → Bool) (api : InputApi) where
  parsed-Coherent :
      (a : Answers) (s : Session) (r : Option Command × Heap)
      → Coherent s
      → s.g_running ≡ true
      → After (run_parsed json grants api a s r)
  parsed-Coherent a s (none, h) coherent on = coherent
  parsed-Coherent a s (some c, h) coherent on =
      dispatch-Coherent api a c (record s { heap = h }) coherent on

  command-Coherent :
      (a : Answers) (text : Option Bytes) (s : Session)
      → Coherent s
      → After (rdp_mcp_native_command json grants api a text s)
  unfolding rdp_mcp_native_command
  command-Coherent a none s h = h
  command-Coherent a (some text) s h =
      if_cases After (not s.g_initialized || not s.g_running) (λ off. h)
        (λ on.
          parsed-Coherent a s (protocol_parse_command json grants (some text) s.heap) h
            (ground arith))

  move-Coherent : (m : Move) (s : Session) → Coherent s → Coherent (move json grants api m s)
  unfolding move
  move-Coherent (initialize b) s h = init-Coherent b s h
  move-Coherent (command a text) s h = command-Coherent a text s h
  move-Coherent shutdown s h = shutdown-Coherent s h
  move-Coherent (turn events e) s h = turn-Coherent events e s h

  run-Coherent : (ms : List Move) (s : Session) → Coherent s → Coherent (run json grants api ms s)
  unfolding run
  run-Coherent [] s h = h
  run-Coherent (m ∷ ms) s h = run-Coherent ms (move json grants api m s) (move-Coherent m s h)

  -- Whatever the embedding program calls and whatever FreeRDP answers, the log frees, connects,
  -- gives to a thread and, in a thread's turns, checks for events only instances that it has created
  -- and not freed, and what is left is the one instance of the state or nothing: no instance is
  -- leaked, freed twice, or freed under the event loop thread. At the start the state is coherent:
  -- thread and instance belong together, the log fits the instance, and a connection has a running
  -- thread.
  pub run-instances :
      (ms : List Move) (s : Session)
      → Coherent s
      → instances (run json grants api ms s).actions
        ≡ some (kept (run json grants api ms s).g_instance)
  run-instances ms s h = (run-Coherent ms s h).0.1

  -- When the library says that it is connected, there is an instance, and the event loop thread runs on
  -- it and has not returned; the moves begin in a coherent state.
  pub run-is_connected :
      (ms : List Move) (s : Session)
      → Coherent s
      → rdp_mcp_native_is_connected (run json grants api ms s) ≡ pos 1
      → (t : Thread) × ((run json grants api ms s).g_event_thread ≡ some t)
        × ((run json grants api ms s).g_instance ≡ some t.argument)
        × (t.done ≡ false)
  run-is_connected ms s h on = attended (run json grants api ms s) (run-Coherent ms s h) on
