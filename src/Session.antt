-- ===== src/Session.antt =====
-- native/freerdp-helper/src/library.c, on a build that is not for Windows: the connection, its event
-- loop thread, and the dispatch of the commands. The static variables are one record. What happens in
-- connection.c and cliprdr.c, and the messages to the embedding program, are a log, newest first; the
-- state of disp.c and the events of input.c are parts of the record.
pub mod Commands
pub mod Ownership
pub mod Connection
pub mod Reports
mod Runs
use rdp_mcp.Prelude.{
  ℕ, suc, ◌+◌, Bool, true, false, not, ◌&&◌, ◌||◌, Option, none, some, List, [], ◌∷◌, ◌++◌,
  if◌then◌else◌, ℤ, pos, negsuc, String, Bytes,
}
use rdp_mcp.Json.{CJson, Heap, Ptr}
use rdp_mcp.Protocol.{protocol_parse_command, protocol_free_command}
use rdp_mcp.Command.{
  ConnectConfig, Command, connect, disconnect, mouse_move, mouse_button_down, mouse_button_up,
  mouse_scroll, key_down, key_up, unicode_key_down, unicode_key_up, resize, clipboard_set,
  clipboard_set_files, clipboard_request_files, unknown,
}
use rdp_mcp.Input.{
  InputApi, InputEvent, input_mouse_move, input_mouse_button_down, input_mouse_button_up,
  input_mouse_scroll, input_key_down, input_key_up, input_unicode_key_down, input_unicode_key_up,
}
use rdp_mcp.Disp.{
  Disp, Size, disp_init, disp_set_initial_layout, disp_request_resize, disp_check_pending,
}
use rdp_mcp.Disp

-- An instance is named by the number of its creation; `checked` is a use of it by the event loop
-- thread, in connection_check_events.
pub data Action : Type 0 where
  cliprdr_init cliprdr_file_init cliprdr_file_cleanup output_init output_cleanup : Action
  created connected_to freed started checked : ℕ → Action
  send_error : String → Action
  send_disconnected : Action
  set_text : Option Ptr → ℤ → Action
  set_local_files request_download : Option Ptr → Action
  announce_files : Action

-- The event loop thread with its argument, and whether it has returned.
pub record Thread : Type 0 where
  pub argument : ℕ
  pub done : Bool

pub record Session : Type 0 where
  pub g_instance : Option ℕ
  pub g_initialized : Bool
  pub g_running : Bool
  pub g_connected : Bool
  pub g_event_thread : Option Thread
  pub next_instance : ℕ
  pub heap : Heap
  pub free_list : List ℕ
  pub disp : Disp
  pub input : List InputEvent
  pub actions : List Action

abbrev pub log : Action → Session → Session
log a s = record s { actions = a ∷ s.actions }

-- Behind the loop of event_loop_thread.
unfoldable pub leave_loop : Thread → Session → Session
leave_loop t s =
    let ended = record s { g_event_thread = some (record t { done = true }) } in
    if s.g_running then log send_disconnected ended else ended

-- One turn of event_loop_thread: `events` is the answer of connection_check_events. The turn that ends
-- the loop also runs what stands behind it. The counters that only feed the log of the process are left out.
unfoldable pub loop_turn : Bool → Disp.Env → Thread → Session → Session
unfolding leave_loop
loop_turn events e t s =
    if s.g_running && s.g_connected
    then (let seen = log (checked t.argument) s in
        if events
        then record seen { disp = disp_check_pending e seen.disp }
        else leave_loop t (record seen { g_connected = false }))
    else leave_loop t s

unfoldable pub event_loop_thread : Bool → Disp.Env → Session → Session
unfolding loop_turn
event_loop_thread events e s = elim s.g_event_thread [
  | none ↦ s
  | some t ↦ if t.done then s else loop_turn events e t s
]

-- WaitForSingleObject of the thread, when `g_connected` is false. A thread that has not returned
-- ends the turn it is in, which uses its instance, and leaves the loop.
unfoldable pub join_thread : Session → Session
unfolding leave_loop
join_thread s = elim s.g_event_thread [
  | none ↦ s
  | some t ↦ record (if t.done then s else leave_loop t (log (checked t.argument) s)) {
    g_event_thread = none;
  }
]

unfoldable pub free_instance : Session → Session
free_instance s = elim s.g_instance [
  | none ↦ s
  | some i ↦ log (freed i) (record s { g_instance = none })
]

unfoldable pub stop_connection : Session → Session
unfolding join_thread free_instance
stop_connection s = free_instance (join_thread (record s { g_connected = false }))

-- What FreeRDP, the operating system and the clock answer to a command: whether connection_init gives
-- an instance, connection_connect succeeds, the thread starts and an input event is taken.
pub record Answers : Type 0 where
  pub init_ok : Bool
  pub connect_ok : Bool
  pub thread_ok : Bool
  pub taken : Bool
  pub disp_env : Disp.Env

abbrev pub has_connection : Session → Bool
has_connection s = elim s.g_instance [
  | none ↦ elim s.g_event_thread [ none ↦ false | some t ↦ true ]
  | some i ↦ true
]

abbrev pub create_instance : Session → Session
create_instance s = record s {
  g_instance = some s.next_instance;
  next_instance = suc s.next_instance;
  actions = created s.next_instance ∷ s.actions;
}

unfoldable pub start_thread : Bool → ℕ → Session → Session × ℤ
unfolding stop_connection
start_thread ok i s =
    if ok
    then (
      record s {
        g_connected = true;
        g_event_thread = some (record { argument = i; done = false });
        actions = started i ∷ s.actions;
      },
      pos 0,
    )
    else (
      stop_connection (
          log (send_error "Failed to create FreeRDP event thread")
            (record s { g_connected = true })),
      negsuc 4,
    )

unfoldable pub connect_instance : Answers → Size → Session → Session × ℤ
unfolding start_thread
connect_instance a z s =
    let i = s.next_instance in
    let got = create_instance s in
    if a.connect_ok
    then start_thread a.thread_ok i
        (record (log (connected_to i) got) { disp = disp_set_initial_layout z got.disp })
    else (log (freed i) (record got { g_instance = none }), negsuc 3)

unfoldable pub start_connection : Answers → ConnectConfig → Session → Session × ℤ
unfolding connect_instance
start_connection a c s₀ =
    let s = if has_connection s₀ then stop_connection s₀ else s₀ in
    let ready = log cliprdr_file_init (log cliprdr_init (record s { disp = disp_init s.disp })) in
    if a.init_ok
    then connect_instance a
        (record {
          width = c.width;
          height = c.height;
          desktop_sf = c.desktop_scale_factor;
          device_sf = c.device_scale_factor;
        })
        ready
    else (log (send_error "Failed to initialize FreeRDP") ready, negsuc 2)

-- `callback` says that the function pointer is not NULL.
unfoldable pub rdp_mcp_native_initialize : Bool → Session → Session × ℤ
rdp_mcp_native_initialize callback s =
    if not callback then (s, negsuc 0) else if s.g_initialized then (s, negsuc 1) else (
      record s {
        g_running = true;
        g_connected = false;
        g_initialized = true;
        actions = output_init ∷ s.actions;
      },
      pos 0,
    )
