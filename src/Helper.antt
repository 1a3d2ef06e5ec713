-- ===== src/Helper.antt =====
-- native/freerdp-helper/src/main.c on a build that is not for Windows: the helper as a process of its
-- own, which reads commands from its standard input. The static variables are one record, with the
-- threads that were ever started. What happens in connection.c, cliprdr.c and cliprdr_file.c, and the
-- messages to the embedding program, are a log, newest first, as in library.c. The diagnostic counters
-- of the event loop feed only the log of the process, and are left out.
pub mod Instances
pub mod Exit
mod Runs
use rdp_mcp.Prelude.{
  ℕ, suc, ◌+◌, Bool, true, false, not, ◌&&◌, Option, none, some, List, [], ◌∷◌, ◌++◌, if◌then◌else◌,
  Bytes, length, get_elem?, set,
}
use rdp_mcp.Json.{CJson, Heap}
use rdp_mcp.Protocol.{protocol_read_command, protocol_free_command}
use rdp_mcp.Command.{
  ConnectConfig, Command, connect, disconnect, mouse_move, mouse_button_down, mouse_button_up,
  mouse_scroll, key_down, key_up, unicode_key_down, unicode_key_up, resize, clipboard_set,
  clipboard_set_files, clipboard_request_files, unknown,
}
use rdp_mcp.Input.{
  InputApi, InputEvent, input_mouse_move, input_mouse_button_down, input_mouse_button_up,
  input_mouse_scroll, input_key_down, input_key_up, input_unicode_key_down, input_unicode_key_up,
}
use rdp_mcp.Disp
use rdp_mcp.Disp.{
  Disp, Size, disp_init, disp_set_initial_layout, disp_request_resize, disp_check_pending,
}
use rdp_mcp.Session.{
  Action, Answers, cliprdr_init, cliprdr_file_init, created, connected_to, freed, started,
  send_error, send_disconnected, set_text, set_local_files, request_download, announce_files,
}

-- Where a thread is: in the loop of event_loop_thread, behind it, or returned.
pub data Phase : Type 0 where
  looping leaving returned : Phase

pub record Worker : Type 0 where
  pub argument : ℕ
  pub phase : Phase

-- `g_event_thread` is the number of its thread.
pub record Helper : Type 0 where
  pub g_instance : Option ℕ
  pub g_running : Bool
  pub g_connected : Bool
  pub g_event_thread : Option ℕ
  pub workers : List Worker
  pub next_instance : ℕ
  pub heap : Heap
  pub free_list : List ℕ
  pub disp : Disp
  pub input : List InputEvent
  pub actions : List Action

abbrev pub log : Action → Helper → Helper
log a s = record s { actions = a ∷ s.actions }

abbrev pub put_phase : ℕ → Worker → Phase → Helper → Helper
put_phase k w p s = record s { workers = set s.workers k (record w { phase = p }) }

-- One turn of a thread in its loop: `events` is the answer of connection_check_events.
abbrev pub loop_turn : Bool → Disp.Env → ℕ → Worker → Helper → Helper
loop_turn events e k w s =
    if s.g_running && s.g_connected
    then (if events
        then record s { disp = disp_check_pending e s.disp }
        else put_phase k w leaving (record s { g_connected = false }))
    else put_phase k w leaving s

-- What stands behind the loop.
abbrev pub leave : ℕ → Worker → Helper → Helper
leave k w s = put_phase k w returned (if s.g_running then log send_disconnected s else s)

abbrev pub worker_turn : Bool → Disp.Env → ℕ → Worker → Phase → Helper → Helper
worker_turn events e k w looping s = loop_turn events e k w s
worker_turn events e k w leaving s = leave k w s
worker_turn events e k w returned s = s

unfoldable pub event_loop_thread : Bool → Disp.Env → ℕ → Helper → Helper
event_loop_thread events e k s = elim (get_elem? s.workers k) [
  | none ↦ s
  | some w ↦ worker_turn events e k w w.phase s
]

-- `CreateThread`, after `g_connected = true`.
unfoldable pub start_thread : Bool → ℕ → Helper → Helper
start_thread ok i s =
    if ok
    then record s {
      workers = s.workers ++ (record { argument = i; phase = looping } ∷ []);
      g_event_thread = some (length s.workers);
      actions = started i ∷ s.actions;
    }
    else record s {
      g_event_thread = none;
      g_instance = none;
      g_connected = false;
      actions = freed i ∷ send_error "Failed to create event thread" ∷ s.actions;
    }

-- The new instance is connected; a failure is reported by connection_connect itself.
unfoldable pub connect_instance : Answers → Size → ℕ → Helper → Helper
unfolding start_thread
connect_instance a z i s =
    if a.connect_ok
    then start_thread a.thread_ok i (record (log (connected_to i) s) {
      disp = disp_set_initial_layout z s.disp;
      g_connected = true;
    })
    else log (freed i) (record s { g_instance = none })

-- What connection_init gives replaces `g_instance`.
unfoldable pub start_connection : Answers → ConnectConfig → Helper → Helper
unfolding connect_instance
start_connection a c s =
    let ready = log cliprdr_file_init (log cliprdr_init (record s { disp = disp_init s.disp })) in
    let size : Size = record {
      width = c.width;
      height = c.height;
      desktop_sf = c.desktop_scale_factor;
      device_sf = c.device_scale_factor;
    } in
    if a.init_ok
    then connect_instance a size s.next_instance (record (log (created s.next_instance) ready) {
      g_instance = some s.next_instance;
      next_instance = suc s.next_instance;
    })
    else log (send_error "Failed to initialize FreeRDP") (record ready { g_instance = none })

-- `g_connected && g_instance`
abbrev pub live : Helper → Bool
live s = elim s.g_instance [ none ↦ false | some i ↦ s.g_connected ]

abbrev pub when_live : Helper → Helper → Helper
when_live t s = if live s then t else s

abbrev pub release : Command → Helper → Helper
release c s = record s { free_list = s.free_list ++ protocol_free_command c }

abbrev put_input : List InputEvent → Helper → Helper
put_input events s = record s { input = events }

-- The `switch` of command_loop.
unfoldable pub dispatch : InputApi → Answers → Command → Helper → Helper
unfolding start_connection
dispatch api a (connect c) s =
    release (connect c)
      (if s.g_connected then log (send_error "Already connected") s else start_connection a c s)
dispatch api a disconnect s = record s { g_running = false }
dispatch api a (mouse_move x y) s =
    when_live (put_input (input_mouse_move api true x y s.input) s) s
dispatch api a (mouse_button_down x y b) s =
    when_live (put_input (input_mouse_button_down api true x y b s.input) s) s
dispatch api a (mouse_button_up x y b) s =
    when_live (put_input (input_mouse_button_up api true x y b s.input) s) s
dispatch api a (mouse_scroll x y d v) s =
    when_live (put_input (input_mouse_scroll api true x y d v s.input) s) s
dispatch api a (key_down n extended) s =
    when_live (put_input (input_key_down api true a.taken n extended s.input).1 s) s
dispatch api a (key_up n extended) s =
    when_live (put_input (input_key_up api true a.taken n extended s.input).1 s) s
dispatch api a (unicode_key_down n) s =
    when_live (put_input (input_unicode_key_down api true a.taken n s.input).1 s) s
dispatch api a (unicode_key_up n) s =
    when_live (put_input (input_unicode_key_up api true a.taken n s.input).1 s) s
dispatch api a (resize w h desktop device) s =
    when_live
      (record s {
        disp =
            disp_request_resize
              (record { width = w; height = h; desktop_sf = desktop; device_sf = device })
              a.disp_env s.disp;
      })
      s
dispatch api a (clipboard_set text n) s =
    release (clipboard_set text n) (when_live (log (set_text text n) s) s)
dispatch api a (clipboard_set_files files) s =
    release (clipboard_set_files files)
      (when_live (log announce_files (log (set_local_files files) s)) s)
dispatch api a (clipboard_request_files dir) s =
    release (clipboard_request_files dir) (when_live (log (request_download dir) s) s)
dispatch api a unknown s = s

-- Behind command_loop in `main`: WaitForSingleObject returns when the thread has, which leaves its loop
-- as `g_connected` is false.
unfoldable pub wait_thread : Option ℕ → Helper → Helper
wait_thread none s = s
wait_thread (some k) s = elim (get_elem? s.workers k) [
  | none ↦ s
  | some w ↦ elim w.phase [ returned ↦ s | _ ↦ leave k w s ]
]

unfoldable pub cleanup : Helper → Helper
unfolding wait_thread
cleanup s = elim s.g_instance [
  | none ↦ record s { g_connected = false }
  | some i ↦
      let waited = wait_thread s.g_event_thread (record s { g_connected = false }) in
      log (freed i) (record waited { g_event_thread = none; g_instance = none })
]

-- A round of command_loop with the next line of the standard input, a turn of a thread, and SIGINT or
-- SIGTERM. They come in any order.
pub data Move : Type 0 where
  read : Answers → Option Bytes → Move
  turn : Bool → Disp.Env → ℕ → Move
  signal : Move

module _ {Item : Type 0} (json : CJson Item) (grants : ℕ → Bool) (api : InputApi) where
  -- No command ends the loop.
  abbrev pub run_read : Answers → Option Command × Heap → Helper → Helper
  run_read a (none, h) s = record s { heap = h; g_running = false }
  run_read a (some c, h) s = dispatch api a c (record s { heap = h })

  unfoldable pub move : Move → Helper → Helper
  unfolding dispatch
  move (read a line) s =
      if s.g_running then run_read a (protocol_read_command json grants line s.heap) s else s
  move (turn events e k) s = event_loop_thread events e k s
  move signal s = record s { g_running = false }

  unfoldable pub run : List Move → Helper → Helper
  run [] s = s
  run (m ∷ ms) s = run ms (move m s)
