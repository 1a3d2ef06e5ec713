-- ===== src/Session/Commands.antt =====
-- native/freerdp-helper/src/library.c: the dispatch of a command, the end of the library, and the steps
-- of the program: the calls of the embedding program and the turns of the event loop thread.
use rdp_mcp.Prelude.{
  ℕ, Bool, true, false, not, ◌||◌, Option, none, some, List, [], ◌∷◌, ◌++◌, if◌then◌else◌, ℤ, pos,
  negsuc, Bytes,
}
use rdp_mcp.Json.{CJson, Heap}
use rdp_mcp.Protocol.{protocol_parse_command, protocol_free_command}
use rdp_mcp.Command.{
  Command, connect, disconnect, mouse_move, mouse_button_down, mouse_button_up, mouse_scroll,
  key_down, key_up, unicode_key_down, unicode_key_up, resize, clipboard_set, clipboard_set_files,
  clipboard_request_files, unknown,
}
use rdp_mcp.Input.{
  InputApi, InputEvent, input_mouse_move, input_mouse_button_down, input_mouse_button_up,
  input_mouse_scroll, input_key_down, input_key_up, input_unicode_key_down, input_unicode_key_up,
}
use rdp_mcp.Disp.{disp_request_resize}
use rdp_mcp.Disp
use rdp_mcp.Session.{
  Session, Answers, cliprdr_file_cleanup, output_cleanup, send_error, set_text, set_local_files,
  request_download, announce_files, log, stop_connection, start_connection, event_loop_thread,
  rdp_mcp_native_initialize,
}

-- `g_connected && g_instance`
abbrev pub live : Session → Bool
live s = elim s.g_instance [ none ↦ false | some i ↦ s.g_connected ]

-- A command that does nothing without a connection.
abbrev pub when_live : (Session → Session) → Session → Session × ℤ
when_live f s = if live s then (f s, pos 0) else (s, pos 0)

abbrev pub key_result : Session → Bool × List InputEvent → Session × ℤ
key_result s (taken, events) = (record s { input = events }, if taken then pos 0 else negsuc 6)

-- A key that FreeRDP does not take is the error -7.
abbrev key_live : (List InputEvent → Bool × List InputEvent) → Session → Session × ℤ
key_live f s = if live s then key_result s (f s.input) else (s, pos 0)

abbrev mouse_live : (List InputEvent → List InputEvent) → Session → Session × ℤ
mouse_live f s = when_live (λ t. record t { input = f t.input }) s

-- The `switch` of rdp_mcp_native_command; the instance of a connection has its input.
unfoldable pub dispatch : InputApi → Answers → Command → Session → Session × ℤ
dispatch api a (connect c) s =
    if s.g_connected
    then (log (send_error "Already connected") s, negsuc 2)
    else start_connection a c s
dispatch api a disconnect s = (stop_connection s, pos 0)
dispatch api a (mouse_move x y) s = mouse_live (input_mouse_move api true x y) s
dispatch api a (mouse_button_down x y b) s = mouse_live (input_mouse_button_down api true x y b) s
dispatch api a (mouse_button_up x y b) s = mouse_live (input_mouse_button_up api true x y b) s
dispatch api a (mouse_scroll x y d v) s = mouse_live (input_mouse_scroll api true x y d v) s
dispatch api a (key_down n extended) s = key_live (input_key_down api true a.taken n extended) s
dispatch api a (key_up n extended) s = key_live (input_key_up api true a.taken n extended) s
dispatch api a (unicode_key_down n) s = key_live (input_unicode_key_down api true a.taken n) s
dispatch api a (unicode_key_up n) s = key_live (input_unicode_key_up api true a.taken n) s
dispatch api a (resize w h desktop device) s =
    when_live
      (λ t. record t {
        disp =
            disp_request_resize
              (record { width = w; height = h; desktop_sf = desktop; device_sf = device })
              a.disp_env t.disp;
      })
      s
dispatch api a (clipboard_set text n) s = when_live (log (set_text text n)) s
dispatch api a (clipboard_set_files files) s =
    when_live (λ t. log announce_files (log (set_local_files files) t)) s
dispatch api a (clipboard_request_files dir) s = when_live (log (request_download dir)) s
dispatch api a unknown s = (log (send_error "Unknown native command") s, negsuc 5)

unfoldable pub rdp_mcp_native_shutdown : Session → Session
rdp_mcp_native_shutdown s =
    if not s.g_initialized
    then s
    else (let stopped = stop_connection (record s { g_running = false }) in
        record (log output_cleanup (log cliprdr_file_cleanup stopped)) { g_initialized = false })

unfoldable pub rdp_mcp_native_is_connected : Session → ℤ
rdp_mcp_native_is_connected s = if s.g_connected then pos 1 else pos 0

-- The embedding program calls the four functions one at a time; the thread's turns come between them.
pub data Move : Type 0 where
  initialize : Bool → Move
  command : Answers → Option Bytes → Move
  shutdown : Move
  turn : Bool → Disp.Env → Move

module _ {Item : Type 0} (json : CJson Item) (grants : ℕ → Bool) (api : InputApi) where
  abbrev release : Command → Session × ℤ → Session × ℤ
  release c (s, n) = (record s { free_list = s.free_list ++ protocol_free_command c }, n)

  abbrev pub run_parsed : Answers → Session → Option Command × Heap → Session × ℤ
  run_parsed a s (none, h) = (record s { heap = h }, negsuc 1)
  run_parsed a s (some c, h) = release c (dispatch api a c (record s { heap = h }))

  -- `none` is a NULL text.
  unfoldable pub rdp_mcp_native_command : Answers → Option Bytes → Session → Session × ℤ
  unfolding dispatch
  rdp_mcp_native_command a none s = (s, negsuc 0)
  rdp_mcp_native_command a (some text) s =
      if not s.g_initialized || not s.g_running
      then (s, negsuc 0)
      else run_parsed a s (protocol_parse_command json grants (some text) s.heap)

  unfoldable pub move : Move → Session → Session
  move (initialize callback) s = (rdp_mcp_native_initialize callback s).0
  move (command a text) s = (rdp_mcp_native_command a text s).0
  move shutdown s = rdp_mcp_native_shutdown s
  move (turn events e) s = event_loop_thread events e s

  unfoldable pub run : List Move → Session → Session
  run [] s = s
  run (m ∷ ms) s = run ms (move m s)
