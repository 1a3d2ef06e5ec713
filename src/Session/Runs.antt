-- ===== src/Session/Runs.antt =====
-- Runs of library.c, and its theorems at these runs.
use rdp_mcp.Prelude.{ℕ, ◌+◌, ◌≡◌, refl, true, false, none, some, List, [], ◌∷◌, pos, codes}
use rdp_mcp.Json.{empty_heap}
use rdp_mcp.Samples.{echo_json, all_granted, freerdp}
use rdp_mcp.Protocol.{protocol_parse_command, fill_command, parse_config, parse_drives}
use rdp_mcp.Command.{command_type}
use rdp_mcp.Disp.{
  no_size, disp_init, disp_set_initial_layout, disp_check_pending, disp_request_resize,
}
use rdp_mcp.Disp
use rdp_mcp.Session.{
  Session, Thread, Answers, start_connection, connect_instance, start_thread, stop_connection,
  join_thread, free_instance, leave_loop, loop_turn, event_loop_thread, rdp_mcp_native_initialize,
}
use rdp_mcp.Session.Commands.{
  Move, initialize, command, turn, run, move, dispatch, rdp_mcp_native_command,
  rdp_mcp_native_is_connected,
}
use rdp_mcp.Session.Ownership.{instances, kept}
use rdp_mcp.Session.Connection.{run-instances, run-is_connected}
use rdp_mcp.Session.Reports.{starts, reports, unreported, run-reports}

-- The library before its first call.
abbrev unused_library : Session
unused_library = record {
  g_instance = none;
  g_initialized = false;
  g_running = false;
  g_connected = false;
  g_event_thread = none;
  next_instance = 0;
  heap = empty_heap;
  free_list = [];
  disp = record {
    mutex_inited = false;
    disp = none;
    activated = false;
    last_send_ms = 0;
    pending = false;
    pending_size = no_size;
    initial_set = false;
    initial_size = no_size;
    sent = [];
  };
  input = [];
  actions = [];
}

abbrev at : ℕ → Disp.Env
at t = record { now = t; ok = true; after = t }

abbrev good : Answers
good = record {
  init_ok = true;
  connect_ok = true;
  thread_ok = true;
  taken = true;
  disp_env = at 1000;
}

-- A connection that the server ends, and a second one.
abbrev two_connections : List Move
two_connections =
    initialize true
    ∷ command good (some (codes "connect"))
    ∷ turn true (at 1010)
    ∷ turn false (at 1020)
    ∷ command good (some (codes "connect"))
    ∷ []

abbrev reconnected : Session
reconnected = run echo_json all_granted freerdp two_connections unused_library

reconnected_instance :
    (reconnected.g_instance ≡ some 1) × (rdp_mcp_native_is_connected reconnected ≡ pos 1)
unfolding run move rdp_mcp_native_initialize rdp_mcp_native_command protocol_parse_command
    command_type fill_command parse_config parse_drives dispatch start_connection connect_instance
    start_thread stop_connection join_thread free_instance event_loop_thread loop_turn leave_loop
    rdp_mcp_native_is_connected
reconnected_instance = (refl, refl)

run-instances_example : instances reconnected.actions ≡ some (kept reconnected.g_instance)
run-instances_example =
    run-instances echo_json all_granted freerdp two_connections unused_library ((tt, refl), refl)

run-is_connected_example :
    (t : Thread) × (reconnected.g_event_thread ≡ some t)
    × (reconnected.g_instance ≡ some t.argument)
    × (t.done ≡ false)
run-is_connected_example =
    run-is_connected echo_json all_granted freerdp two_connections unused_library ((tt, refl), refl)
      reconnected_instance.1

run-reports_example :
    starts reconnected.actions ≡ reports reconnected.actions + unreported reconnected
run-reports_example =
    run-reports echo_json all_granted freerdp two_connections unused_library
      (tt, (tt, (tt, (tt, (tt, tt))))) (refl, refl)
