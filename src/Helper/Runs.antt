-- ===== src/Helper/Runs.antt =====
-- A run of main.c in which the server ends a connection and a second one is made.
use rdp_mcp.Prelude.{ℕ, ◌≡◌, refl, true, false, none, some, List, [], ◌∷◌, codes}
use rdp_mcp.Json.{empty_heap}
use rdp_mcp.Samples.{echo_json, all_granted, freerdp}
use rdp_mcp.Protocol.{
  protocol_read_command, protocol_parse_command, strip_line, fill_command, parse_config,
  parse_drives, protocol_free_command,
}
use rdp_mcp.Command.{command_type}
use rdp_mcp.Disp.{no_size, disp_init, disp_set_initial_layout, disp_check_pending}
use rdp_mcp.Disp
use rdp_mcp.Session.{Answers}
use rdp_mcp.Session.Ownership.{instances}
use rdp_mcp.Helper.{
  Helper, Move, read, turn, run, move, dispatch, start_connection, connect_instance, start_thread,
  event_loop_thread, cleanup, wait_thread,
}
use rdp_mcp.Helper.Exit.{LeavesBehind, replaced, main-LeavesBehind}

abbrev started_helper : Helper
started_helper = record {
  g_instance = none;
  g_running = true;
  g_connected = false;
  g_event_thread = none;
  workers = [];
  next_instance = 0;
  heap = empty_heap;
  free_list = [];
  disp = record {
    mutex_inited = false;
    disp = none;
    activated = false;
    last_send_ms = 0;
    pending = false;
    pending_size = no_size;
    initial_set = false;
    initial_size = no_size;
    sent = [];
  };
  input = [];
  actions = [];
}

abbrev at : ℕ → Disp.Env
at t = record { now = t; ok = true; after = t }

abbrev good : Answers
good = record {
  init_ok = true;
  connect_ok = true;
  thread_ok = true;
  taken = true;
  disp_env = at 1000;
}

-- The last read meets the end of the input.
abbrev two_connections : List Move
two_connections =
    read good (some (codes "connect"))
    ∷ turn true (at 1010) 0
    ∷ turn false (at 1020) 0
    ∷ turn true (at 1030) 0
    ∷ read good (some (codes "connect"))
    ∷ read good none
    ∷ []

-- The first instance is lost.
lost_instance :
    (instances (cleanup (run echo_json all_granted freerdp two_connections started_helper)).actions
      ≡ some (0 ∷ []))
    × (replaced echo_json all_granted freerdp two_connections started_helper ≡ 1)
unfolding run move protocol_read_command protocol_parse_command strip_line command_type fill_command
    parse_config parse_drives protocol_free_command dispatch start_connection connect_instance
    start_thread event_loop_thread cleanup wait_thread
lost_instance = (refl, refl)

main-LeavesBehind_example :
    LeavesBehind
      (replaced echo_json all_granted freerdp two_connections started_helper)
      (cleanup (run echo_json all_granted freerdp two_connections started_helper))
main-LeavesBehind_example =
    main-LeavesBehind echo_json all_granted freerdp two_connections started_helper refl refl
