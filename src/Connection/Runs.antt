-- ===== src/Connection/Runs.antt =====
-- Runs of connection.c, and its theorems at these runs.
use rdp_mcp.Prelude.{◌≡◌, refl, true, false, none, some, List, [], ◌∷◌, codes, pos, arith}
use rdp_mcp.Command.{ConnectConfig}
use rdp_mcp.Disp.{no_size}
use rdp_mcp.Samples.{active_clipboard}
use rdp_mcp.Connection.{Constants, Connection, Attempt, connection_init}
use rdp_mcp.Connection.Life.{life, nothing}
use rdp_mcp.Connection.Attempts.{Connects, opened}
use rdp_mcp.Connection.Lifecycle.{connection_init-life}
use rdp_mcp.Connection.Channels.{
  Event, connected, disconnected, Contexts, context_after, run, run-Contexts,
}

abbrev headers : Constants
headers = record {
  proxy_type_ignore = 3;
  clipboard_all = 0x33;
  rdpgfx_channel = codes "gfx";
  disp_channel = codes "disp";
  cliprdr_channel = codes "cliprdr";
}

abbrev config : ConnectConfig
config = record {
  host = some (record { block = 0; text = codes "host" });
  port = pos 3389;
  username = none;
  password = none;
  domain = none;
  width = pos 1024;
  height = pos 768;
  enable_nla = true;
  skip_cert_verification = false;
  enable_gfx = true;
  enable_h264 = true;
  drives = none;
  desktop_scale_factor = pos 200;
  device_scale_factor = pos 100;
  enable_clipboard = true;
}

abbrev fresh : Connection
fresh = record {
  gdi = true;
  subscribed = true;
  disp = record {
    mutex_inited = true;
    disp = none;
    activated = false;
    last_send_ms = 0;
    pending = false;
    pending_size = no_size;
    initial_set = false;
    initial_size = no_size;
    sent = [];
  };
  clipboard = active_clipboard;
  calls = [];
}

-- FreeRDP calls both callbacks, its GDI cannot be made, and it fails.
abbrev cut_short : Attempt
cut_short = record {
  prepares = true;
  posts = some (record { gdi_ok = false; width = 1024; height = 768 });
  ok = false;
}

connection_init-life_example :
    ((connection_init headers true false config []).1 ≡ false)
    × (life (connection_init headers true false config []).0 ≡ some nothing)
    × Connects cut_short
        (some (codes "refused"))
        (opened (connection_init headers true true config []).0 fresh)
connection_init-life_example =
    connection_init-life headers true false cut_short config (some (codes "refused")) [] fresh
      (omega arith) refl

abbrev some_events : List Event
some_events =
    connected (codes "gfx") 7
    ∷ connected (codes "disp") 8
    ∷ connected (codes "cliprdr") 9
    ∷ disconnected (codes "disp") 8
    ∷ []

run-Contexts_example :
    Contexts
      (context_after (codes "disp") some_events none)
      (context_after (codes "cliprdr") some_events (some 1))
      (run headers some_events fresh)
run-Contexts_example =
    run-Contexts headers some_events none (some 1) fresh ((λ e. cc), (λ e. cc), λ e. cc)
      (refl, refl, refl)
