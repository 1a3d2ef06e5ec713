-- ===== src/Connection/Lifecycle.antt =====
-- From connection_init over connection_connect to connection_free in connection.c.
use rdp_mcp.Prelude.{◌≡◌, refl, Bool, true, ◌&&◌, Option, some, List, Bytes, if◌then◌else◌}
use rdp_mcp.Command.{ConnectConfig}
use rdp_mcp.Output.Request.{Shorter}
use rdp_mcp.Connection
use rdp_mcp.Connection.{
  Key, Value, device_redirection, flag, Constants, freerdp_new, freerdp_free, freerdp_context_free,
  freerdp_disconnect, freerdp_context_new, freerdp_connect, gdi_init, register_addin_provider,
  load_channels, gdi_free, register_pointer, set_setting, add_drive, pipeline_init, pipeline_uninit,
  settings, set_all, add_drives, redirect_drives, connection_init, connection_connect, Connection,
  Posted, Attempt, cb_pre_connect, cb_post_connect, connect_callbacks, connection_free,
}
use rdp_mcp.Connection.Life.{nothing, whole, life, init-life, init-given}
use rdp_mcp.Connection.Attempts.{Connects, opened, connect-Connects}

-- Whatever FreeRDP answers: connection_init gives an instance exactly if both of its parts could be
-- made, and leaves none behind otherwise. On an instance whose pipe was just opened, connection_connect
-- says what FreeRDP says, and tells the embedding program first that it is connected, with the
-- dimensions of the settings, if FreeRDP has called PostConnect, and then, if FreeRDP fails, one
-- error with FreeRDP's text or a fixed one; and connection_free then leaves no instance. No call of
-- FreeRDP comes before what it needs is there, or after it is freed. FreeRDP's text is shorter than
-- 2034 bytes, and FreeRDP draws nothing and has no channel events before freerdp_connect returns.
pub connection_init-life :
    (k : Constants) (a b : Bool) (f : Attempt) (c : ConnectConfig) (t : Option Bytes)
    (calls : List Connection.Call) (s : Connection)
    → Shorter 2034 t
    → life calls ≡ some nothing
    → ((connection_init k a b c calls).1 ≡ (a && b))
      × (life (connection_init k a b c calls).0 ≡ some (if a && b then whole else nothing))
      × Connects f t (opened (connection_init k true true c calls).0 s)
connection_init-life k a b f c t calls s short h = (
  init-given k a b c calls,
  init-life k a b c calls h,
  connect-Connects f t (opened (connection_init k true true c calls).0 s) short refl
      (init-life k true true c calls h),
)
