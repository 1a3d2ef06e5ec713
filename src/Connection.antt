-- ===== src/Connection.antt =====
-- native/freerdp-helper/src/connection.c: the life of an instance, its settings, and the channel
-- events, which reach disp.c and cliprdr.c. What the code asks of FreeRDP is a log, newest first; the
-- paint callbacks stand in Paint.antt.
pub mod Life
pub mod Attempts
pub mod Lifecycle
pub mod Channels
mod Runs
use rdp_mcp.Prelude.{
  ℕ, ◌+◌, Bool, true, false, not, ◌&&◌, ◌||◌, Option, none, some, List, [], ◌∷◌, ◌++◌, Bytes,
  same_text, codes, if◌then◌else◌, ◌>>=◌, ltb_ℤ, ℤ, pos, u32, signed32, ◌==◌, length,
}
use rdp_mcp.Json.{Ptr}
use rdp_mcp.Command.{ConnectConfig, DriveConfig}
use rdp_mcp.Disp.{Disp, disp_channel_connected, disp_channel_disconnected}
use rdp_mcp.Output.{Output, output_send_connected, output_send_error}
use rdp_mcp.Clipboard.{Clipboard}
use rdp_mcp.Clipboard.Steps.{cliprdr_channel_connected, cliprdr_channel_disconnected}

-- The settings that the code gives, by FreeRDP's names.
pub data Key : Type 0 where
  server_hostname server_port proxy_type username password domain : Key
  desktop_width desktop_height color_depth desktop_scale_factor device_scale_factor : Key
  nla_security tls_security rdp_security ignore_certificate network_auto_detect : Key
  support_graphics_pipeline gfx_thin_client gfx_small_cache gfx_h264 gfx_avc444 : Key
  support_display_control dynamic_resolution_update software_gdi : Key
  redirect_clipboard clipboard_feature_mask device_redirection : Key

pub data Value : Type 0 where
  flag : Bool → Value
  number : ℕ → Value
  string : Option Bytes → Value

pub data Call : Type 0 where
  freerdp_new freerdp_free freerdp_context_free freerdp_disconnect : Call
  freerdp_context_new freerdp_connect gdi_init : Bool → Call
  register_addin_provider load_channels gdi_free register_pointer : Call
  set_setting : Key → Value → Call
  add_drive : Option Bytes → Option Bytes → Call
  pipeline_init pipeline_uninit : ℕ → Call

-- The constants of FreeRDP's headers.
pub record Constants : Type 0 where
  pub proxy_type_ignore : ℕ
  pub clipboard_all : ℕ
  pub rdpgfx_channel : Bytes
  pub disp_channel : Bytes
  pub cliprdr_channel : Bytes

abbrev text_of : Option Ptr → Option Bytes
text_of none = none
text_of (some p) = some p.text

abbrev when : Bool → List (Key × Value) → List (Key × Value)
when true xs = xs
when false xs = []

-- `config->domain && config->domain[0]`
abbrev has_text : Option Ptr → Bool
has_text none = false
has_text (some p) = not (length p.text == 0)

abbrev network_settings : Constants → ConnectConfig → List (Key × Value)
network_settings k c =
    (server_hostname, string (text_of c.host))
    ∷ (server_port, number (u32 c.port))
    ∷ (proxy_type, number k.proxy_type_ignore)
    ∷ (username, string (text_of c.username))
    ∷ (password, string (text_of c.password))
    ∷ when (has_text c.domain) ((domain, string (text_of c.domain)) ∷ [])

abbrev display_settings : ConnectConfig → List (Key × Value)
display_settings c =
    (desktop_width, number (u32 c.width))
    ∷ (desktop_height, number (u32 c.height))
    ∷ (color_depth, number 32)
    ∷ (when (ltb_ℤ (pos 100) c.desktop_scale_factor)
          ((desktop_scale_factor, number (u32 c.desktop_scale_factor)) ∷ [])
        ++ when
            (ltb_ℤ (pos 0) c.device_scale_factor
              && (ltb_ℤ c.device_scale_factor (pos 100) || ltb_ℤ (pos 100) c.device_scale_factor))
            ((device_scale_factor, number (u32 c.device_scale_factor)) ∷ []))

abbrev security_settings : ConnectConfig → List (Key × Value)
security_settings c =
    (nla_security, flag c.enable_nla)
    ∷ (tls_security, flag true)
    ∷ (rdp_security, flag true)
    ∷ (when c.skip_cert_verification ((ignore_certificate, flag true) ∷ [])
        ++ ((network_auto_detect, flag true) ∷ []))

abbrev graphics_settings : ConnectConfig → List (Key × Value)
graphics_settings c =
    when c.enable_gfx (
      (support_graphics_pipeline, flag true)
      ∷ (gfx_thin_client, flag false)
      ∷ (gfx_small_cache, flag true)
      ∷ [])
    ++ (when c.enable_h264 ((gfx_h264, flag true) ∷ (gfx_avc444, flag true) ∷ [])
        ++ ((support_display_control, flag true)
            ∷ (dynamic_resolution_update, flag true)
            ∷ (software_gdi, flag true)
            ∷ []))

abbrev redirection_settings : Constants → ConnectConfig → List (Key × Value)
redirection_settings k c =
    when c.enable_clipboard
      ((redirect_clipboard, flag true) ∷ (clipboard_feature_mask, number k.clipboard_all) ∷ [])

-- All of them but that of the drives, in their order.
unfoldable pub settings : Constants → ConnectConfig → List (Key × Value)
settings k c =
    network_settings k c
    ++ (display_settings c
        ++ (security_settings c ++ (graphics_settings c ++ redirection_settings k c)))

abbrev pub set_all : List (Key × Value) → List Call → List Call
set_all [] calls = calls
set_all ((k, v) ∷ xs) calls = set_all xs (set_setting k v ∷ calls)

abbrev pub add_drives : List DriveConfig → List Call → List Call
add_drives [] calls = calls
add_drives (d ∷ ds) calls = add_drives ds (add_drive (text_of d.name) (text_of d.path) ∷ calls)

-- A drive that is refused is passed over.
unfoldable pub redirect_drives : ConnectConfig → List Call → List Call
redirect_drives c calls = elim c.drives [
  | none ↦ calls
  | some (block, []) ↦ calls
  | some (block, d ∷ ds) ↦ add_drives (d ∷ ds) (set_setting device_redirection (flag true) ∷ calls)
]

-- Whether freerdp_new and freerdp_context_new succeed; `false` is NULL.
unfoldable pub connection_init :
    Constants → (new_ok context_ok : Bool) → ConnectConfig → List Call → List Call × Bool
unfolding settings redirect_drives
connection_init k false context_ok c calls = (calls, false)
connection_init k true false c calls =
    (freerdp_free ∷ freerdp_context_new false ∷ freerdp_new ∷ calls, false)
connection_init k true true c calls = (
  redirect_drives c (
      set_all (settings k c)
        (load_channels ∷ register_addin_provider ∷ freerdp_context_new true ∷ freerdp_new ∷ calls)),
  true,
)

-- Whether there are event handles, the wait succeeds and FreeRDP handles the events.
unfoldable pub connection_check_events : (handles waited handled : Bool) → Bool
connection_check_events handles waited handled = handles && (waited && handled)

unfoldable pub connection_free : List Call → List Call
connection_free calls = freerdp_free ∷ freerdp_context_free ∷ freerdp_disconnect ∷ calls

-- The parts of the program that a connection reaches; `gdi` says that the context has its GDI.
pub record Connection : Type 0 where
  pub gdi : Bool
  pub subscribed : Bool
  pub disp : Disp
  pub clipboard : Clipboard
  pub calls : List Call

-- `cb_pre_connect` of an instance with a context and settings.
unfoldable pub cb_pre_connect : Connection → Connection
cb_pre_connect s = record s { calls = set_setting software_gdi (flag true) ∷ s.calls }

-- `w` and `h` are the dimensions in the settings.
unfoldable pub cb_post_connect : Bool → ℕ → ℕ → Connection → Option (Connection × Bool)
cb_post_connect gdi_ok w h s = do
  o ← output_send_connected (signed32 w) (signed32 h) s.clipboard.output
  let told = record s {
    clipboard = record s.clipboard { output = o };
    calls = gdi_init gdi_ok ∷ s.calls;
  }
  some (
      if gdi_ok
      then (
        record told { gdi = true; subscribed = true; calls = register_pointer ∷ told.calls },
        true,
      )
      else (told, false))

-- What FreeRDP does in PostConnect's turn: the answer of gdi_init, and the dimensions in the settings.
pub record Posted : Type 0 where
  pub gdi_ok : Bool
  pub width : ℕ
  pub height : ℕ

-- What freerdp_connect does: whether it calls PreConnect and PostConnect, and what it answers. It may
-- fail before it calls them, because PostConnect fails, or behind them. Channel events and paint
-- callbacks are taken to come when it has returned.
pub record Attempt : Type 0 where
  pub prepares : Bool
  pub posts : Option Posted
  pub ok : Bool

-- The callbacks that connection_init has set, as freerdp_connect calls them.
unfoldable pub connect_callbacks : Attempt → Connection → Option Connection
unfolding cb_pre_connect cb_post_connect
connect_callbacks f s =
    let begun = if f.prepares then cb_pre_connect s else s in
    elim f.posts [
      | none ↦ some begun
      | some p ↦ (do (t, r) ← cb_post_connect p.gdi_ok p.width p.height begun; some t)
    ]

-- `error` is FreeRDP's text for its last error; `none` is a read outside a buffer.
unfoldable pub connection_connect : Attempt → Option Bytes → Connection → Option (Connection × Bool)
unfolding connect_callbacks
connection_connect f error s = do
  t ← connect_callbacks f s
  let back = record t { calls = freerdp_connect f.ok ∷ t.calls }
  if f.ok then some (back, true) else (do
    o ←
        output_send_error (some (elim error [ none ↦ codes "Connection failed" | some x ↦ x ]))
          back.clipboard.output
    some (record back { clipboard = record back.clipboard { output = o } }, false))

unfoldable pub cb_post_disconnect : Connection → Connection
cb_post_disconnect s = record s { gdi = false; subscribed = false; calls = gdi_free ∷ s.calls }

unfoldable pub cb_channel_connected : Constants → Bytes → ℕ → Connection → Connection
cb_channel_connected k name c s =
    if same_text name k.rdpgfx_channel
    then (if s.gdi then record s { calls = pipeline_init c ∷ s.calls } else s)
    else if same_text name k.disp_channel
    then record s { disp = disp_channel_connected c s.disp }
    else if same_text name k.cliprdr_channel
    then record s { clipboard = cliprdr_channel_connected c s.clipboard }
    else s

unfoldable pub cb_channel_disconnected : Constants → Bytes → ℕ → Connection → Connection
cb_channel_disconnected k name c s =
    if same_text name k.rdpgfx_channel
    then (if s.gdi then record s { calls = pipeline_uninit c ∷ s.calls } else s)
    else if same_text name k.disp_channel
    then record s { disp = disp_channel_disconnected s.disp }
    else if same_text name k.cliprdr_channel
    then record s { clipboard = cliprdr_channel_disconnected s.clipboard }
    else s
