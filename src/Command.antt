-- ===== src/Command.antt =====
-- native/freerdp-helper/src/protocol.h and protocol.c: the commands, and their names on the wire.
use rdp_mcp.Prelude.{
  ℕ, Bool, false, Option, none, List, Bytes, codes, same_text, if◌then◌else◌, ℤ, pos,
}
use rdp_mcp.Json.{Ptr}

-- `CMD_CONNECT` and its neighbours of protocol.h.
pub data CommandType : Type 0 where
  connect disconnect mouse_move mouse_button_down mouse_button_up mouse_scroll : CommandType
  key_down key_up unicode_key_down unicode_key_up resize : CommandType
  clipboard_set clipboard_set_files clipboard_request_files unknown : CommandType

pub record DriveConfig : Type 0 where
  pub name : Option Ptr
  pub path : Option Ptr

-- `drives` is the block of the array with its entries, `drive_count` their number.
pub record ConnectConfig : Type 0 where
  pub host : Option Ptr
  pub port : ℤ
  pub username : Option Ptr
  pub password : Option Ptr
  pub domain : Option Ptr
  pub width : ℤ
  pub height : ℤ
  pub enable_nla : Bool
  pub skip_cert_verification : Bool
  pub enable_gfx : Bool
  pub enable_h264 : Bool
  pub drives : Option (ℕ × List DriveConfig)
  pub desktop_scale_factor : ℤ
  pub device_scale_factor : ℤ
  pub enable_clipboard : Bool

-- The tag with its member of the union.
pub data Command : Type 0 where
  connect : ConnectConfig → Command
  disconnect : Command
  mouse_move : ℤ → ℤ → Command
  mouse_button_down : ℤ → ℤ → ℤ → Command
  mouse_button_up : ℤ → ℤ → ℤ → Command
  mouse_scroll : ℤ → ℤ → ℤ → Bool → Command
  key_down : ℤ → Bool → Command
  key_up : ℤ → Bool → Command
  unicode_key_down : ℤ → Command
  unicode_key_up : ℤ → Command
  resize : ℤ → ℤ → ℤ → ℤ → Command
  clipboard_set : Option Ptr → ℤ → Command
  clipboard_set_files : Option Ptr → Command
  clipboard_request_files : Option Ptr → Command
  unknown : Command

-- The ladder of `strcmp` tests.
unfoldable pub command_type : Bytes → CommandType
command_type t =
    if same_text t (codes "connect")
    then CommandType.connect
    else if same_text t (codes "disconnect")
    then CommandType.disconnect
    else if same_text t (codes "mouse_move")
    then CommandType.mouse_move
    else if same_text t (codes "mouse_button_down")
    then CommandType.mouse_button_down
    else if same_text t (codes "mouse_button_up")
    then CommandType.mouse_button_up
    else if same_text t (codes "mouse_scroll")
    then CommandType.mouse_scroll
    else if same_text t (codes "key_down")
    then CommandType.key_down
    else if same_text t (codes "key_up")
    then CommandType.key_up
    else if same_text t (codes "unicode_key_down")
    then CommandType.unicode_key_down
    else if same_text t (codes "unicode_key_up")
    then CommandType.unicode_key_up
    else if same_text t (codes "resize")
    then CommandType.resize
    else if same_text t (codes "clipboard_set")
    then CommandType.clipboard_set
    else if same_text t (codes "clipboard_set_files")
    then CommandType.clipboard_set_files
    else if same_text t (codes "clipboard_request_files")
    then CommandType.clipboard_request_files
    else CommandType.unknown

-- The configuration after `memset(cmd, 0, sizeof(Command))`.
abbrev pub zero_config : ConnectConfig
zero_config = record {
  host = none;
  port = pos 0;
  username = none;
  password = none;
  domain = none;
  width = pos 0;
  height = pos 0;
  enable_nla = false;
  skip_cert_verification = false;
  enable_gfx = false;
  enable_h264 = false;
  drives = none;
  desktop_scale_factor = pos 0;
  device_scale_factor = pos 0;
  enable_clipboard = false;
}
