-- ===== src/Samples.antt =====
-- Concrete values of the parameters, for the runs: a JSON library, an allocator and FreeRDP's flags.
use rdp_mcp.Prelude.{ℕ, ◌+◌, Bool, true, none, some, Bytes, [], false, if◌then◌else◌}
use rdp_mcp.Json.{CJson}
use rdp_mcp.Input.{InputApi}
use rdp_mcp.Files.{Files}
use rdp_mcp.Output.Request.{on_callback}
use rdp_mcp.Clipboard.{Clipboard}

-- A JSON library of one kind of item, that is its text and each of its members.
abbrev pub echo_json : CJson Bytes
echo_json = record {
  parse = λ t. some t;
  get_object_item = λ item key. some item;
  string_value = λ item. some item;
  int_value = λ item. none;
  uint64_value = λ item. none;
  bool_value = λ item. none;
  array_items = λ item. none;
  print_unformatted = λ item. some item;
}

abbrev pub all_granted : ℕ → Bool
all_granted n = true

abbrev pub freerdp : InputApi
freerdp = record {
  ptr_flags_move = 0x0800;
  ptr_flags_down = 0x8000;
  ptr_flags_button1 = 0x1000;
  ptr_flags_button2 = 0x2000;
  ptr_flags_button3 = 0x4000;
  ptr_flags_wheel = 0x0200;
  ptr_flags_hwheel = 0x0400;
  ptr_flags_wheel_negative = 0x0100;
  kbd_flags_release = 0x8000;
  make_rdp_scancode = λ n extended. if extended then 256 + n else n;
}

-- cliprdr_file.c with a channel.
abbrev pub connected_files : Files
connected_files = record {
  cliprdr = some 1;
  fgd_format_id = 0;
  pending_fgd_request = false;
  server_descriptors = [];
  downloads = [];
  download_current = 0;
  downloading = false;
  download_temp_dir = none;
  next_stream_id = 1;
  local_allocated = false;
  local_files = [];
  local_descriptors = [];
  server_lock_id = 0;
  server_has_lock = false;
  our_lock_id = 0;
  our_lock_active = false;
  next_lock_id = 100;
  effects = [];
}

-- cliprdr.c with a channel that has just sent a format list.
abbrev pub active_clipboard : Clipboard
active_clipboard = record {
  cliprdr = some 1;
  ready = true;
  client_text = none;
  client_text_len = 0;
  pending_fgd = false;
  last_format_list_ms = 5000;
  last_reject_ms = 0;
  format_list_rejected = false;
  files = connected_files;
  output = on_callback 0 [];
  sent = [];
}
