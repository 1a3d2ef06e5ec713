-- ===== src/Protocol.antt =====
-- native/freerdp-helper/src/protocol.c: the JSON commands on standard input. cJSON and the
-- allocator are parameters.
pub mod Names
pub mod Ownership
pub mod Lines
mod Runs
use rdp_mcp.Prelude.{
  ℕ, zero, suc, ◌+◌, ◌-◌, Bool, true, false, ◌&&◌, Option, none, some, List, [], ◌∷◌, ◌++◌, String,
  Bytes, codes, same_text, ltb, ◌==◌, if◌then◌else◌, length, take, get_elem?, ℤ, pos,
}
use rdp_mcp.Json.{CJson, Heap, Ptr, allocate, with_text}
use rdp_mcp.Command.{
  Command, CommandType, ConnectConfig, DriveConfig, clipboard_request_files, clipboard_set,
  clipboard_set_files, command_type, connect, disconnect, key_down, key_up, mouse_button_down,
  mouse_button_up, mouse_move, mouse_scroll, resize, unicode_key_down, unicode_key_up, unknown,
  zero_config,
}

module _ {Item : Type 0} (json : CJson Item) (grants : ℕ → Bool) where
  -- A key of an object that may be NULL.
  abbrev pub get_item : Option Item → String → Option Item
  get_item none key = none
  get_item (some obj) key = json.get_object_item obj key

  abbrev pub cjson_get_string : Option Item → String → Option Bytes
  cjson_get_string obj key = elim (get_item obj key) [
    | none ↦ none
    | some item ↦ json.string_value item
  ]

  abbrev pub or_default {ℓ} : {A : Type ℓ} → Option A → A → A
  or_default none d = d
  or_default (some a) d = a

  abbrev pub cjson_get_int : Option Item → String → ℤ → ℤ
  cjson_get_int obj key d = elim (get_item obj key) [
    | none ↦ d
    | some item ↦ or_default (json.int_value item) d
  ]

  abbrev pub cjson_get_bool : Option Item → String → Bool → Bool
  cjson_get_bool obj key d = elim (get_item obj key) [
    | none ↦ d
    | some item ↦ or_default (json.bool_value item) d
  ]

  -- `safe_strdup`
  abbrev pub safe_strdup : Option Bytes → Heap → Option Ptr × Heap
  safe_strdup none h = (none, h)
  safe_strdup (some t) h = with_text t (allocate grants h)

  unfoldable pub parse_drive : Option Item → Heap → DriveConfig × Heap
  parse_drive item h₀ =
      let (name, h₁) = safe_strdup (cjson_get_string item "name") h₀ in
      let (path, h₂) = safe_strdup (cjson_get_string item "path") h₁ in
      (record { name = name; path = path }, h₂)

  unfoldable pub parse_drive_list : List Item → Heap → List DriveConfig × Heap
  parse_drive_list [] h = ([], h)
  parse_drive_list (item ∷ items) h₀ =
      let (d, h₁) = parse_drive (some item) h₀ in
      let (ds, h₂) = parse_drive_list items h₁ in (d ∷ ds, h₂)

  abbrev fill_drives : List Item → Option ℕ × Heap → Option (ℕ × List DriveConfig) × Heap
  fill_drives items (none, h) = (none, h)
  fill_drives items (some block, h) =
      let (ds, h') = parse_drive_list items h in (some (block, ds), h')

  -- `drives` is used if it is an array that is not empty, and `calloc` succeeds.
  abbrev drive_items : Option (List Item) → Heap → Option (ℕ × List DriveConfig) × Heap
  drive_items none h = (none, h)
  drive_items (some []) h = (none, h)
  drive_items (some (i ∷ is)) h = fill_drives (i ∷ is) (allocate grants h)

  unfoldable pub parse_drives : Option Item → Heap → Option (ℕ × List DriveConfig) × Heap
  parse_drives none h = (none, h)
  parse_drives (some item) h = drive_items (json.array_items item) h

  unfoldable pub parse_config : Item → Heap → ConnectConfig × Heap
  parse_config item h₀ =
      let config = some item in
      let (host, h₁) = safe_strdup (cjson_get_string config "host") h₀ in
      let (username, h₂) = safe_strdup (cjson_get_string config "username") h₁ in
      let (password, h₃) = safe_strdup (cjson_get_string config "password") h₂ in
      let (domain, h₄) = safe_strdup (cjson_get_string config "domain") h₃ in
      let (drives, h₅) = parse_drives (get_item config "drives") h₄ in
      (
        record {
          host = host;
          port = cjson_get_int config "port" (pos 3389);
          username = username;
          password = password;
          domain = domain;
          width = cjson_get_int config "width" (pos 1920);
          height = cjson_get_int config "height" (pos 1080);
          enable_nla = cjson_get_bool config "enableNla" true;
          skip_cert_verification = cjson_get_bool config "skipCertVerification" false;
          enable_gfx = cjson_get_bool config "enableGfx" true;
          enable_h264 = cjson_get_bool config "enableH264" true;
          drives = drives;
          desktop_scale_factor = cjson_get_int config "desktopScaleFactor" (pos 100);
          device_scale_factor = cjson_get_int config "deviceScaleFactor" (pos 100);
          enable_clipboard = cjson_get_bool config "enableClipboard" true;
        },
        h₅,
      )

  abbrev parse_connect : Option Item → Heap → Command × Heap
  parse_connect none h = (connect zero_config, h)
  parse_connect (some config) h = let (c, h') = parse_config config h in (connect c, h')

  abbrev parse_clipboard : Option Bytes → Heap → Command × Heap
  parse_clipboard none h = (clipboard_set none (pos 0), h)
  parse_clipboard (some text) h =
      let (p, h') = safe_strdup (some text) h in (clipboard_set p (pos (length text)), h')

  abbrev parse_files : Option Item → Heap → Command × Heap
  parse_files none h = (clipboard_set_files none, h)
  parse_files (some files) h =
      let (p, h') = safe_strdup (json.print_unformatted files) h in (clipboard_set_files p, h')

  -- What each branch of the ladder fills in.
  unfoldable pub fill_command : CommandType → Option Item → Heap → Command × Heap
  fill_command CommandType.connect j h = parse_connect (get_item j "config") h
  fill_command CommandType.disconnect j h = (disconnect, h)
  fill_command CommandType.mouse_move j h =
      (mouse_move (cjson_get_int j "x" (pos 0)) (cjson_get_int j "y" (pos 0)), h)
  fill_command CommandType.mouse_button_down j h = (
    mouse_button_down (cjson_get_int j "x" (pos 0)) (cjson_get_int j "y" (pos 0))
        (cjson_get_int j "button" (pos 0)),
    h,
  )
  fill_command CommandType.mouse_button_up j h = (
    mouse_button_up (cjson_get_int j "x" (pos 0)) (cjson_get_int j "y" (pos 0))
        (cjson_get_int j "button" (pos 0)),
    h,
  )
  fill_command CommandType.mouse_scroll j h = (
    mouse_scroll (cjson_get_int j "x" (pos 0)) (cjson_get_int j "y" (pos 0))
        (cjson_get_int j "delta" (pos 0)) (cjson_get_bool j "vertical" true),
    h,
  )
  fill_command CommandType.key_down j h =
      (key_down (cjson_get_int j "scancode" (pos 0)) (cjson_get_bool j "extended" false), h)
  fill_command CommandType.key_up j h =
      (key_up (cjson_get_int j "scancode" (pos 0)) (cjson_get_bool j "extended" false), h)
  fill_command CommandType.unicode_key_down j h =
      (unicode_key_down (cjson_get_int j "code_unit" (pos 0)), h)
  fill_command CommandType.unicode_key_up j h =
      (unicode_key_up (cjson_get_int j "code_unit" (pos 0)), h)
  fill_command CommandType.resize j h = (
    resize (cjson_get_int j "width" (pos 1920)) (cjson_get_int j "height" (pos 1080))
        (cjson_get_int j "desktopScaleFactor" (pos 100))
        (cjson_get_int j "deviceScaleFactor" (pos 100)),
    h,
  )
  fill_command CommandType.clipboard_set j h = parse_clipboard (cjson_get_string j "text") h
  fill_command CommandType.clipboard_set_files j h = parse_files (get_item j "files") h
  fill_command CommandType.clipboard_request_files j h =
      let (p, h') = safe_strdup (cjson_get_string j "tempDir") h in (clipboard_request_files p, h')
  fill_command CommandType.unknown j h = (unknown, h)

  abbrev typed_command : Item → Option Bytes → Heap → Command × Heap
  typed_command j none h = (unknown, h)
  typed_command j (some t) h = fill_command (command_type t) (some j) h

  abbrev parsed_command : Option Item → Heap → Command × Heap
  parsed_command none h = (unknown, h)
  parsed_command (some j) h = typed_command j (cjson_get_string (some j) "type") h

  abbrev some_command : Command × Heap → Option Command × Heap
  some_command (c, h) = (some c, h)

  -- `none` is the result `false`; a text that is not JSON is an unknown command. The item that cJSON
  -- built is deleted on every path.
  unfoldable pub protocol_parse_command : Option Bytes → Heap → Option Command × Heap
  protocol_parse_command none h = (none, h)
  protocol_parse_command (some []) h = (none, h)
  protocol_parse_command (some (c ∷ text)) h =
      some_command (parsed_command (json.parse (c ∷ text)) h)

-- `line[i] == c`
abbrev pub has_at : Bytes → ℕ → ℕ → Bool
has_at line i c = elim (get_elem? line i) [ none ↦ false | some d ↦ d == c ]

-- The text left of a line after the two writes of NUL: at the last byte, and at the one before it.
unfoldable pub strip_line : Bytes → Bytes
strip_line line =
    let len = length line in
    let shorter = if ltb 0 len && has_at line (len - 1) b'\n' then take (len - 1) line else line in
    if ltb 1 len && has_at line (len - 2) b'\r' then take (len - 2) line else shorter

-- `fgets` gives a line of at most 16383 bytes, or NULL.
unfoldable pub protocol_read_command :
    {Item : Type 0} → CJson Item → (ℕ → Bool) → Option Bytes → Heap → Option Command × Heap
unfolding strip_line
protocol_read_command json grants none h = (none, h)
protocol_read_command json grants (some line) h =
    protocol_parse_command json grants (some (strip_line line)) h

abbrev pub free : Option Ptr → List ℕ
free none = []
free (some p) = p.block ∷ []

abbrev free_drive_list : List DriveConfig → List ℕ
free_drive_list [] = []
free_drive_list (d ∷ ds) = free d.name ++ (free d.path ++ free_drive_list ds)

abbrev free_drives : Option (ℕ × List DriveConfig) → List ℕ
free_drives none = []
free_drives (some (block, ds)) = free_drive_list ds ++ (block ∷ [])

-- The blocks given to `free`, in order.
unfoldable pub protocol_free_command : Command → List ℕ
protocol_free_command (clipboard_set text n) = free text
protocol_free_command (clipboard_set_files files) = free files
protocol_free_command (clipboard_request_files temp_dir) = free temp_dir
protocol_free_command (connect c) =
    free c.host ++ (free c.username ++ (free c.password ++ (free c.domain ++ free_drives c.drives)))
protocol_free_command disconnect = []
protocol_free_command _ = []
