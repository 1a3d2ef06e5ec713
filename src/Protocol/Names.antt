-- ===== src/Protocol/Names.antt =====
-- The names of the commands on the wire.
use rdp_mcp.Prelude.{
  ℕ, ◌≡◌, refl, ◌≢◌, ◌↔◌, Bool, some, [], ◌∷◌, Bytes, codes, same_text→eq, arith, ap, ◌∙◌, sym, ◌⊎◌,
  inl, inr, Option-cases,
}
use rdp_mcp.Json.{CJson, Heap}
use rdp_mcp.Protocol.{fill_command, cjson_get_string, protocol_parse_command}
use rdp_mcp.Command.{CommandType, unknown, command_type}

-- The `"type"` that stands for each command.
abbrev pub wire_name : CommandType → Bytes
wire_name CommandType.connect = codes "connect"
wire_name CommandType.disconnect = codes "disconnect"
wire_name CommandType.mouse_move = codes "mouse_move"
wire_name CommandType.mouse_button_down = codes "mouse_button_down"
wire_name CommandType.mouse_button_up = codes "mouse_button_up"
wire_name CommandType.mouse_scroll = codes "mouse_scroll"
wire_name CommandType.key_down = codes "key_down"
wire_name CommandType.key_up = codes "key_up"
wire_name CommandType.unicode_key_down = codes "unicode_key_down"
wire_name CommandType.unicode_key_up = codes "unicode_key_up"
wire_name CommandType.resize = codes "resize"
wire_name CommandType.clipboard_set = codes "clipboard_set"
wire_name CommandType.clipboard_set_files = codes "clipboard_set_files"
wire_name CommandType.clipboard_request_files = codes "clipboard_request_files"
wire_name CommandType.unknown = []

command_type-wire_name : (t : CommandType) → command_type (wire_name t) ≡ t
unfolding command_type
command_type-wire_name CommandType.connect = refl
command_type-wire_name _ = refl

wire_name-command_type :
    (b : Bytes) → command_type b ≢ CommandType.unknown → b ≡ wire_name (command_type b)
unfolding command_type
wire_name-command_type b h = ground (
  arith,
  same_text→eq b (codes "connect"),
  same_text→eq b (codes "disconnect"),
  same_text→eq b (codes "mouse_move"),
  same_text→eq b (codes "mouse_button_down"),
  same_text→eq b (codes "mouse_button_up"),
  same_text→eq b (codes "mouse_scroll"),
  same_text→eq b (codes "key_down"),
  same_text→eq b (codes "key_up"),
  same_text→eq b (codes "unicode_key_down"),
  same_text→eq b (codes "unicode_key_up"),
  same_text→eq b (codes "resize"),
  same_text→eq b (codes "clipboard_set"),
  same_text→eq b (codes "clipboard_set_files"),
  same_text→eq b (codes "clipboard_request_files"),
)

-- A command is recognised by its wire name and by nothing else.
pub command_type_iff :
    (t : CommandType) (b : Bytes)
    → t ≢ CommandType.unknown
    → (command_type b ≡ t) ↔ (b ≡ wire_name t)
command_type_iff t b h = (
  λ e. wire_name-command_type b (λ u. h (sym e ∙ u)) ∙ ap wire_name e,
  λ e. ap command_type e ∙ command_type-wire_name t,
)

module _ {Item : Type 0} (json : CJson Item) (grants : ℕ → Bool) where
  -- A text that is not empty always gives a command: the one of its type if it is JSON with a string
  -- `type`, and `CMD_UNKNOWN`, with the heap untouched, if it is not.
  pub protocol_parse_command-some :
      (c : ℕ) (text : Bytes) (h : Heap)
      → (((j : Item) × (t : Bytes) × (json.parse (c ∷ text) ≡ some j)
            × (cjson_get_string json grants (some j) "type" ≡ some t)
            × (protocol_parse_command json grants (some (c ∷ text)) h ≡ (
              some (fill_command json grants (command_type t) (some j) h).0,
              (fill_command json grants (command_type t) (some j) h).1,
            )))
          ⊎ (protocol_parse_command json grants (some (c ∷ text)) h ≡ (some unknown, h)))
  unfolding protocol_parse_command
  protocol_parse_command-some c text h = elim (Option-cases (json.parse (c ∷ text))) [
    | inl bad ↦ inr (rw bad)
    | inr (j, good) ↦ elim (Option-cases (cjson_get_string json grants (some j) "type")) [
      | inl untyped ↦ inr (rw (good, untyped))
      | inr (t, typed) ↦ inl (j, t, good, typed, rw (good, typed))
    ]
  ]
