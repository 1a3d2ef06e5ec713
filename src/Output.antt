-- ===== src/Output.antt =====
-- native/freerdp-helper/src/output.c: the sink of the helper's messages, a pipe that carries
-- framed messages or the callback of an embedding program. The module state is a record; the pipe
-- is the list of the bytes given to `fwrite`, the callback the list of its invocations.
pub mod Frame
pub mod Request
pub mod Buffers
pub mod Pipe
pub mod Callback
pub mod Delivery
pub mod Overread
pub mod Lifecycle
mod Runs
use rdp_mcp.Prelude.{
  ℕ, zero, suc, ◌+◌, ◌-◌, ◌/◌, ◌%◌, Bool, true, false, not, ◌&&◌, ◌||◌, Option, none, some, List,
  [], ◌∷◌, ◌++◌, Bytes, codes, ltb, leb, ◌==◌, if◌then◌else◌, length, take, ℤ, pos, decimal_ℤ,
  leb_ℤ, u32, ◌>>=◌,
}
use rdp_mcp.MessageType.{
  msg_bitmap_update, msg_clipboard_file_done, msg_clipboard_file_error, msg_clipboard_file_list,
  msg_clipboard_file_progress, msg_clipboard_native, msg_clipboard_text, msg_connected,
  msg_cursor_default, msg_cursor_null, msg_cursor_set, msg_disconnected, msg_error, msg_resized,
}

-- One invocation of the registered callback, with the bytes of its two buffers.
pub record Call : Type 0 where
  pub kind : ℕ
  pub part_a : Bytes
  pub part_b : Bytes
  pub user_data : ℕ

-- The static variables: `binary_out` is `g_binary_out` (`none` for NULL), `callback` says that
-- `g_output_callback` is not NULL.
pub record Output : Type 0 where
  pub initialized : Bool
  pub binary_out : Option Bytes
  pub callback : Bool
  pub user_data : ℕ
  pub calls : List Call

-- `dup` gives a descriptor or a negative number, and `fdopen` a stream or NULL; `none` is
-- `exit(1)`. The redirection of the process's descriptor 1 is no part of the module's state.
unfoldable pub output_init : ℤ → Bool → Output → Option Output
output_init saved_stdout opened o =
    if not (leb_ℤ (pos 0) saved_stdout)
    then none
    else if opened
    then some
        (record o { initialized = true; binary_out = some []; callback = false; user_data = 0 })
    else none

unfoldable pub output_init_callback : Bool → ℕ → Output → Output
output_init_callback callback user_data o = record o {
  initialized = true;
  binary_out = none;
  callback = callback;
  user_data = user_data;
}

unfoldable pub output_cleanup : Output → Output
output_cleanup o =
    if not o.initialized
    then o
    else record o { initialized = false; binary_out = none; callback = false; user_data = 0 }

abbrev pub is_open : Option Bytes → Bool
is_open none = false
is_open (some written) = true

-- `!g_binary_out && !g_output_callback`
abbrev pub no_sink : Output → Bool
no_sink o = not (is_open o.binary_out) && not o.callback

-- The low `k` bytes of a word, lowest first.
abbrev pub le16 : ℕ → Bytes
le16 v = (v % 256) ∷ (v / 256 % 256) ∷ []

abbrev pub le32 : ℕ → Bytes
le32 v = (v % 256) ∷ (v / 256 % 256) ∷ (v / 65536 % 256) ∷ (v / 16777216 % 256) ∷ []

-- The first `n` bytes of a buffer; `none` is a read past its end or through NULL.
abbrev pub read_buffer : Option Bytes → ℕ → Option Bytes
read_buffer none n = if n == 0 then some [] else none
read_buffer (some b) n = if leb n (length b) then some (take n b) else none

-- `fwrite` to the pipe.
abbrev pub put_bytes : Bytes → Output → Output
put_bytes bs o = record o {
  binary_out = elim o.binary_out [ none ↦ none | some b ↦ some (b ++ bs) ];
}

abbrev pub invoke : ℕ → Bytes → Bytes → Output → Output
invoke kind a b o = record o {
  calls = o.calls ++ (record { kind = kind; part_a = a; part_b = b; user_data = o.user_data } ∷ []);
}

-- The payload that `if (payload && length > 0) fwrite(...)` writes.
abbrev pub pipe_payload : Option Bytes → ℕ → Option Bytes
pipe_payload none n = some []
pipe_payload (some b) n = if ltb 0 n then read_buffer (some b) n else some []

unfoldable pub output_send : ℕ → Option Bytes → ℕ → Output → Option Output
output_send kind payload n o =
    if no_sink o
    then some o
    else if o.callback
    then (do p ← read_buffer payload n; some (invoke kind p [] o))
    else (do p ← pipe_payload payload n; some (put_bytes (le32 kind ++ (le32 n ++ p)) o))

-- `snprintf` into a buffer of `size` bytes: what stands in the buffer, and the returned length,
-- which is that of the whole text.
abbrev pub printed : ℕ → Bytes → Bytes
printed size text = take (size - 1) text ++ (0 ∷ [])

-- A text printed to a buffer of `size` bytes, and sent with the length that `snprintf` returned.
unfoldable pub send_printed : ℕ → ℕ → Bytes → Output → Option Output
send_printed kind size text = output_send kind (some (printed size text)) (length text % 4294967296)

abbrev pub dimensions_json : ℤ → ℤ → Bytes
dimensions_json width height =
    codes "{\"width\":"
    ++ (decimal_ℤ width ++ (codes ",\"height\":" ++ (decimal_ℤ height ++ codes "}")))

unfoldable pub output_send_connected : ℤ → ℤ → Output → Option Output
unfolding send_printed
output_send_connected width height = send_printed msg_connected 128 (dimensions_json width height)

-- The sub-header of the messages that carry pixels: four 16-bit fields.
abbrev pub sub_header : ℕ → ℕ → ℕ → ℕ → Bytes
sub_header x y w h = le16 x ++ (le16 y ++ (le16 w ++ le16 h))

unfoldable pub output_send_bitmap : ℕ → ℕ → ℕ → ℕ → Option Bytes → ℕ → Output → Option Output
output_send_bitmap x y w h rgba rgba_len o =
    if no_sink o
    then some o
    else if o.callback
    then (do
      p ← read_buffer rgba (rgba_len % 4294967296)
      some (invoke msg_bitmap_update (sub_header x y w h) p o))
    else (do
      p ← pipe_payload rgba rgba_len
      let payload_len = (8 + rgba_len % 4294967296) % 4294967296
      some
          (put_bytes (le32 msg_bitmap_update ++ (le32 payload_len ++ (sub_header x y w h ++ p))) o))

abbrev pub disconnected_json : Option Bytes → Bytes
disconnected_json none = codes "{\"error\":null}"
disconnected_json (some error) = codes "{\"error\":\"" ++ (error ++ codes "\"}")

unfoldable pub output_send_disconnected : Option Bytes → Output → Option Output
unfolding send_printed
output_send_disconnected error = send_printed msg_disconnected 1024 (disconnected_json error)

unfoldable pub output_send_resized : ℤ → ℤ → Output → Option Output
unfolding send_printed
output_send_resized width height = send_printed msg_resized 128 (dimensions_json width height)

-- `if (!json || length <= 0) return;`
abbrev pub is_null : Option Bytes → Bool
is_null none = true
is_null (some b) = false

abbrev pub send_text : ℕ → Option Bytes → ℤ → Output → Option Output
send_text kind text n o =
    if is_null text || leb_ℤ n (pos 0) then some o else output_send kind text (u32 n) o

unfoldable pub output_send_clipboard_text : Option Bytes → ℤ → Output → Option Output
output_send_clipboard_text = send_text msg_clipboard_text

unfoldable pub output_send_clipboard_file_list : Option Bytes → ℤ → Output → Option Output
output_send_clipboard_file_list = send_text msg_clipboard_file_list

unfoldable pub output_send_clipboard_file_done : Option Bytes → ℤ → Output → Option Output
output_send_clipboard_file_done = send_text msg_clipboard_file_done

unfoldable pub output_send_clipboard_file_error : Option Bytes → ℤ → Output → Option Output
output_send_clipboard_file_error = send_text msg_clipboard_file_error

unfoldable pub output_send_clipboard_file_progress : Option Bytes → ℤ → Output → Option Output
output_send_clipboard_file_progress = send_text msg_clipboard_file_progress

unfoldable pub output_send_clipboard_native : Output → Option Output
unfolding output_send
output_send_clipboard_native = output_send msg_clipboard_native (some (codes "{}")) 2

unfoldable pub output_send_cursor : ℕ → ℕ → ℕ → ℕ → Option Bytes → ℕ → Output → Option Output
output_send_cursor hotspot_x hotspot_y w h rgba rgba_len o =
    if no_sink o || (is_null rgba || rgba_len == 0)
    then some o
    else if o.callback
    then (do
      p ← read_buffer rgba (rgba_len % 4294967296)
      some (invoke msg_cursor_set (sub_header hotspot_x hotspot_y w h) p o))
    else (do
      p ← read_buffer rgba rgba_len
      let payload_len = (8 + rgba_len % 4294967296) % 4294967296
      let sub = sub_header hotspot_x hotspot_y w h
      some (put_bytes (le32 msg_cursor_set ++ (le32 payload_len ++ (sub ++ p))) o))

unfoldable pub output_send_cursor_null : Output → Option Output
unfolding output_send
output_send_cursor_null = output_send msg_cursor_null none 0

unfoldable pub output_send_cursor_default : Output → Option Output
unfolding output_send
output_send_cursor_default = output_send msg_cursor_default none 0

abbrev pub error_json : Option Bytes → Bytes
error_json none = codes "{\"message\":\"Unknown error\"}"
error_json (some message) = codes "{\"message\":\"" ++ (message ++ codes "\"}")

unfoldable pub output_send_error : Option Bytes → Output → Option Output
unfolding send_printed
output_send_error message = send_printed msg_error 2048 (error_json message)
