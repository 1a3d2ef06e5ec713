-- ===== src/Output/Request.antt =====
-- The calls of output.h's senders as data, and the messages that the table of output.h gives them.
use rdp_mcp.Prelude.{
  ℕ, ◌+◌, ◌<◌, true, false, Option, none, some, List, [], ◌∷◌, ◌++◌, Bytes, codes, length, ◌>>=◌, ℤ,
  pos,
}
use rdp_mcp.Output.{
  Output, Call, dimensions_json, disconnected_json, error_json, sub_header, output_send_connected,
  output_send_bitmap, output_send_disconnected, output_send_resized, output_send_clipboard_text,
  output_send_clipboard_file_list, output_send_clipboard_file_done,
  output_send_clipboard_file_error, output_send_clipboard_file_progress,
  output_send_clipboard_native, output_send_cursor, output_send_cursor_null,
  output_send_cursor_default, output_send_error,
}
use rdp_mcp.MessageType.{
  msg_clipboard_text, msg_clipboard_file_list, msg_clipboard_file_done, msg_clipboard_file_error,
  msg_clipboard_file_progress,
}
use rdp_mcp.Output.Frame.{Message}

-- The five senders of ready-made text.
pub data TextKind : Type 0 where
  clipboard_text file_list file_done file_error file_progress : TextKind

pub data Request : Type 0 where
  connected resized : ℤ → ℤ → Request
  bitmap cursor : ℕ → ℕ → ℕ → ℕ → Bytes → Request
  disconnected error : Option Bytes → Request
  text : TextKind → Option Bytes → Request
  native cursor_null cursor_default : Request

abbrev pub strlen : Option Bytes → ℤ
strlen none = pos 0
strlen (some b) = pos (length b)

abbrev pub send_kind : TextKind → Option Bytes → ℤ → Output → Option Output
send_kind clipboard_text = output_send_clipboard_text
send_kind file_list = output_send_clipboard_file_list
send_kind file_done = output_send_clipboard_file_done
send_kind file_error = output_send_clipboard_file_error
send_kind file_progress = output_send_clipboard_file_progress

-- The calls as the program makes them: a text with its length, pixels with theirs.
unfoldable pub perform : Request → Output → Option Output
perform (connected w h) = output_send_connected w h
perform (resized w h) = output_send_resized w h
perform (bitmap x y w h px) = output_send_bitmap x y w h (some px) (length px)
perform (cursor x y w h px) = output_send_cursor x y w h (some px) (length px)
perform (disconnected e) = output_send_disconnected e
perform (error m) = output_send_error m
perform (text k t) = send_kind k t (strlen t)
perform native = output_send_clipboard_native
perform cursor_null = output_send_cursor_null
perform cursor_default = output_send_cursor_default

unfoldable pub perform_all : List Request → Output → Option Output
perform_all [] o = some o
perform_all (r ∷ rs) o = do o' ← perform r o; perform_all rs o'

abbrev pub kind_of : TextKind → ℕ
kind_of clipboard_text = msg_clipboard_text
kind_of file_list = msg_clipboard_file_list
kind_of file_done = msg_clipboard_file_done
kind_of file_error = msg_clipboard_file_error
kind_of file_progress = msg_clipboard_file_progress

abbrev pub text_messages : ℕ → Option Bytes → List Message
text_messages k none = []
text_messages k (some []) = []
text_messages k (some (c ∷ t)) = record { kind = k; payload = c ∷ t } ∷ []

abbrev pub cursor_messages : Bytes → Bytes → List Message
cursor_messages sub [] = []
cursor_messages sub (c ∷ px) = record { kind = 0x0B; payload = sub ++ (c ∷ px) } ∷ []

-- What each call stands for, by the table of output.h: at most one message.
abbrev pub messages : Request → List Message
messages (connected w h) = record { kind = 0x01; payload = dimensions_json w h } ∷ []
messages (resized w h) = record { kind = 0x04; payload = dimensions_json w h } ∷ []
messages (bitmap x y w h px) = record { kind = 0x02; payload = sub_header x y w h ++ px } ∷ []
messages (cursor x y w h px) = cursor_messages (sub_header x y w h) px
messages (disconnected e) = record { kind = 0x03; payload = disconnected_json e } ∷ []
messages (error m) = record { kind = 0xFF; payload = error_json m } ∷ []
messages (text k t) = text_messages (kind_of k) t
messages native = record { kind = 0x0A; payload = codes "{}" } ∷ []
messages cursor_null = record { kind = 0x0C; payload = [] } ∷ []
messages cursor_default = record { kind = 0x0D; payload = [] } ∷ []

abbrev pub all_messages : List Request → List Message
all_messages [] = []
all_messages (r ∷ rs) = messages r ++ all_messages rs

abbrev pub Shorter : ℕ → Option Bytes → Type 0
Shorter n none = Unit
Shorter n (some b) = length b < n

-- The texts fit the senders' stack buffers, and the lengths their 32-bit fields.
abbrev pub Fits : Request → Type 0
Fits (bitmap x y w h px) = 8 + length px < 4294967296
Fits (cursor x y w h px) = 8 + length px < 4294967296
Fits (disconnected e) = Shorter 1012 e
Fits (error m) = Shorter 2034 m
Fits (text k t) = Shorter 2147483648 t
Fits _ = Unit

-- The two working states of the module, with what was sent so far.
abbrev pub on_pipe : Bytes → List Call → Output
on_pipe out calls = record {
  initialized = true;
  binary_out = some out;
  callback = false;
  user_data = 0;
  calls = calls;
}

abbrev pub on_callback : ℕ → List Call → Output
on_callback user_data calls = record {
  initialized = true;
  binary_out = none;
  callback = true;
  user_data = user_data;
  calls = calls;
}

-- The message that an invocation of the callback carries.
abbrev pub message_of : Call → Message
message_of c = record { kind = c.kind; payload = c.part_a ++ c.part_b }
