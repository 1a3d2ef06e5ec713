-- ===== src/MessageType.antt =====
-- native/freerdp-helper/src/output.h: the types of the messages to the embedding program.
use rdp_mcp.Prelude.{ℕ}

-- `msg_connected` and its neighbours are the MSG_TYPE constants.
abbrev pub msg_connected : ℕ
msg_connected = 0x01

abbrev pub msg_bitmap_update : ℕ
msg_bitmap_update = 0x02

abbrev pub msg_disconnected : ℕ
msg_disconnected = 0x03

abbrev pub msg_resized : ℕ
msg_resized = 0x04

abbrev pub msg_clipboard_text : ℕ
msg_clipboard_text = 0x05

abbrev pub msg_clipboard_file_list : ℕ
msg_clipboard_file_list = 0x06

abbrev pub msg_clipboard_file_done : ℕ
msg_clipboard_file_done = 0x07

abbrev pub msg_clipboard_file_error : ℕ
msg_clipboard_file_error = 0x08

abbrev pub msg_clipboard_file_progress : ℕ
msg_clipboard_file_progress = 0x09

abbrev pub msg_clipboard_native : ℕ
msg_clipboard_native = 0x0A

abbrev pub msg_cursor_set : ℕ
msg_cursor_set = 0x0B

abbrev pub msg_cursor_null : ℕ
msg_cursor_null = 0x0C

abbrev pub msg_cursor_default : ℕ
msg_cursor_default = 0x0D

abbrev pub msg_error : ℕ
msg_error = 0xFF
