-- ===== src/Clipboard/Data.antt =====
-- native/freerdp-helper/src/cliprdr.c: the callbacks that carry clipboard data.
use rdp_mcp.Prelude.{
  ℕ, ◌+◌, ◌*◌, ◌%◌, Bool, true, false, not, ◌&&◌, Option, none, some, List, [], ◌∷◌, ◌++◌, Bytes,
  length, take, ◌==◌, if◌then◌else◌, ◌>>=◌, signed32,
}
use rdp_mcp.Files.Channel.{cliprdr_file_get_fgd_format_id, cliprdr_file_handle_fgd_response}
use rdp_mcp.Files.Local.{cliprdr_file_has_local_files, cliprdr_file_handle_fgd_request}
use rdp_mcp.Output.{le16, output_send_clipboard_text}
use rdp_mcp.Output.Frame.{from_le16}
use rdp_mcp.Clipboard.{Clipboard, Env, Library, client_format_data_response, send, cf_unicodetext}

-- WCHARs in memory, lowest byte first.
abbrev pub wide_bytes : List ℕ → Bytes
wide_bytes [] = []
wide_bytes (c ∷ w) = le16 c ++ wide_bytes w

abbrev pub from_wide_bytes : Bytes → List ℕ
from_wide_bytes (a ∷ b ∷ bytes) = from_le16 a b ∷ from_wide_bytes bytes
from_wide_bytes _ = []

-- `text_response`'s data: the units with the terminator that WinPR puts behind them, as far as the
-- 32-bit `dataLen` goes. `none` is the failure.
unfoldable pub text_response : Library → Clipboard → Option Bytes
text_response lib s = elim s.client_text [
  | none ↦ none
  | some t ↦
      if s.client_text_len == 0 then none else elim (lib.utf8_to_wide (take s.client_text_len t)) [
        | none ↦ none
        | some [] ↦ none
        | some (c ∷ w) ↦
            some (take ((length (c ∷ w) + 1) * 2 % 4294967296) (wide_bytes ((c ∷ w) ++ (0 ∷ []))))
      ]
]

-- What cliprdr_file_handle_fgd_request sends, whose return value is that of the sending.
abbrev pub fgd_response : Library → Clipboard → Option Bytes
fgd_response lib s =
    if cliprdr_file_has_local_files s.files
    then lib.serialize_file_list s.files.local_descriptors
    else none

unfoldable pub cb_server_format_data_request : Library → Env → ℕ → Clipboard → Clipboard × ℕ
unfolding text_response
cb_server_format_data_request lib e id s =
    let fgd = cliprdr_file_get_fgd_format_id s.files in
    if not (fgd == 0) && id == fgd
    then (
      record s { files = cliprdr_file_handle_fgd_request lib.serialize_file_list s.files },
      e.returns (client_format_data_response (fgd_response lib s)),
    )
    else send e
        (client_format_data_response (if id == cf_unicodetext then text_response lib s else none)) s

-- `if (wchar_count > 0 && wstr[wchar_count - 1] == 0) wchar_count--;`
abbrev pub strip_terminator : List ℕ → List ℕ
strip_terminator [] = []
strip_terminator (c ∷ []) = if c == 0 then [] else c ∷ []
strip_terminator (c ∷ d ∷ w) = c ∷ strip_terminator (d ∷ w)

-- The text of the units that are left, if there are any and they convert.
abbrev pub converted : Library → List ℕ → Option Bytes
converted lib [] = none
converted lib (c ∷ w) = elim (lib.wide_to_utf8 (c ∷ w)) [
  | none ↦ none
  | some [] ↦ none
  | some (b ∷ t) ↦ some (b ∷ t)
]

abbrev pub received_text : Library → Bytes → Option Bytes
received_text lib bytes = converted lib (strip_terminator (from_wide_bytes bytes))

abbrev pub deliver : Option Bytes → Clipboard → Option Clipboard
deliver none s = some s
deliver (some t) s = do
  o ← output_send_clipboard_text (some t) (signed32 (length t % 4294967296)) s.output
  some (record s { output = o })

-- `none` is a read outside the text. It returns CHANNEL_RC_OK on every path; [] is a response
-- without data.
unfoldable pub cb_server_format_data_response :
    Library → Bool → Bytes → Clipboard → Option Clipboard
cb_server_format_data_response lib false bytes s = some (record s { pending_fgd = false })
cb_server_format_data_response lib true [] s = some s
cb_server_format_data_response lib true (b ∷ bytes) s =
    let taken = record s { pending_fgd = false } in
    if s.pending_fgd
    then some (record taken {
      files = cliprdr_file_handle_fgd_response (lib.parse_file_list (b ∷ bytes)) s.files;
    })
    else deliver (received_text lib (b ∷ bytes)) taken
