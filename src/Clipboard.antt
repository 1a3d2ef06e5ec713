-- ===== src/Clipboard.antt =====
-- native/freerdp-helper/src/cliprdr.c on a build that is not for Windows: the clipboard channel, whose
-- text it keeps itself and whose files are those of cliprdr_file.c. The static variables are one record,
-- with the state of cliprdr_file.c and of output.c, which the code reaches by calls. What runs in one
-- critical section is one step. A callback gives its return value with the new state.
pub mod Data
pub mod Steps
pub mod Counts
pub mod Answers
pub mod Responses
pub mod Exchange
pub mod Announce
pub mod Pending
mod Runs
use rdp_mcp.Prelude.{
  ℕ, zero, suc, ◌+◌, ◌-◌, ◌*◌, ◌%◌, ◌/◌, Bool, true, false, not, ◌&&◌, ◌||◌, Option, none, some,
  List, [], ◌∷◌, ◌++◌, Bytes, length, take, map, ltb, leb, ◌==◌, same_text, if◌then◌else◌, ◌>>=◌, ℤ,
  pos, pos_part, leb_ℤ, signed32, codes,
}
use rdp_mcp.Files.{Files, Descriptor, LocalDescriptor, LocalFileEntry}
use rdp_mcp.Files.Channel.{
  cliprdr_file_channel_connected, cliprdr_file_channel_disconnected, cliprdr_file_get_fgd_format_id,
  cliprdr_file_set_fgd_format_id, cliprdr_file_server_has_files, cliprdr_file_handle_fgd_response,
}
use rdp_mcp.Files.Local.{
  cliprdr_file_has_local_files, cliprdr_file_clear_local_files, cliprdr_file_handle_fgd_request,
}
use rdp_mcp.Output.{Output, le16, read_buffer, is_null, output_send_clipboard_text}
use rdp_mcp.Output.Frame.{from_le16}

abbrev pub cf_text : ℕ
cf_text = 1

abbrev pub cf_unicodetext : ℕ
cf_unicodetext = 13

abbrev pub channel_rc_ok : ℕ
channel_rc_ok = 0

-- CB_USE_LONG_FORMAT_NAMES and the four flags of cliprdr_file_get_capability_flags, as MS-RDPECLIP
-- numbers them.
abbrev pub general_flags : ℕ
general_flags = 0x02 + (0x04 + 0x08 + 0x10 + 0x20)

abbrev pub format_list_min_interval_ms : ℕ
format_list_min_interval_ms = 1000

abbrev pub reject_backoff_ms : ℕ
reject_backoff_ms = 3000

abbrev pub file_group_descriptor : Bytes
file_group_descriptor = codes "FileGroupDescriptorW"

-- What the code sends on the channel; `at` is the tick that it keeps of a format list, and a data
-- response without data is CB_RESPONSE_FAIL.
pub data Pdu : Type 0 where
  client_capabilities : ℕ → Pdu
  client_format_list : (at id : ℕ) → Option Bytes → Pdu
  client_format_list_response : Pdu
  client_format_data_request : ℕ → Pdu
  client_format_data_response : Option Bytes → Pdu

-- `cliprdr` is the channel's context; `sent` is newest first.
pub record Clipboard : Type 0 where
  pub cliprdr : Option ℕ
  pub ready : Bool
  pub client_text : Option Bytes
  pub client_text_len : ℕ
  pub pending_fgd : Bool
  pub last_format_list_ms : ℕ
  pub last_reject_ms : ℕ
  pub format_list_rejected : Bool
  pub files : Files
  pub output : Output
  pub sent : List Pdu

-- What a call meets: GetTickCount64 at its first and at its last use, whether `malloc` succeeds, and
-- what the channel's functions return.
pub record Env : Type 0 where
  pub now : ℕ
  pub after : ℕ
  pub allocates : Bool
  pub returns : Pdu → ℕ

-- WinPR: the conversions of text, `none` for NULL, and the two of file lists.
pub record Library : Type 0 where
  pub utf8_to_wide : Bytes → Option (List ℕ)
  pub wide_to_utf8 : List ℕ → Option Bytes
  pub parse_file_list : Bytes → List Descriptor
  pub serialize_file_list : List LocalDescriptor → Option Bytes

abbrev pub send : Env → Pdu → Clipboard → Clipboard × ℕ
send e p s = (record s { sent = p ∷ s.sent }, e.returns p)

-- `now - then` of UINT64.
abbrev pub since : ℕ → ℕ → ℕ
since now past = (now + 18446744073709551616 - past) % 18446744073709551616

-- The backoff after a rejection, and the rate limit.
abbrev pub held_back : Env → Clipboard → Bool
held_back e s =
    (s.format_list_rejected && ltb (since e.now s.last_reject_ms) reject_backoff_ms)
    || (ltb 0 s.last_format_list_ms
        && ltb (since e.now s.last_format_list_ms) format_list_min_interval_ms)

-- The id that the code takes for FileGroupDescriptorW.
abbrev pub fgd_id : Clipboard → ℕ
fgd_id s = let id = cliprdr_file_get_fgd_format_id s.files in if id == 0 then 0xC0BC else id

unfoldable pub announce : Env → Clipboard → Clipboard × ℕ
announce e s =
    let stamped = record s { last_format_list_ms = e.after; format_list_rejected = false } in
    if cliprdr_file_has_local_files s.files
    then send e (client_format_list e.after (fgd_id s) (some file_group_descriptor))
        (record stamped { files = cliprdr_file_set_fgd_format_id (fgd_id s) s.files })
    else send e (client_format_list e.after cf_unicodetext none) stamped

unfoldable pub send_format_list_locked : Bool → Env → Clipboard → Clipboard × ℕ
unfolding announce
send_format_list_locked bypass_limits e s = elim s.cliprdr [
  | none ↦ (s, channel_rc_ok)
  | some c ↦ if not bypass_limits && held_back e s then (s, channel_rc_ok) else announce e s
]

abbrev pub handshake : Clipboard → Clipboard
handshake s = record s {
  ready = true;
  client_text = none;
  client_text_len = 0;
  format_list_rejected = false;
  last_format_list_ms = 0;
  pending_fgd = false;
}

-- The part of cb_monitor_ready in its critical section.
unfoldable pub complete_handshake : Env → Clipboard → Clipboard
unfolding send_format_list_locked
complete_handshake e s = (send_format_list_locked true e (handshake s)).0

unfoldable pub cb_monitor_ready : Env → Clipboard → Clipboard × ℕ
unfolding complete_handshake
cb_monitor_ready e s =
    let (told, ret) = send e (client_capabilities general_flags) s in
    if not (ret == channel_rc_ok) then (told, ret) else (complete_handshake e told, channel_rc_ok)

unfoldable pub cb_server_capabilities : Clipboard → Clipboard × ℕ
cb_server_capabilities s = (s, channel_rc_ok)

-- A format of the server's list: its id, and its name if it has one.
abbrev pub Format : Type 0
Format = ℕ × Option Bytes

-- What the loop finds, from the values so far: text of either kind, and the last
-- FileGroupDescriptorW.
pub record Offer : Type 0 where
  pub has_unicode : Bool
  pub has_text : Bool
  pub fgd_format_id : ℕ

abbrev is_fgd : Option Bytes → Bool
is_fgd none = false
is_fgd (some name) = same_text name file_group_descriptor

unfoldable pub scan_formats : List Format → Offer → Offer
scan_formats [] o = o
scan_formats ((id, name) ∷ formats) o = scan_formats formats (
    if id == cf_unicodetext
    then record o { has_unicode = true }
    else if id == cf_text
    then record o { has_text = true }
    else if is_fgd name
    then record o { fgd_format_id = id }
    else o)

abbrev pub no_offer : Offer
no_offer = record { has_unicode = false; has_text = false; fgd_format_id = 0 }

-- Files come before text.
unfoldable pub request_offer : Env → Offer → Clipboard → Clipboard
request_offer e o s =
    if not (o.fgd_format_id == 0)
    then record s {
      pending_fgd = true;
      files =
          cliprdr_file_server_has_files
            (e.returns (client_format_data_request o.fgd_format_id) == channel_rc_ok)
            o.fgd_format_id s.files;
    }
    else if o.has_unicode || o.has_text
    then (send e (client_format_data_request (if o.has_unicode then cf_unicodetext else cf_text))
        s).0
    else s

unfoldable pub cb_server_format_list : Env → List Format → Clipboard → Clipboard × ℕ
unfolding scan_formats request_offer
cb_server_format_list e formats s =
    let (told, ret) =
      send e client_format_list_response (record s { format_list_rejected = false }) in
    if not (ret == channel_rc_ok)
    then (told, ret)
    else (request_offer e (scan_formats formats no_offer) told, channel_rc_ok)

-- `ok` says that the flags are CB_RESPONSE_OK.
unfoldable pub cb_server_format_list_response : Env → Bool → Clipboard → Clipboard × ℕ
cb_server_format_list_response e ok s = (
  if ok then s else record s { format_list_rejected = true; last_reject_ms = e.now },
  channel_rc_ok,
)
