-- ===== src/Clipboard/Steps.antt =====
-- native/freerdp-helper/src/cliprdr.c: its public functions, and sequences of calls.
use rdp_mcp.Prelude.{
  ℕ, Bool, true, false, not, ◌&&◌, ◌||◌, Option, none, some, List, [], ◌∷◌, Bytes, length, take,
  ltb, ◌==◌, same_text, if◌then◌else◌, ◌>>=◌, ℤ, pos, pos_part, leb_ℤ,
}
use rdp_mcp.Files.{Files, LocalDescriptor, LocalFileEntry}
use rdp_mcp.Files.Channel.{cliprdr_file_channel_connected, cliprdr_file_channel_disconnected}
use rdp_mcp.Files.Local.{cliprdr_file_has_local_files, cliprdr_file_clear_local_files}
use rdp_mcp.Output.{read_buffer, is_null}
use rdp_mcp.Clipboard.{
  Clipboard, Env, Library, Format, send_format_list_locked, cb_monitor_ready,
  cb_server_capabilities, cb_server_format_list, cb_server_format_list_response,
}
use rdp_mcp.Clipboard.Data.{cb_server_format_data_request, cb_server_format_data_response}

unfoldable pub cliprdr_init : Clipboard → Clipboard
cliprdr_init s = record s {
  cliprdr = none;
  ready = false;
  client_text = none;
  client_text_len = 0;
  last_format_list_ms = 0;
  last_reject_ms = 0;
  format_list_rejected = false;
  pending_fgd = false;
}

unfoldable pub cliprdr_channel_connected : ℕ → Clipboard → Clipboard
cliprdr_channel_connected c s = record s {
  cliprdr = some c;
  ready = false;
  pending_fgd = false;
  files = cliprdr_file_channel_connected c s.files;
}

unfoldable pub cliprdr_channel_disconnected : Clipboard → Clipboard
cliprdr_channel_disconnected s = record s {
  cliprdr = none;
  ready = false;
  pending_fgd = false;
  files = cliprdr_file_channel_disconnected s.files;
}

abbrev pub has_channel : Clipboard → Bool
has_channel s = elim s.cliprdr [ none ↦ false | some c ↦ true ]

unfoldable pub cliprdr_announce_files : Env → Clipboard → Clipboard
unfolding send_format_list_locked
cliprdr_announce_files e s =
    if has_channel s && s.ready && cliprdr_file_has_local_files s.files
    then (send_format_list_locked true e (record s { client_text = none; client_text_len = 0 })).0
    else s

-- The test for a text that is stored already.
abbrev pub same_stored : Bytes → ℕ → Option Bytes → Bool
same_stored text n none = false
same_stored text n (some t) = n == length text && same_text (take n t) text

abbrev pub is_stored : Bytes → Clipboard → Bool
is_stored text s = same_stored text s.client_text_len s.client_text

abbrev pub store_text : Bool → Bytes → Clipboard → Clipboard
store_text allocates text s =
    if allocates
    then record s { client_text = some text; client_text_len = length text }
    else record s { client_text = none; client_text_len = 0 }

unfoldable pub store_and_announce : Bool → Env → Bytes → Clipboard → Clipboard
unfolding send_format_list_locked
store_and_announce had_files e text s =
    let stored = store_text e.allocates text s in
    if has_channel stored && stored.ready && ltb 0 stored.client_text_len
    then (send_format_list_locked had_files e stored).0
    else stored

-- Staged files are dropped, and the text stored and announced unless it is stored already.
unfoldable pub replace_content : Env → Bytes → Clipboard → Clipboard
unfolding store_and_announce
replace_content e text s =
    let had_files = cliprdr_file_has_local_files s.files in
    let cleared = record s { files = cliprdr_file_clear_local_files s.files } in
    if not had_files && is_stored text cleared
    then cleared
    else store_and_announce had_files e text cleared

-- `none` is a read past the end of the text.
unfoldable pub cliprdr_set_text : Env → Option Bytes → ℤ → Clipboard → Option Clipboard
cliprdr_set_text e text n s =
    if is_null text || leb_ℤ n (pos 0)
    then some s
    else (do t ← read_buffer text (pos_part n); some (replace_content e t s))

-- The calls of the embedding program and of FreeRDP; `stage` is what cliprdr_file_set_local_files
-- leaves behind.
pub data Event : Type 0 where
  init disconnected server_capabilities : Event
  connected : ℕ → Event
  monitor_ready announce_files : Env → Event
  format_list : Env → List Format → Event
  format_list_response : Env → Bool → Event
  server_data_request : Env → ℕ → Event
  server_data_response : Bool → Bytes → Event
  set_text : Env → Option Bytes → ℤ → Event
  stage : List LocalFileEntry → List LocalDescriptor → Event

abbrev pub stage_files : List LocalFileEntry → List LocalDescriptor → Files → Files
stage_files fs ds f = record f { local_allocated = true; local_files = fs; local_descriptors = ds }

unfoldable pub step : Library → Event → Clipboard → Option Clipboard
step lib init s = some (cliprdr_init s)
step lib disconnected s = some (cliprdr_channel_disconnected s)
step lib server_capabilities s = some (cb_server_capabilities s).0
step lib (connected c) s = some (cliprdr_channel_connected c s)
step lib (monitor_ready e) s = some (cb_monitor_ready e s).0
step lib (announce_files e) s = some (cliprdr_announce_files e s)
step lib (format_list e fs) s = some (cb_server_format_list e fs s).0
step lib (format_list_response e ok) s = some (cb_server_format_list_response e ok s).0
step lib (server_data_request e id) s = some (cb_server_format_data_request lib e id s).0
step lib (server_data_response ok bytes) s = cb_server_format_data_response lib ok bytes s
step lib (set_text e text n) s = cliprdr_set_text e text n s
step lib (stage fs ds) s = some (record s { files = stage_files fs ds s.files })

unfoldable pub run : Library → List Event → Clipboard → Option Clipboard
run lib [] s = some s
run lib (e ∷ es) s = do s' ← step lib e s; run lib es s'
