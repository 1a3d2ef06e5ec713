-- ===== src/Files/Channel.antt =====
-- native/freerdp-helper/src/cliprdr_file.c: the life of the channel, the locks on clipboard data, and
-- the list of files that the server offers. What runs in one critical section is one step.
pub mod Locks
pub mod Streams
use rdp_mcp.Prelude.{
  ℕ, ◌+◌, ◌*◌, ◌%◌, Bool, true, false, Option, none, some, List, [], ◌∷◌, Bytes, ◌==◌,
  if◌then◌else◌,
}
use rdp_mcp.Files.{
  Files, Descriptor, Effect, lock_clip_data, unlock_clip_data, data_request, file_list, emit,
  free_local_files, free_server_files, free_downloads,
}
use rdp_mcp.Files.Name.{normalize_path_separators}
use rdp_mcp.Files.Download.{cliprdr_file_request_download}
use rdp_mcp.Files.Responses.{Env, Response, cb_server_file_contents_response}

unfoldable pub cb_server_lock_clipboard_data : ℕ → Files → Files
cb_server_lock_clipboard_data id s = record s { server_lock_id = id; server_has_lock = true }

unfoldable pub cb_server_unlock_clipboard_data : ℕ → Files → Files
cb_server_unlock_clipboard_data id s =
    if s.server_lock_id == id then record s { server_has_lock = false } else s

unfoldable pub cliprdr_file_init : Files → Files
cliprdr_file_init s = record (free_local_files (free_downloads (free_server_files s))) {
  cliprdr = none;
  fgd_format_id = 0;
  pending_fgd_request = false;
  server_has_lock = false;
  server_lock_id = 0;
  our_lock_active = false;
  our_lock_id = 0;
  next_lock_id = 100;
  next_stream_id = 1;
}

unfoldable pub cliprdr_file_cleanup : Files → Files
cliprdr_file_cleanup s = record (free_local_files (free_downloads (free_server_files s))) {
  cliprdr = none;
}

unfoldable pub cliprdr_file_channel_connected : ℕ → Files → Files
cliprdr_file_channel_connected c s = record s { cliprdr = some c }

unfoldable pub cliprdr_file_channel_disconnected : Files → Files
cliprdr_file_channel_disconnected s =
    free_downloads (record s { cliprdr = none; our_lock_active = false })

unfoldable pub cliprdr_file_get_fgd_format_id : Files → ℕ
cliprdr_file_get_fgd_format_id s = s.fgd_format_id

unfoldable pub cliprdr_file_set_fgd_format_id : ℕ → Files → Files
cliprdr_file_set_fgd_format_id id s = record s { fgd_format_id = id }

-- The state is changed first; the unlock of the old data, the lock of the new and the request go out
-- behind it. `accepted` says that ClientFormatDataRequest succeeds.
unfoldable pub cliprdr_file_server_has_files : Bool → ℕ → Files → Files
cliprdr_file_server_has_files accepted id s =
    let fresh = record (free_server_files (free_downloads s)) {
      fgd_format_id = id;
      pending_fgd_request = true;
      our_lock_id = s.next_lock_id;
      our_lock_active = true;
      next_lock_id = (s.next_lock_id + 1) % 4294967296;
    } in
    let unlocked =
      if s.our_lock_active then emit (unlock_clip_data s.our_lock_id) fresh else fresh in
    let asked = emit (data_request id) (emit (lock_clip_data s.next_lock_id) unlocked) in
    if accepted then asked else record asked { pending_fgd_request = false }

-- What the message says of each descriptor whose name converts.
unfoldable pub listing : List Descriptor → List (Bytes × ℕ × Bool)
listing [] = []
listing (f ∷ fs) = elim f.name [
  | none ↦ listing fs
  | some n ↦
      (normalize_path_separators n, f.size_high * 4294967296 + f.size_low, f.is_directory)
      ∷ listing fs
]

-- `parsed` is the answer of cliprdr_parse_file_list, [] for its failure.
unfoldable pub cliprdr_file_handle_fgd_response : List Descriptor → Files → Files
unfolding listing
cliprdr_file_handle_fgd_response [] s = free_server_files (record s { pending_fgd_request = false })
cliprdr_file_handle_fgd_response (f ∷ fs) s =
    emit (file_list (listing (f ∷ fs)))
      (record s { pending_fgd_request = false; server_descriptors = f ∷ fs })

-- What happens to the remote side's files while one channel is connected.
pub data Event : Type 0 where
  server_has_files : Bool → ℕ → Event
  fgd_response : List Descriptor → Event
  request_download : (ℕ → Bool) → Option Bytes → Event
  contents_response : Env → Response → Event
  server_lock server_unlock : ℕ → Event

unfoldable pub step : Event → Files → Files
step (server_has_files accepted id) s = cliprdr_file_server_has_files accepted id s
step (fgd_response fs) s = cliprdr_file_handle_fgd_response fs s
step (request_download accepts dir) s = cliprdr_file_request_download accepts dir s
step (contents_response e r) s = cb_server_file_contents_response e r s
step (server_lock id) s = cb_server_lock_clipboard_data id s
step (server_unlock id) s = cb_server_unlock_clipboard_data id s

unfoldable pub run : List Event → Files → Files
run [] s = s
run (e ∷ es) s = run es (step e s)
