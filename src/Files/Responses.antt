-- ===== src/Files/Responses.antt =====
-- native/freerdp-helper/src/cliprdr_file.c: the handler of the server's responses to requests for
-- contents, which carries a download on.
use rdp_mcp.Prelude.{
  ℕ, suc, ◌+◌, ◌*◌, ◌%◌, Bool, true, false, not, ◌&&◌, Option, none, some, List, [], ◌∷◌, Bytes,
  length, take, ltb, leb, ◌==◌, if◌then◌else◌,
}
use rdp_mcp.Files.{
  Files, DownloadEntry, Wanted, make_parents, create_file, write_file, close_file, file_done,
  file_error, download_progress, emit, put_entry, send_file_contents_request,
}
use rdp_mcp.Files.Download.{display_name, next_chunk, next_entry, start_next_download}

-- A response: whether CB_RESPONSE_OK is set, `requestedData` and `cbRequested`.
pub record Response : Type 0 where
  pub stream_id : ℕ
  pub ok : Bool
  pub data_bytes : Option Bytes
  pub cb_requested : ℕ

-- The answers of the C library and of FreeRDP: whether `fopen` succeeds, how much `fwrite` writes,
-- and which requests are accepted.
pub record Env : Type 0 where
  pub opens : Bool
  pub written : ℕ
  pub accepts : ℕ → Bool

-- The index of the first entry with a stream id.
unfoldable pub find_stream : ℕ → ℕ → List DownloadEntry → Option (ℕ × DownloadEntry)
find_stream stream i [] = none
find_stream stream i (d ∷ ds) =
    let rest = find_stream stream (suc i) ds in if d.stream_id == stream then some (i, d) else rest

abbrev pub from_le : Bytes → ℕ
from_le [] = 0
from_le (b ∷ bs) = b + 256 * from_le bs

abbrev pub size_of : Response → ℕ
size_of r = elim r.data_bytes [
  | none ↦ 0
  | some bs ↦
      if leb 4 r.cb_requested
      then (if leb 8 r.cb_requested then from_le (take 8 bs) else from_le (take 4 bs))
      else 0
]

-- The server refused the file.
unfoldable pub refused : Env → ℕ → DownloadEntry → Files → Files
refused e i d s = start_next_download e.accepts (
    next_entry (
      emit (file_error d.file_index "Server returned failure")
        (put_entry i (record d { complete = true }) s)))

unfoldable pub size_response : Env → Response → ℕ → DownloadEntry → Files → Files
size_response e r i d s =
    let sized = record d { total_size = size_of r; size_received = true } in
    let prepared = emit (create_file d.temp_path) (emit (make_parents d.temp_path) s) in
    start_next_download e.accepts (
      if size_of r == 0
      then next_entry (
          emit (file_done d.file_index d.temp_path (display_name s d.file_index) 0)
            (put_entry i (record sized { complete = true }) prepared))
      else if e.opens
      then put_entry i (record sized { fp = true }) prepared
      else next_entry (
          emit (file_error d.file_index "Cannot open temp file")
            (put_entry i (record sized { complete = true }) prepared)))

unfoldable pub range_data : Env → Bytes → ℕ → DownloadEntry → Files → Files
range_data e bs i d s =
    let received = record d {
      bytes_received = (d.bytes_received + e.written) % 18446744073709551616;
    } in
    let wrote =
      emit
        (download_progress d.file_index received.bytes_received d.total_size (length s.downloads))
        (emit (write_file d.file_index (take e.written bs)) s) in
    if leb d.total_size received.bytes_received
    then start_next_download e.accepts (
        next_entry (
          emit (file_done d.file_index d.temp_path (display_name s d.file_index) d.total_size) (
            emit (close_file d.file_index)
              (put_entry i (record received { fp = false; complete = true }) wrote))))
    else (send_file_contents_request e.accepts d.file_index Wanted.range received.bytes_received
        (next_chunk received) (put_entry i received wrote)).0

unfoldable pub range_response : Env → Response → ℕ → DownloadEntry → Files → Files
range_response e r i d s = elim r.data_bytes [
  | none ↦ s
  | some bs ↦ if ltb 0 r.cb_requested && d.fp then range_data e bs i d s else s
]

unfoldable pub entry_response : Env → Response → ℕ → DownloadEntry → Files → Files
entry_response e r i d s =
    if not r.ok
    then refused e i d s
    else if not d.size_received
    then size_response e r i d s
    else range_response e r i d s

unfoldable pub cb_server_file_contents_response : Env → Response → Files → Files
unfolding find_stream
cb_server_file_contents_response e r s =
    if not s.downloading then s else elim (find_stream r.stream_id 0 s.downloads) [
      | none ↦ s
      | some (i, d) ↦ entry_response e r i d s
    ]
