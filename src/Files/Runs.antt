-- ===== src/Files/Runs.antt =====
-- Runs of cliprdr_file.c, and the theorems about it at these runs.
use rdp_mcp.Prelude.{
  ◌⊎◌, ◌≤◌, ◌↔◌, ℕ, ◌≡◌, refl, true, false, Option, none, some, List, [], ◌∷◌, All, Bytes, codes,
  get_elem?, map, arith, ◌≢◌,
}
use rdp_mcp.Files.{
  contents_range, upload_progress, free_local_files, Files, DownloadEntry, LocalFileEntry,
  ContentsRequest, Wanted, contents_request, send_file_contents_request,
}
use rdp_mcp.Files.Name.{normalize_path_separators, sanitize_filename}
use rdp_mcp.Files.Name.Components.{components, begins_with_sep, sanitize_filename-safe}
use rdp_mcp.Files.Download.{
  start_next_download, download_loop, download_round, size_round, range_round, finish_downloads,
  cliprdr_file_request_download, new_entries,
}
use rdp_mcp.Files.Responses.{
  Env, Response, entry_response, size_response, range_response, range_data, find_stream,
  cb_server_file_contents_response,
}
use rdp_mcp.Files.Download.Stall.{first_request-stalls}
use rdp_mcp.Files.Channel.{
  Event, server_has_files, fgd_response, request_download, contents_response, run, step,
  cliprdr_file_server_has_files, cliprdr_file_handle_fgd_response,
}
use rdp_mcp.Files.Channel.Locks.{held}
use rdp_mcp.Files.Channel.Streams.{InRange, run-InRange}
use rdp_mcp.Samples.{echo_json, connected_files}
use rdp_mcp.Files.Download.Fuel.{download_loop-fuel}
use rdp_mcp.Files.Local.Staging
use rdp_mcp.Files.Local.Staging.{WireName, Staged, describe_lem, local_step-Staged}
use rdp_mcp.Files.Local.{
  describe, Disk, FileRequest, cb_server_file_contents_request, serve_entry, serve_range,
  count_served,
}
use rdp_mcp.Files.Local.Bounds.{expected_answer, Reenters, contents_request-cases}

abbrev answers : Env
answers = record { opens = true; written = 2; accepts = λ i. true }

-- The server offers one file of two bytes, and it is downloaded.
abbrev one_download : List Event
one_download =
    server_has_files true 49200
    ∷ fgd_response
        (record { name = some (codes "a"); is_directory = false; size_high = 0; size_low = 2 } ∷ [])
    ∷ request_download (λ i. true) (some (codes "tmp"))
    ∷ contents_response answers (record {
      stream_id = 1;
      ok = true;
      data_bytes = some (2 ∷ 0 ∷ 0 ∷ 0 ∷ 0 ∷ 0 ∷ 0 ∷ 0 ∷ []);
      cb_requested = 8;
    })
    ∷ contents_response answers
        (record { stream_id = 2; ok = true; data_bytes = some (7 ∷ 8 ∷ []); cb_requested = 2 })
    ∷ []

downloaded :
    (run one_download connected_files).downloading ≡ false
    × (held (run one_download connected_files).effects ≡ [])
unfolding run step cliprdr_file_server_has_files cliprdr_file_handle_fgd_response
    cliprdr_file_request_download cb_server_file_contents_response start_next_download download_loop
    download_round size_round range_round send_file_contents_request entry_response size_response
    range_response range_data find_stream finish_downloads new_entries
downloaded = (refl, refl)

run-InRange_example : All InRange (run one_download connected_files).effects
run-InRange_example = run-InRange one_download connected_files (omega arith, omega arith) tt

sanitize_filename-safe_example :
    let safe = sanitize_filename (normalize_path_separators (codes "..\\..\\b")) in
    (begins_with_sep safe ≡ false) × All (λ w. w ≢ codes "..") (components safe)
sanitize_filename-safe_example = sanitize_filename-safe (codes "..\\..\\b")

-- A download of a file of 4 GiB of which nothing has arrived.
abbrev huge : DownloadEntry
huge = record {
  file_index = 0;
  stream_id = 1;
  total_size = 4294967296;
  bytes_received = 0;
  fp = true;
  temp_path = some (codes "t/a");
  size_received = true;
  complete = false;
}

abbrev huge_download : Files
huge_download = record connected_files {
  downloads = huge ∷ [];
  downloading = true;
  next_stream_id = 2;
}

abbrev no_bytes : Response
no_bytes = record { stream_id = 2; ok = true; data_bytes = some []; cb_requested = 0 }

first_request-stalls_example :
    let t = start_next_download (λ i. true) huge_download in
    ((q : ContentsRequest) × (t.effects ≡ contents_request q ∷ [])
      × (q.flags ≡ Wanted.range)
      × (q.list_index ≡ 0)
      × (q.cb_requested ≡ 0))
    × (entry_response answers no_bytes 0 huge t ≡ t)
first_request-stalls_example =
    first_request-stalls (λ i. true) 1 huge huge_download answers no_bytes refl
      (record { current = refl; file = refl; open_entry = refl; sized = refl }) (omega arith)
      (omega arith) (omega arith) refl refl

abbrev staged_file : LocalFileEntry
staged_file = record {
  path = codes "/a";
  name = codes "a";
  size = 3;
  is_directory = false;
  bytes_served = 0;
}

abbrev staged : Files
staged = record connected_files { local_allocated = true; local_files = staged_file ∷ [] }

abbrev disk : Disk
disk = record {
  stat_size = λ p. some 3;
  opens = λ p. true;
  seeks = true;
  allocates = true;
  read = λ p o n. 1 ∷ 2 ∷ 3 ∷ [];
}

abbrev ask : ℕ → FileRequest
ask i = record {
  stream_id = 9;
  list_index = i;
  wants_size = true;
  wants_range = false;
  position_high = 0;
  position_low = 0;
  cb_requested = 8;
}

abbrev to_wide : Bytes → Option (List ℕ)
to_wide name = some name

-- A file with its descriptor, and a request for its first bytes.
abbrev offered : Files
offered = record staged { local_descriptors = map (describe to_wide) (staged_file ∷ []) }

abbrev ask_bytes : FileRequest
ask_bytes = record (ask 0) { wants_size = false; wants_range = true }

-- The files after the request is served.
abbrev served : Files
served = record offered {
  local_files = record staged_file { bytes_served = 3 } ∷ [];
  effects = contents_range 9 (1 ∷ 2 ∷ 3 ∷ []) ∷ upload_progress 0 3 3 1 ∷ offered.effects;
}

serve_offered : cb_server_file_contents_request (λ s. s) disk ask_bytes offered ≡ some served
unfolding cb_server_file_contents_request serve_entry serve_range count_served
serve_offered = refl

local_step-Staged_example : Staged to_wide served
local_step-Staged_example =
    local_step-Staged echo_json to_wide (Staging.LocalEvent.contents_request [] disk ask_bytes)
      offered served serve_offered (omega arith, refl)

download_loop-fuel_example :
    download_loop 7 (λ i. true) huge_download ≡ start_next_download (λ i. true) huge_download
download_loop-fuel_example = download_loop-fuel 7 (λ i. true) huge_download (omega arith)

-- The files are cleared while the first bytes of one are read.
contents_request-cases_example :
    (cb_server_file_contents_request free_local_files disk ask_bytes staged
      ≡ expected_answer free_local_files disk ask_bytes staged)
    × ((cb_server_file_contents_request free_local_files disk ask_bytes staged ≡ none) ↔ (
        ((2147483648 ≤ 0) × (true ≡ true))
        ⊎ ((f : LocalFileEntry) × (get_elem? staged.local_files 0 ≡ some f)
            × Reenters free_local_files disk ask_bytes f.path staged)))
contents_request-cases_example =
    contents_request-cases free_local_files disk ask_bytes staged (omega arith) refl (omega arith)

cleared_meanwhile : cb_server_file_contents_request free_local_files disk ask_bytes staged ≡ none
unfolding cb_server_file_contents_request serve_entry serve_range count_served
cleared_meanwhile = refl
