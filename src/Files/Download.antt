-- ===== src/Files/Download.antt =====
-- native/freerdp-helper/src/cliprdr_file.c: downloads from the remote clipboard, one file after the
-- other, each by a request for its size and requests for its bytes. Responses.antt has the answers.
pub mod Rounds
pub mod Fuel
pub mod Stall
pub mod Exchange
pub mod Streams
pub mod Serving
pub mod Ranges
pub mod Served
pub mod Sizes
pub mod Sized
pub mod Opened
pub mod Whole
mod Runs
use rdp_mcp.Prelude.{
  ℕ, zero, suc, ◌+◌, ◌-◌, ◌*◌, ◌%◌, Bool, true, false, not, ◌&&◌, ◌||◌, Option, none, some, List,
  [], ◌∷◌, ◌++◌, Bytes, get_elem?, set, length, take, ltb, leb, ◌==◌, if◌then◌else◌, min,
}
use rdp_mcp.Files.{
  Files, Descriptor, DownloadEntry, Wanted, Effect, contents_request, lock_clip_data,
  unlock_clip_data, make_parents, make_directory, create_file, write_file, close_file, file_done,
  file_error, download_progress, emit, put_entry, free_downloads, send_file_contents_request,
  file_contents_chunk_size,
}
use rdp_mcp.Files.Name.{normalize_path_separators, download_path}

-- The entry's display name: the normalised name of its descriptor, if it has one.
abbrev pub display_name : Files → ℕ → Bytes
display_name s i = elim (get_elem? s.server_descriptors i) [
  | none ↦ []
  | some d ↦ elim d.name [ none ↦ [] | some n ↦ normalize_path_separators n ]
]

abbrev pub is_directory_at : Files → ℕ → Bool
is_directory_at s i = elim (get_elem? s.server_descriptors i) [
  | none ↦ false
  | some d ↦ d.is_directory
]

-- UINT64 `total_size - bytes_received`.
abbrev pub remaining : DownloadEntry → ℕ
remaining d = (d.total_size + 18446744073709551616 - d.bytes_received) % 18446744073709551616

abbrev pub at_most_chunk : ℕ → ℕ
at_most_chunk n = if ltb file_contents_chunk_size n then file_contents_chunk_size else n

-- The chunk of start_next_download: the difference is cast to UINT32 before it is compared.
abbrev pub first_chunk : DownloadEntry → ℕ
first_chunk d = at_most_chunk (remaining d % 4294967296)

-- The chunk of the response handler: the difference is compared first.
abbrev pub next_chunk : DownloadEntry → ℕ
next_chunk d = at_most_chunk (remaining d)

-- What a round of the loop does to its entry.
pub data Round : Type 0 where
  go_on stop : Files → Round

abbrev pub next_entry : Files → Files
next_entry s = record s { download_current = suc s.download_current }

unfoldable pub directory_round : DownloadEntry → Files → Files
directory_round d s =
    let i = s.download_current in
    let made = record s {
      downloads = set s.downloads i (record d { complete = true });
      effects =
          file_done d.file_index d.temp_path (display_name s i) 0
          ∷ make_directory d.temp_path
          ∷ make_parents d.temp_path
          ∷ s.effects;
    } in
    next_entry made

abbrev pub fail_entry : ℕ → Files → Files
fail_entry i s = elim (get_elem? s.downloads i) [
  | none ↦ s
  | some d ↦ put_entry i (record d { complete = true }) s
]

unfoldable pub size_round : (ℕ → Bool) → DownloadEntry → Files → Round
size_round accepts d s =
    let (asked, sent) = send_file_contents_request accepts d.file_index Wanted.size 0 8 s in
    if sent
    then stop asked
    else go_on (
        next_entry (
          emit (file_error d.file_index "Size request failed")
            (fail_entry s.download_current asked)))

unfoldable pub range_round : (ℕ → Bool) → DownloadEntry → Files → Files
range_round accepts d s =
    (send_file_contents_request accepts d.file_index Wanted.range d.bytes_received (first_chunk d)
      s).0

unfoldable pub download_round : (ℕ → Bool) → DownloadEntry → Files → Round
download_round accepts d s =
    if d.complete
    then go_on (next_entry s)
    else if is_directory_at s s.download_current
    then go_on (directory_round d s)
    else if not d.size_received
    then size_round accepts d s
    else stop (range_round accepts d s)

-- Behind the loop: all files are there, and the lock on the server's data is given back.
unfoldable pub finish_downloads : Files → Files
finish_downloads s =
    let done = record s { downloading = false } in
    if s.our_lock_active
    then elim s.cliprdr [
      | none ↦ done
      | some c ↦ emit (unlock_clip_data s.our_lock_id) (record done { our_lock_active = false })
    ]
    else done

-- Each round that goes on passes one entry, so as many rounds as there are entries are enough; the
-- loop is left at the first `none`, when `download_current` has reached the count.
unfoldable pub download_loop : ℕ → (ℕ → Bool) → Files → Files
download_loop zero accepts s = finish_downloads s
download_loop (suc fuel) accepts s = elim (get_elem? s.downloads s.download_current) [
  | none ↦ finish_downloads s
  | some d ↦ elim (download_round accepts d s) [
    | go_on s' ↦ download_loop fuel accepts s'
    | stop s' ↦ s'
  ]
]

unfoldable pub start_next_download : (ℕ → Bool) → Files → Files
unfolding download_loop
start_next_download accepts s = download_loop (length s.downloads - s.download_current) accepts s

abbrev pub entry_path : Bytes → Descriptor → Bytes
entry_path temp_dir f =
    download_path temp_dir
      (elim f.name [ none ↦ b'u' ∷ b'n' ∷ b'k' ∷ b'n' ∷ b'o' ∷ b'w' ∷ b'n' ∷ [] | some n ↦ n ])

-- The entries of a new download; the allocation of the paths succeeds.
unfoldable pub new_entries : Bytes → ℕ → List Descriptor → List DownloadEntry
new_entries temp_dir i [] = []
new_entries temp_dir i (f ∷ fs) =
    record {
      file_index = i;
      stream_id = 0;
      total_size = 0;
      bytes_received = 0;
      fp = false;
      temp_path = some (entry_path temp_dir f);
      size_received = false;
      complete = false;
    }
    ∷ new_entries temp_dir (suc i) fs

abbrev pub has_files : Files → Bool
has_files s = elim s.cliprdr [
  | none ↦ false
  | some c ↦ elim s.server_descriptors [ [] ↦ false | f ∷ fs ↦ true ]
]

unfoldable pub cliprdr_file_request_download : (ℕ → Bool) → Option Bytes → Files → Files
unfolding new_entries
cliprdr_file_request_download accepts none s = s
cliprdr_file_request_download accepts (some temp_dir) s =
    if has_files s
    then start_next_download accepts (record (free_downloads s) {
      download_temp_dir = some temp_dir;
      downloads = new_entries temp_dir 0 s.server_descriptors;
      downloading = true;
    })
    else s
