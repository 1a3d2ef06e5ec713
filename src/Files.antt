-- ===== src/Files.antt =====
-- native/freerdp-helper/src/cliprdr_file.c: files over the clipboard channel, on a build that is not
-- for Windows. The static variables are one record, and each function of the file a function on it.
-- What FreeRDP and the C library answer are arguments; what the code asks of them, and what it sends
-- to the embedding program, is logged in `effects`, newest first.
pub mod Name
pub mod Download
pub mod Responses
pub mod Channel
pub mod Local
mod Runs
use rdp_mcp.Prelude.{
  ℕ, suc, ◌+◌, ◌-◌, ◌%◌, ◌/◌, Bool, true, false, Option, none, some, List, [], ◌∷◌, Bytes,
  get_elem?, set, ltb, if◌then◌else◌, String,
}

abbrev pub file_contents_chunk_size : ℕ
file_contents_chunk_size = 262144

abbrev pub max_local_files : ℕ
max_local_files = 256

abbrev pub max_stream_id : ℕ
max_stream_id = 0x7FFFFFFF

-- What the code reads of a remote FILEDESCRIPTORW: its name in UTF-8, `none` if the conversion fails,
-- the directory bit of its attributes, and the two halves of its size.
pub record Descriptor : Type 0 where
  pub name : Option Bytes
  pub is_directory : Bool
  pub size_high : ℕ
  pub size_low : ℕ

pub record LocalFileEntry : Type 0 where
  pub path : Bytes
  pub name : Bytes
  pub size : ℕ
  pub is_directory : Bool
  pub bytes_served : ℕ

-- What the code writes to a local FILEDESCRIPTORW; `file_name` is `cFileName` up to its terminator.
pub record LocalDescriptor : Type 0 where
  pub is_directory : Bool
  pub size_high : ℕ
  pub size_low : ℕ
  pub file_name : List ℕ

-- `fp` says that the stream is open; `temp_path` is `none` if its allocation failed.
pub record DownloadEntry : Type 0 where
  pub file_index : ℕ
  pub stream_id : ℕ
  pub total_size : ℕ
  pub bytes_received : ℕ
  pub fp : Bool
  pub temp_path : Option Bytes
  pub size_received : Bool
  pub complete : Bool

-- FILECONTENTS_SIZE and FILECONTENTS_RANGE.
pub data Wanted : Type 0 where
  size range : Wanted

pub record ContentsRequest : Type 0 where
  pub stream_id : ℕ
  pub list_index : ℕ
  pub flags : Wanted
  pub offset : ℕ
  pub cb_requested : ℕ
  pub have_clip_data_id : Bool
  pub clip_data_id : ℕ

pub data Effect : Type 0 where
  -- PDUs on the channel
  contents_request : ContentsRequest → Effect
  lock_clip_data unlock_clip_data data_request : ℕ → Effect
  contents_failed : ℕ → Effect
  contents_size : ℕ → ℕ → Effect
  contents_range : ℕ → Bytes → Effect
  format_data_response : Option Bytes → Effect
  -- the file system
  make_parents make_directory : Option Bytes → Effect
  create_file : Option Bytes → Effect
  write_file : ℕ → Bytes → Effect
  close_file : ℕ → Effect
  -- messages to the embedding program
  file_done : ℕ → Option Bytes → Bytes → ℕ → Effect
  file_error : ℕ → String → Effect
  download_progress upload_progress : ℕ → ℕ → ℕ → ℕ → Effect
  file_list : List (Bytes × ℕ × Bool) → Effect

-- The arrays are lists, [] for NULL, and the counts their lengths; `local_allocated` says that
-- `s_local_files` is not NULL, as it may hold no entry then. `cliprdr` is the channel context.
pub record Files : Type 0 where
  pub cliprdr : Option ℕ
  pub fgd_format_id : ℕ
  pub pending_fgd_request : Bool
  pub server_descriptors : List Descriptor
  pub downloads : List DownloadEntry
  pub download_current : ℕ
  pub downloading : Bool
  pub download_temp_dir : Option Bytes
  pub next_stream_id : ℕ
  pub local_allocated : Bool
  pub local_files : List LocalFileEntry
  pub local_descriptors : List LocalDescriptor
  pub server_lock_id : ℕ
  pub server_has_lock : Bool
  pub our_lock_id : ℕ
  pub our_lock_active : Bool
  pub next_lock_id : ℕ
  pub effects : List Effect

abbrev pub emit : Effect → Files → Files
emit e s = record s { effects = e ∷ s.effects }

abbrev pub put_entry : ℕ → DownloadEntry → Files → Files
put_entry i d s = record s { downloads = set s.downloads i d }

abbrev pub free_local_files : Files → Files
free_local_files s = record s { local_allocated = false; local_files = []; local_descriptors = [] }

abbrev pub free_server_files : Files → Files
free_server_files s = record s { server_descriptors = [] }

-- Closing the streams of the entries is not logged.
abbrev pub free_downloads : Files → Files
free_downloads s = record s {
  downloads = [];
  download_current = 0;
  downloading = false;
  download_temp_dir = none;
}

-- `ERROR_INTERNAL_ERROR` and any other failure are `false`. `accepts` says for each stream id
-- whether ClientFileContentsRequest takes the request.
unfoldable pub send_file_contents_request : (ℕ → Bool) → ℕ → Wanted → ℕ → ℕ → Files → Files × Bool
send_file_contents_request accepts file_index flags offset cb s = elim s.cliprdr [
  | none ↦ (s, false)
  | some c ↦
      let stream_id = s.next_stream_id in
      let next = if ltb max_stream_id (stream_id + 1) then 1 else stream_id + 1 in
      let request : ContentsRequest = record {
        stream_id = stream_id;
        list_index = file_index;
        flags = flags;
        offset = offset;
        cb_requested = cb;
        have_clip_data_id = s.our_lock_active;
        clip_data_id = s.our_lock_id;
      } in
      let tracked : List DownloadEntry = elim (get_elem? s.downloads file_index) [
        | none ↦ s.downloads
        | some d ↦ set s.downloads file_index (record d { stream_id = stream_id })
      ] in
      (
        record s {
          next_stream_id = next;
          downloads = tracked;
          effects = contents_request request ∷ s.effects;
        },
        accepts stream_id,
      )
]
