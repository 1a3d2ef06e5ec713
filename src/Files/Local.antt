-- ===== src/Files/Local.antt =====
-- native/freerdp-helper/src/cliprdr_file.c: the local files that the remote side may ask for.
pub mod Staging
pub mod Bounds
use rdp_mcp.Prelude.{
  ℕ, zero, suc, ◌+◌, ◌-◌, ◌*◌, ◌%◌, ◌/◌, Bool, true, false, not, ◌&&◌, ◌||◌, Option, none, some,
  List, [], ◌∷◌, ◌++◌, Bytes, get_elem?, set, length, take, ltb, leb, ◌==◌, if◌then◌else◌, map,
  is_nil, ℤ, pos, leb_ℤ, signed32, String, ◌>>=◌,
}
use rdp_mcp.Json.{CJson}
use rdp_mcp.Files.{
  Files, LocalFileEntry, LocalDescriptor, Effect, contents_failed, contents_size, contents_range,
  upload_progress, format_data_response, emit, free_local_files, max_local_files,
}

-- `to_wide` is ConvertUtf8NToWCharAlloc, `none` for NULL. At most 259 units are copied.
unfoldable pub wide_name : (Bytes → Option (List ℕ)) → Bytes → List ℕ
wide_name to_wide name = elim (to_wide name) [
  | none ↦ []
  | some w ↦ map (λ c. if c == b'/' then b'\\' else c) (take 259 w)
]

-- The descriptor of an entry; a directory has no size.
unfoldable pub describe : (Bytes → Option (List ℕ)) → LocalFileEntry → LocalDescriptor
unfolding wide_name
describe to_wide f =
    if f.is_directory
    then record {
      is_directory = true;
      size_high = 0;
      size_low = 0;
      file_name = wide_name to_wide f.name;
    }
    else record {
      is_directory = false;
      size_high = f.size / 4294967296 % 4294967296;
      size_low = f.size % 4294967296;
      file_name = wide_name to_wide f.name;
    }

module _ {Item : Type 0} (json : CJson Item) (to_wide : Bytes → Option (List ℕ)) where
  abbrev string_at : Item → String → Option Bytes
  string_at item key = elim (json.get_object_item item key) [
    | none ↦ none
    | some v ↦ json.string_value v
  ]

  abbrev size_at : Item → ℕ
  size_at item = elim (json.get_object_item item "size") [
    | none ↦ 0
    | some v ↦ elim (json.uint64_value v) [ none ↦ 0 | some n ↦ n ]
  ]

  abbrev directory_at : Item → Bool
  directory_at item = elim (json.get_object_item item "isDirectory") [
    | none ↦ false
    | some v ↦ elim (json.bool_value v) [ none ↦ false | some b ↦ b ]
  ]

  -- An item without a string `path` and a string `name` is passed over.
  unfoldable pub entry_of : Item → Option LocalFileEntry
  entry_of item = do
    path ← string_at item "path"
    name ← string_at item "name"
    some (record {
      path = path;
      name = name;
      size = size_at item;
      is_directory = directory_at item;
      bytes_served = 0;
    })

  abbrev keep_some : Option LocalFileEntry → List LocalFileEntry → List LocalFileEntry
  keep_some none fs = fs
  keep_some (some f) fs = f ∷ fs

  unfoldable pub entries_of : List Item → List LocalFileEntry
  entries_of [] = []
  entries_of (item ∷ items) = keep_some (entry_of item) (entries_of items)

  abbrev array_of : Option Bytes → Option (List Item)
  array_of none = none
  array_of (some text) = do root ← json.parse text; json.array_items root

  -- `allocated` says that both `calloc`s succeed. A text that is no JSON array changes nothing.
  unfoldable pub cliprdr_file_set_local_files : Bool → Option Bytes → Files → Files
  cliprdr_file_set_local_files allocated text s = elim (array_of text) [
    | none ↦ s
    | some items ↦
        if length items == 0 || ltb max_local_files (length items) || not allocated
        then free_local_files s
        else record s {
          local_allocated = true;
          local_files = entries_of items;
          local_descriptors = map (describe to_wide) (entries_of items);
        }
  ]

-- A CLIPRDR_FILE_CONTENTS_REQUEST of the server: `wants_size` and `wants_range` are the bits of
-- `dwFlags`.
pub record FileRequest : Type 0 where
  pub stream_id : ℕ
  pub list_index : ℕ
  pub wants_size : Bool
  pub wants_range : Bool
  pub position_high : ℕ
  pub position_low : ℕ
  pub cb_requested : ℕ

-- The answers of the C library for the path of a file: `stat`'s size, whether `fopen`, `fseeko` and
-- `malloc` succeed, and the bytes that `fread` gives.
pub record Disk : Type 0 where
  pub stat_size : Bytes → Option ℕ
  pub opens : Bytes → Bool
  pub seeks : Bool
  pub allocates : Bool
  pub read : Bytes → ℕ → ℕ → Bytes

-- The second critical section: the progress is counted in the array that is there then, at the index
-- of the request, which is not tested again. `none` is an access outside the files.
unfoldable pub count_served : FileRequest → Bytes → Files → Option Files
count_served r bs s = elim (get_elem? s.local_files r.list_index) [
  | none ↦ none
  | some f ↦
      let served = (f.bytes_served + length bs) % 18446744073709551616 in
      some (record s {
        local_files = set s.local_files r.list_index (record f { bytes_served = served });
        effects =
            contents_range r.stream_id bs
            ∷ upload_progress r.list_index served f.size (length s.local_files)
            ∷ s.effects;
      })
]

-- The mutex is left once the file is open; `between` is what other threads make of the state before
-- it is entered again.
unfoldable pub serve_range : (Files → Files) → Disk → FileRequest → Bytes → Files → Option Files
unfolding count_served
serve_range between disk r path s =
    if not (disk.opens path)
    then some (emit (contents_failed r.stream_id) s)
    else if not (disk.seeks && disk.allocates)
    then some (emit (contents_failed r.stream_id) (between s))
    else count_served r
        (disk.read path (r.position_high * 4294967296 + r.position_low) r.cb_requested) (between s)

unfoldable pub serve_entry : (Files → Files) → Disk → FileRequest → Bytes → Files → Option Files
unfolding serve_range
serve_entry between disk r path s =
    if r.wants_size
    then elim (disk.stat_size path) [
      | none ↦ some (emit (contents_failed r.stream_id) s)
      | some n ↦ some (emit (contents_size r.stream_id n) s)
    ]
    else if r.wants_range
    then serve_range between disk r path s
    else some (emit (contents_failed r.stream_id) s)

-- `none` is an access outside the files of the array.
unfoldable pub cb_server_file_contents_request :
    (Files → Files) → Disk → FileRequest → Files → Option Files
unfolding serve_entry
cb_server_file_contents_request between disk r s =
    if leb_ℤ (pos (length s.local_files)) (signed32 r.list_index) || not s.local_allocated
    then some (emit (contents_failed r.stream_id) s)
    else elim (get_elem? s.local_files r.list_index) [
      | none ↦ none
      | some f ↦ serve_entry between disk r f.path s
    ]

unfoldable pub cliprdr_file_has_local_files : Files → Bool
cliprdr_file_has_local_files s = ltb 0 (length s.local_files)

unfoldable pub cliprdr_file_clear_local_files : Files → Files
cliprdr_file_clear_local_files s = free_local_files s

-- `serialize` is cliprdr_serialize_file_list, `none` if it fails; the response without data is the
-- failure.
unfoldable pub cliprdr_file_handle_fgd_request :
    (List LocalDescriptor → Option Bytes) → Files → Files
cliprdr_file_handle_fgd_request serialize s =
    if is_nil s.local_files
    then emit (format_data_response none) s
    else emit (format_data_response (serialize s.local_descriptors)) s
