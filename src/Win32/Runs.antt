-- ===== src/Win32/Runs.antt =====
-- Runs of cliprdr_win32.c, and the theorems about it at these runs.
use rdp_mcp.Prelude.{
  ℕ, ◌+◌, ◌*◌, ◌≤◌, ◌<◌, ◌≡◌, ◌≢◌, refl, true, false, Option, none, some, List, [], ◌∷◌, ◌++◌, map,
  All, IfSome, Bytes, codes, length, leb, if◌then◌else◌, pos, arith, ◌>>=◌,
}
use rdp_mcp.Files.{DownloadEntry, LocalFileEntry}
use rdp_mcp.Clipboard.{Clipboard, Env, client_format_list, cf_unicodetext, channel_rc_ok}
use rdp_mcp.Clipboard.Steps.{cliprdr_set_text}
use rdp_mcp.Win32.{
  Win32, Windows, Wide, open_clipboard_retry, open_attempts, cliprdr_win32_set_text,
}
use rdp_mcp.Win32.Listing.{
  Item, quote, escape_loop, escape_path, print_item, list_files, file_name, behind_last,
}
use rdp_mcp.Win32.Listing.Escape.{read_string, escape_path-read}
use rdp_mcp.Win32.Listing.Fits.{array, list_files-array}
use rdp_mcp.Win32.Drop.{
  read_units, drop_units, total_chars, normalize_units, IsPath, drop_units-read,
}
use rdp_mcp.Win32.Local.{dropped, local_text, on_local_clipboard_changed}
use rdp_mcp.Win32.Local.Switch.{Silent, copied_text-Silent}
use rdp_mcp.Win32.Roots.{root_of, root_name, before_first, already_seen, root_names}
use rdp_mcp.Win32.Roots.Cover.{Distinct, RootOf, IsPlaced, root_names-cover}
use rdp_mcp.Win32.Window.{empty_system}
use rdp_mcp.Win32.Window.Echo.{Write, Settles, writes_handled, pumped, writes-Settles}
use rdp_mcp.Win32.Window.Overlap.{Works, echoed, two_texts-echoed}
use rdp_mcp.Samples.{echo_json, active_clipboard}

-- A Windows on which the clipboard is opened at the second attempt and all else works at once.
abbrev works : Windows
works = record {
  opens = λ n. if leb 1 n then true else false;
  gives_data = true;
  locks = true;
  gives_memory = true;
  takes_data = true;
  posts = true;
  notifies = true;
  drag_query = λ u. read_units [] u;
  to_utf8 = λ u. u;
  attributes = λ p. none;
  allocates = λ s. true;
}

abbrev window : Win32
window = record {
  thread = true;
  hwnd = true;
  ready = true;
  thread_running = true;
  we_set_clipboard = false;
  queue = [];
  quits = false;
  unqueued = 0;
  system = empty_system;
  clipboard = active_clipboard;
}

-- 100 ms after the last format list.
abbrev soon : Env
soon = record { now = 5100; after = 5100; allocates = true; returns = λ p. channel_rc_ok }

abbrev to_units : Bytes → Option Wide
to_units t = some t

opened : open_clipboard_retry works ≡ true
unfolding open_clipboard_retry open_attempts
opened = refl

writes-Settles_example : Settles echo_json to_units active_clipboard (
    writes_handled echo_json to_units
      ((works, soon, Write.text (codes "a")) ∷ (works, soon, Write.files (codes "b" ∷ [])) ∷ [])
      window)
writes-Settles_example =
    writes-Settles echo_json to_units
      ((works, soon, Write.text (codes "a")) ∷ (works, soon, Write.files (codes "b" ∷ [])) ∷ [])
      window ((refl, refl), ((refl, refl), tt)) (refl, refl, refl)

all_work : Works works
all_work = record {
  opened = opened;
  given = refl;
  locked = refl;
  memory = refl;
  taken = refl;
  posted = refl;
  notified = refl;
  copied = refl;
  converted = refl;
}

two_texts-echoed_example :
    pumped echo_json to_units 6 works soon
      (cliprdr_win32_set_text works (codes "b") (cliprdr_win32_set_text works (codes "a") window))
    ≡ echoed echo_json to_units soon (codes "b") (codes "b") window
two_texts-echoed_example =
    two_texts-echoed echo_json to_units works soon b'a' b'b' [] [] window all_work refl refl refl
      refl

-- A text is on the clipboard while a file is staged.
abbrev staged_file : LocalFileEntry
staged_file = record {
  path = codes "/a";
  name = codes "a";
  size = 1;
  is_directory = false;
  bytes_served = 0;
}

abbrev copied : Win32
copied = record window {
  system = record empty_system { unicodetext = some (codes "t") };
  clipboard = record active_clipboard {
    files = record active_clipboard.files {
      local_allocated = true;
      local_files = staged_file ∷ [];
    };
  };
}

no_drop : dropped works copied.system ≡ none
unfolding dropped
no_drop = refl

has_text : local_text works copied.system ≡ some (codes "t")
unfolding local_text
has_text = refl

copied_text-Silent_example :
    Silent echo_json to_units
      (codes "t")
      copied
      (on_local_clipboard_changed echo_json to_units works soon copied)
    × (c : Clipboard) × (cliprdr_set_text soon (some (codes "t")) (pos 1) copied.clipboard ≡ some c)
    × (c.sent ≡ client_format_list 5100 cf_unicodetext none ∷ copied.clipboard.sent)
copied_text-Silent_example =
    copied_text-Silent echo_json to_units works soon (codes "t") staged_file [] copied refl
      (1, refl, refl) refl refl refl opened no_drop has_text (omega arith)

-- A drive, a slash and a letter.
drive-IsPath : (c : ℕ) → c ≢ 0 → IsPath (b'C' ∷ b':' ∷ b'/' ∷ c ∷ [])
drive-IsPath c h = (
  (λ p. cc),
  ((λ p. omega (arith, p)), ((λ p. omega (arith, p)), ((λ p. omega (arith, p)), (h, tt)))),
)

drop_units-read_example :
    (read_units [] (drop_units (codes "C:/a" ∷ codes "C:/b" ∷ []))
      ≡ map normalize_units (codes "C:/a" ∷ codes "C:/b" ∷ []))
    × (length (drop_units (codes "C:/a" ∷ codes "C:/b" ∷ []))
        ≡ total_chars (codes "C:/a" ∷ codes "C:/b" ∷ []))
drop_units-read_example =
    drop_units-read (codes "C:/a" ∷ codes "C:/b" ∷ [])
      (drive-IsPath b'a' (λ p. omega (arith, p)), (drive-IsPath b'b' (λ p. omega (arith, p)), tt))

escape_path-read_example :
    (read_string false (escape_path (codes "C:\\a") ++ quote ∷ []) ≡ some (codes "C:\\a", []))
    × (length (escape_path (codes "C:\\a")) + 1 ≤ length (codes "C:\\a") * 2 + 1)
escape_path-read_example = escape_path-read (codes "C:\\a") []

abbrev one_item : List (Option Item)
one_item = some (record { path = codes "C:\\a"; size = 7; is_directory = false }) ∷ []

list_files-array_example : list_files one_item ≡ (
    if leb (length (array one_item) + 1) (256 + length one_item * 1024)
    then some (array one_item)
    else none)
list_files-array_example = list_files-array one_item

-- If the first file is passed over, the array begins with a comma.
comma_first :
    array (none ∷ one_item)
    ≡ codes "[,{\"path\":\"C:\\\\a\",\"name\":\"a\",\"size\":7,\"isDirectory\":false}]"
unfolding print_item escape_path escape_loop file_name behind_last rdp_mcp.Prelude.decimal
    rdp_mcp.Prelude.decimal_loop
comma_first = refl

abbrev done : Bytes → DownloadEntry
done path = record {
  file_index = 0;
  stream_id = 1;
  total_size = 1;
  bytes_received = 1;
  fp = false;
  temp_path = some path;
  size_received = true;
  complete = true;
}

abbrev downloaded : List DownloadEntry
downloaded = done (codes "t\\d") ∷ done (codes "t\\d\\a") ∷ done (codes "t\\e") ∷ []

two_roots : root_names 1 [] downloaded ≡ codes "d" ∷ codes "e" ∷ []
unfolding root_names root_of root_name before_first already_seen
two_roots = refl

root_names-cover_example :
    All (RootOf 1 downloaded) (root_names 1 [] downloaded)
    × Distinct (root_names 1 [] downloaded)
    × All (IsPlaced 1 (root_names 1 [] downloaded)) downloaded
root_names-cover_example = root_names-cover 1 downloaded
