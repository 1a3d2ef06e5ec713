-- ===== src/Win32/Local.antt =====
-- native/freerdp-helper/src/cliprdr_win32.c: on_local_clipboard_changed, which offers what another
-- program has put on the Windows clipboard to the remote side.
pub mod Switch
use rdp_mcp.Prelude.{
  ℕ, zero, suc, ◌+◌, Bool, true, false, not, ◌&&◌, ◌||◌, Option, none, some, List, [], ◌∷◌, Bytes,
  length, leb, ltb, if◌then◌else◌, ◌>>=◌, is_nil, pos,
}
use rdp_mcp.Json.{CJson}
use rdp_mcp.Clipboard.{Clipboard, Env}
use rdp_mcp.Clipboard.Steps.{cliprdr_set_text, cliprdr_announce_files}
use rdp_mcp.Files.Local.{cliprdr_file_set_local_files, cliprdr_file_clear_local_files}
use rdp_mcp.Win32.{
  Win32, Windows, System, Wide, Site, text, listing, path_copy, escaped_copy, open_clipboard_retry,
}
use rdp_mcp.Win32.Listing.{Item, list_files}

-- A path is passed over if DragQueryFileW, the conversion or an allocation fails.
unfoldable pub list_path : Windows → ℕ → Wide → Option Item
list_path w i path =
    if is_nil path
      || is_nil (w.to_utf8 path)
      || not (w.allocates (path_copy i))
      || not (w.allocates (escaped_copy i))
    then none
    else elim (w.attributes path) [
      | none ↦ some (record { path = w.to_utf8 path; size = 0; is_directory = false })
      | some (directory, size) ↦
          some (record { path = w.to_utf8 path; size = size; is_directory = directory })
    ]

unfoldable pub list_paths : Windows → ℕ → List Wide → List (Option Item)
list_paths w i [] = []
list_paths w i (p ∷ ps) = list_path w i p ∷ list_paths w (suc i) ps

-- The files on the clipboard, if there are any and not too many.
unfoldable pub dropped : Windows → System → Option (List Wide)
dropped w s = do
  data_units ← s.hdrop
  let paths = w.drag_query data_units
  if w.gives_data && ltb 0 (length paths) && leb (length paths) 256 && w.allocates listing
      then some paths
      else none

-- The text on the clipboard in UTF-8, if there is some.
unfoldable pub local_text : Windows → System → Option Bytes
local_text w s = do
  units ← s.unicodetext
  if w.gives_data
        && w.locks
        && not (is_nil units)
        && not (is_nil (w.to_utf8 units))
        && w.allocates text
      then some (w.to_utf8 units)
      else none

abbrev pub is_available : Option Wide → Bool
is_available none = false
is_available (some units) = true

module _ {Value : Type 0} (json : CJson Value) (to_wide : Bytes → Option Wide) where
  -- `none` is a write behind the end of the listing's buffer.
  unfoldable pub offer_files : Windows → Env → List Wide → Win32 → Option Win32
  offer_files w e paths s = do
    array ← list_files (list_paths w 0 paths)
    let staged =
        cliprdr_file_set_local_files json to_wide e.allocates (some array) s.clipboard.files
    some (record s { clipboard = cliprdr_announce_files e (record s.clipboard { files = staged }) })

  -- The staged files are cleared before the text is set.
  unfoldable pub offer_text : Env → Bytes → Win32 → Option Win32
  offer_text e utf8 s = do
    c ←
        cliprdr_set_text e (some utf8) (pos (length utf8))
          (record s.clipboard { files = cliprdr_file_clear_local_files s.clipboard.files })
    some (record s { clipboard = c })

  unfoldable pub on_local_clipboard_changed : Windows → Env → Win32 → Option Win32
  on_local_clipboard_changed w e s =
      if not s.ready
        || (not (is_available s.system.hdrop) && not (is_available s.system.unicodetext))
        || not (open_clipboard_retry w)
      then some s
      else elim (dropped w s.system) [
        | some paths ↦ offer_files w e paths s
        | none ↦ elim (local_text w s.system) [ some utf8 ↦ offer_text e utf8 s | none ↦ some s ]
      ]
