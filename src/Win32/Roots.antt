-- ===== src/Win32/Roots.antt =====
-- native/freerdp-helper/src/cliprdr_file.c and native/freerdp-helper/src/cliprdr.c: what the clipboard
-- channel hands to cliprdr_win32.c on Windows, and which items of a download are placed on the clipboard.
pub mod Entries
pub mod Cover
use rdp_mcp.Prelude.{
  ℕ, zero, suc, ◌+◌, ◌≡◌, ◌≢◌, refl, ◌∙◌, ap, Bool, true, false, not, ◌&&◌, ◌||◌, Option, none,
  some, List, [], ◌∷◌, ◌++◌, Bytes, length, drop, ltb, leb, ◌==◌, same_text, same_text_refl,
  same_text→eq, if◌then◌else◌, if_cases, if_intro, All, IfSome, is_nil, arith,
}
use rdp_mcp.Files.{Files, DownloadEntry}
use rdp_mcp.Win32.{
  Win32, Windows, Wide, cliprdr_win32_set_text, cliprdr_win32_set_files, cliprdr_win32_is_active,
}

-- `strchr(s, c)`: what is before the first `c`.
unfoldable pub before_first : ℕ → Bytes → Option Bytes
before_first c [] = none
before_first c (b ∷ bs) =
    let rest = before_first c bs in
    if b == c then some [] else elim rest [ none ↦ none | some front ↦ some (b ∷ front) ]

unfoldable pub root_name : Bytes → Bytes
root_name rel = elim (before_first b'\\' rel) [
  | some front ↦ front
  | none ↦ elim (before_first b'/' rel) [ some front ↦ front | none ↦ rel ]
]

-- The item directly in the temporary directory that an entry belongs to, if it is there.
unfoldable pub root_of : ℕ → DownloadEntry → Option Bytes
root_of dir_len d = elim d.temp_path [
  | none ↦ none
  | some path ↦
      if not d.complete || leb (length path) (dir_len + 1)
      then none
      else some (root_name (drop (dir_len + 1) path))
]

unfoldable pub already_seen : Bytes → List Bytes → Bool
already_seen r [] = false
already_seen r (s ∷ ss) = same_text s r || already_seen r ss

-- The loop over the entries; `seen` are the roots found before.
unfoldable pub root_names : ℕ → List Bytes → List DownloadEntry → List Bytes
root_names dir_len seen [] = []
root_names dir_len seen (d ∷ ds) =
    let passed = root_names dir_len seen ds in
    elim (root_of dir_len d) [
      | none ↦ passed
      | some r ↦
          let found = r ∷ root_names dir_len (seen ++ r ∷ []) ds in
          if already_seen r seen then passed else found
    ]

-- A path that is not converted is left out.
unfoldable pub root_paths : (Bytes → Option Wide) → Bytes → List Bytes → List Wide
root_paths to_wide dir [] = []
root_paths to_wide dir (r ∷ rs) = elim (to_wide (dir ++ b'\\' ∷ r)) [
  | none ↦ root_paths to_wide dir rs
  | some p ↦ p ∷ root_paths to_wide dir rs
]

-- At the end of a download; the allocations of the loop succeed.
unfoldable pub place_downloads : (Bytes → Option Wide) → Windows → Files → Win32 → Win32
place_downloads to_wide w f s = elim f.download_temp_dir [
  | none ↦ s
  | some dir ↦
      let paths = root_paths to_wide dir (root_names (length dir) [] f.downloads) in
      if cliprdr_win32_is_active s && not (is_nil f.downloads) && not (is_nil paths)
      then cliprdr_win32_set_files w paths s
      else s
]

-- A text of the server, where cb_server_format_data_response has converted it.
unfoldable pub server_text : Windows → Wide → Win32 → Win32
server_text w text s = if cliprdr_win32_is_active s then cliprdr_win32_set_text w text s else s
