-- ===== src/Files/Name.antt =====
-- native/freerdp-helper/src/cliprdr_file.c: names of remote files, on a build that is not for
-- Windows: normalize_path_separators and sanitize_filename, and the path of a download.
pub mod Components
pub mod Parents
use rdp_mcp.Prelude.{
  ℕ, Bool, true, false, ◌&&◌, ◌||◌, List, [], ◌∷◌, ◌++◌, Bytes, ◌==◌, if◌then◌else◌, map,
}

unfoldable pub normalize_path_separators : Bytes → Bytes
normalize_path_separators [] = []
normalize_path_separators (c ∷ path) =
    (if c == b'\\' then b'/' else c) ∷ normalize_path_separators path

abbrev pub is_sep : ℕ → Bool
is_sep c = c == b'/' || c == b'\\'

-- `while (*src == '/' || *src == '\\') src++`
unfoldable pub strip_leading : Bytes → Bytes
strip_leading [] = []
strip_leading (c ∷ name) = if is_sep c then strip_leading name else c ∷ name

-- `next == '\0' || next == '/' || next == '\\'`
abbrev pub ends_component : Bytes → Bool
ends_component [] = true
ends_component (c ∷ rest) = is_sep c

-- The loop over the name: `bound` says that `p` is at the start or after a separator. Two dots that
-- are overwritten are passed with `bound` false, as is what follows them.
unfoldable pub replace_dots : Bool → Bytes → Bytes
replace_dots bound [] = []
replace_dots bound (c ∷ []) = c ∷ []
replace_dots bound (c ∷ d ∷ rest) =
    let skipped = b'_' ∷ b'_' ∷ replace_dots false rest in
    let kept = c ∷ replace_dots (is_sep c) (d ∷ rest) in
    if bound && (c == b'.' && d == b'.') && ends_component rest then skipped else kept

unfoldable pub sanitize_filename : Bytes → Bytes
unfolding strip_leading replace_dots
sanitize_filename name = replace_dots true (strip_leading name)

-- The temp path of a download: the directory, a slash, the name.
unfoldable pub download_path : Bytes → Bytes → Bytes
unfolding normalize_path_separators sanitize_filename
download_path temp_dir name =
    temp_dir ++ (b'/' ∷ sanitize_filename (normalize_path_separators name))
