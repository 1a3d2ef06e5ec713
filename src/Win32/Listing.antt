-- ===== src/Win32/Listing.antt =====
-- native/freerdp-helper/src/cliprdr_win32.c: the JSON array of the files on the local clipboard, which
-- on_local_clipboard_changed prints into a buffer of a size fixed beforehand.

pub mod Escape
pub mod Fits
use rdp_mcp.Prelude.{
  ℕ, zero, suc, ◌+◌, ◌-◌, ◌*◌, Bool, true, false, ◌||◌, Option, none, some, List, [], ◌∷◌, ◌++◌,
  Bytes, length, take, ltb, leb, ◌==◌, if◌then◌else◌, ◌>>=◌, codes, decimal,
}

abbrev pub backslash : ℕ
backslash = 92

abbrev pub quote : ℕ
quote = 34

-- The loop that escapes a path, from a position in the escaped copy; the guard keeps two bytes free.
unfoldable pub escape_loop : (limit ep : ℕ) → Bytes → Bytes
escape_loop limit ep [] = []
escape_loop limit ep (c ∷ cs) =
    let plain = escape_loop limit (ep + 1) cs in
    let escaped = escape_loop limit (ep + 2) cs in
    if ltb ep (limit - 2)
    then (if c == backslash || c == quote then backslash ∷ c ∷ escaped else c ∷ plain)
    else []

unfoldable pub escape_path : Bytes → Bytes
unfolding escape_loop
escape_path path = escape_loop (length path * 2 + 1) 0 path

-- `strrchr(s, c)` and one byte further: what is behind the last `c`.
unfoldable pub behind_last : ℕ → Bytes → Option Bytes
behind_last c [] = none
behind_last c (b ∷ bs) = elim (behind_last c bs) [
  | some rest ↦ some rest
  | none ↦ if b == c then some bs else none
]

unfoldable pub file_name : Bytes → Bytes
unfolding behind_last
file_name path = elim (behind_last backslash path) [
  | some name ↦ name
  | none ↦ elim (behind_last b'/' path) [ some name ↦ name | none ↦ path ]
]

-- A file as it is listed: its path, its size and whether it is a directory.
pub record Item : Type 0 where
  pub path : Bytes
  pub size : ℕ
  pub is_directory : Bool

-- What the format string prints; the name is not escaped.
unfoldable pub print_item : Item → Bytes
unfolding escape_path file_name decimal
print_item f =
    codes "{\"path\":\""
    ++ escape_path f.path
    ++ codes "\",\"name\":\""
    ++ file_name f.path
    ++ codes "\",\"size\":"
    ++ decimal f.size
    ++ codes ",\"isDirectory\":"
    ++ (if f.is_directory then codes "true" else codes "false")
    ++ codes "}"

-- The buffer: what is stored in it, and the position, which may lie behind its end.
pub record Buffer : Type 0 where
  pub text : Bytes
  pub pos : ℕ

-- `json[pos++] = c`; `none` is a write behind the end.
unfoldable pub put_byte : (limit c : ℕ) → Buffer → Option Buffer
put_byte limit c b =
    if ltb b.pos limit then some (record { text = b.text ++ c ∷ []; pos = b.pos + 1 }) else none

-- `snprintf(json + pos, json_cap - pos, ...)` stores what has room before a terminator, and gives the
-- length of the whole; at a position behind the end the size wraps around, and it writes there.
unfoldable pub print_text : ℕ → Bytes → Buffer → Option Buffer
print_text limit s b =
    if leb b.pos limit
    then some (record { text = b.text ++ take (limit - b.pos - 1) s; pos = b.pos + length s })
    else none

-- An entry of the list is `none` if the code passes over it; the comma goes before every entry but
-- the one with index 0.
unfoldable pub print_items : (limit i : ℕ) → List (Option Item) → Buffer → Option Buffer
print_items limit i [] b = some b
print_items limit i (none ∷ fs) b = print_items limit (suc i) fs b
print_items limit i (some f ∷ fs) b = do
  separated ← if ltb 0 i then put_byte limit b',' b else some b
  printed ← print_text limit (print_item f) separated
  print_items limit (suc i) fs printed

-- The whole array with its terminator, whose position is not taken.
unfoldable pub list_files : List (Option Item) → Option Bytes
list_files fs = do
  let limit = 256 + length fs * 1024
  opened ← put_byte limit b'[' (record { text = []; pos = 0 })
  printed ← print_items limit 0 fs opened
  closed ← put_byte limit b']' printed
  if ltb closed.pos limit then some closed.text else none
