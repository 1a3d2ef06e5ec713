-- ===== src/Win32/Listing/Escape.antt =====
-- The escaped path in the listing of cliprdr_win32.c.
use rdp_mcp.Prelude.{
  ℕ, ◌+◌, ◌*◌, ◌≤◌, ◌≡◌, refl, Bool, true, false, ◌||◌, Option, none, some, [], ◌∷◌, ◌++◌, Bytes,
  length, ◌==◌, if◌then◌else◌, arith,
}
use rdp_mcp.Win32.Listing.{backslash, quote, escape_loop, escape_path}

abbrev pub special : ℕ → Bool
special c = c == backslash || c == quote

abbrev pub push : ℕ → Option (Bytes × Bytes) → Option (Bytes × Bytes)
push c none = none
push c (some (s, rest)) = some (c ∷ s, rest)

-- What a reader of JSON takes for the string, up to the closing quote, and what is behind that;
-- the flag says that a backslash has just been read, and only the escapes that are printed are read.
abbrev pub read_string : Bool → Bytes → Option (Bytes × Bytes)
read_string escaped [] = none
read_string true (c ∷ cs) =
    let rest = read_string false cs in if special c then push c rest else none
read_string false (c ∷ cs) =
    let escape = read_string true cs in
    let rest = read_string false cs in
    if c == quote then some ([], cs) else if c == backslash then escape else push c rest

abbrev escape_all : Bytes → Bytes
escape_all [] = []
escape_all (c ∷ cs) =
    let rest = escape_all cs in if special c then backslash ∷ c ∷ rest else c ∷ rest

-- The guard of the loop never ends it before the path does.
escape_loop-all :
    (limit ep : ℕ) (p : Bytes)
    → ep + length p * 2 + 1 ≤ limit
    → escape_loop limit ep p ≡ escape_all p
unfolding escape_loop
escape_loop-all limit ep [] h = refl
escape_loop-all limit ep (c ∷ cs) h =
    let plain = escape_loop-all limit (ep + 1) cs (omega (arith, h)) in
    let escaped = escape_loop-all limit (ep + 2) cs (omega (arith, h)) in
    ground (arith, plain, escaped, h)

escape_all-length : (p : Bytes) → length (escape_all p) ≤ length p * 2
escape_all-length [] = omega arith
escape_all-length (c ∷ cs) = ground (arith, escape_all-length cs)

escape_all-read :
    (p rest : Bytes) → read_string false (escape_all p ++ quote ∷ rest) ≡ some (p, rest)
escape_all-read [] rest = refl
escape_all-read (c ∷ cs) rest = let all = escape_all-read cs rest in ground (arith, all)

-- A path is escaped as a whole: a reader of JSON gets it back from the text that is printed for it and
-- the quote behind it, and the copy never needs more than two bytes for one, and one for its end.
pub escape_path-read :
    (path rest : Bytes)
    → (read_string false (escape_path path ++ quote ∷ rest) ≡ some (path, rest))
      × (length (escape_path path) + 1 ≤ length path * 2 + 1)
unfolding escape_path
escape_path-read path rest =
    rw (escape_loop-all (length path * 2 + 1) 0 path (omega arith))
      (escape_all-read path rest, omega (arith, escape_all-length path))
