-- ===== src/Files/Name/Components.antt =====
-- The components of a sanitized name.
use rdp_mcp.Prelude.{
  ℕ, ◌≡◌, refl, ◌≢◌, Bool, true, false, ◌&&◌, List, [], ◌∷◌, Bytes, ◌==◌, if◌then◌else◌, map, arith,
  codes, same_text, All, Bool-cases, inl, inr, ◌∙◌, sym, subst, same_text_refl,
}
use rdp_mcp.Files.Name.{
  normalize_path_separators, is_sep, strip_leading, ends_component, replace_dots, sanitize_filename,
}

-- The components of a path: the first one, and the others.
unfoldable pub split : Bytes → Bytes × List Bytes
split [] = ([], [])
split (c ∷ s) = let (w, ws) = split s in if is_sep c then ([], w ∷ ws) else (c ∷ w, ws)

abbrev pub components : Bytes → List Bytes
components s = (split s).0 ∷ (split s).1

-- `..` becomes `__`, every other component stays.
abbrev pub fix : Bytes → Bytes
fix w = if same_text w (codes "..") then codes "__" else w

abbrev fix_if : Bool → Bytes → Bytes
fix_if true w = fix w
fix_if false w = w

-- A first component that is one dot ends right behind it.
lone_dot :
    (d : ℕ) (rest : Bytes)
    → same_text (split (d ∷ rest)).0 (codes ".") ≡ true
    → (d ≡ b'.') × (ends_component rest ≡ true)
unfolding split
lone_dot d [] h = ground arith
lone_dot d (c ∷ rest) h = ground arith

empty_first : (rest : Bytes) → ends_component rest ≡ true → (split rest).0 ≡ []
unfolding split
empty_first [] h = refl
empty_first (c ∷ rest) h = ground arith

split-sep : (c : ℕ) (s : Bytes) → is_sep c ≡ true → split (c ∷ s) ≡ ([], (split s).0 ∷ (split s).1)
unfolding split
split-sep c s h = rw h

split-char : (c : ℕ) (s : Bytes) → is_sep c ≡ false → split (c ∷ s) ≡ (c ∷ (split s).0, (split s).1)
unfolding split
split-char c s h = rw h

fix_if_nil : (bound : Bool) → fix_if bound [] ≡ []
fix_if_nil true = refl
fix_if_nil false = refl

-- `bound && p[0] == '.' && p[1] == '.' && ...`
abbrev is_dots : Bool → ℕ → ℕ → Bytes → Bool
is_dots bound c d rest = bound && (c == b'.' && d == b'.') && ends_component rest

fix_if_miss :
    (bound : Bool) (c d : ℕ) (rest : Bytes)
    → is_dots bound c d rest ≡ false
    → fix_if bound (c ∷ (split (d ∷ rest)).0) ≡ c ∷ (split (d ∷ rest)).0
fix_if_miss false c d rest h = refl
fix_if_miss true c d rest h = ground (arith, lone_dot d rest)

hit_parts :
    (bound : Bool) (c d : ℕ) (rest : Bytes)
    → is_dots bound c d rest ≡ true
    → (bound ≡ true) × (c ≡ b'.') × (d ≡ b'.') × (ends_component rest ≡ true)
hit_parts bound c d rest h = ground arith

split-dots :
    (rest : Bytes)
    → ends_component rest ≡ true
    → split (b'.' ∷ b'.' ∷ rest) ≡ (codes "..", (split rest).1)
split-dots rest h =
    split-char b'.' (b'.' ∷ rest) refl ∙ rw (split-char b'.' rest refl, empty_first rest h)

replace-hit :
    (rest : Bytes)
    → ends_component rest ≡ true
    → replace_dots true (b'.' ∷ b'.' ∷ rest) ≡ b'_' ∷ b'_' ∷ replace_dots false rest
unfolding replace_dots
replace-hit rest h = rw h

replace-miss :
    (bound : Bool) (c d : ℕ) (rest : Bytes)
    → is_dots bound c d rest ≡ false
    → replace_dots bound (c ∷ d ∷ rest) ≡ c ∷ replace_dots (is_sep c) (d ∷ rest)
unfolding replace_dots
replace-miss bound c d rest h = rw h

split-replace_dots :
    (bound : Bool) (s : Bytes)
    → split (replace_dots bound s) ≡ (fix_if bound (split s).0, map fix (split s).1)
split-replace_dots bound [] = unfold split replace_dots in ground arith
split-replace_dots bound (c ∷ []) = unfold split replace_dots in ground arith
split-replace_dots bound (c ∷ d ∷ rest) =
    let ih = split-replace_dots false rest in
    let ih₁ = split-replace_dots true (d ∷ rest) in
    let ih₂ = split-replace_dots false (d ∷ rest) in
    elim (Bool-cases (is_dots bound c d rest)) [
      | inl hit ↦
          let (b, e, f, ends) = hit_parts bound c d rest hit in
          let r = replace_dots false rest in
          rw (b, e, f)
            (rw (replace-hit rest ends, split-dots rest ends)
              (split-char b'_' (b'_' ∷ r) refl
                ∙ rw (split-char b'_' r refl, ih, empty_first rest ends)))
      | inr miss ↦ elim (Bool-cases (is_sep c)) [
        | inl sep ↦
            rw (replace-miss bound c d rest miss, split-sep c (d ∷ rest) sep, fix_if_nil bound)
              (split-sep c (replace_dots (is_sep c) (d ∷ rest)) sep ∙ rw (sep, ih₁))
        | inr char ↦
            rw
              (
                replace-miss bound c d rest miss,
                split-char c (d ∷ rest) char,
                fix_if_miss bound c d rest miss,
              )
              (split-char c (replace_dots (is_sep c) (d ∷ rest)) char ∙ rw (char, ih₂))
      ]
    ]

-- `sanitize_filename` keeps the components of the name without its leading separators, but writes
-- `__` for each component `..`.
pub components-sanitize_filename :
    (name : Bytes) → components (sanitize_filename name) ≡ map fix (components (strip_leading name))
unfolding sanitize_filename
components-sanitize_filename name = rw (split-replace_dots true (strip_leading name))

fix-ne : (w : Bytes) → fix w ≢ codes ".."
fix-ne w e = ground (arith, same_text_refl w)

map-fix : (ws : List Bytes) → All (λ w. w ≢ codes "..") (map fix ws)
map-fix [] = tt
map-fix (w ∷ ws) = (fix-ne w, map-fix ws)

-- A path that begins with a separator is absolute.
abbrev pub begins_with_sep : Bytes → Bool
begins_with_sep [] = false
begins_with_sep (c ∷ s) = is_sep c

strip-begins : (name : Bytes) → begins_with_sep (strip_leading name) ≡ false
unfolding strip_leading
strip-begins [] = refl
strip-begins (c ∷ name) = ground (arith, strip-begins name)

replace-begins :
    (bound : Bool) (s : Bytes)
    → begins_with_sep s ≡ false
    → begins_with_sep (replace_dots bound s) ≡ false
unfolding replace_dots
replace-begins bound [] h = refl
replace-begins bound (c ∷ []) h = h
replace-begins bound (c ∷ d ∷ rest) h = ground arith

-- No name that the server sends leads out of the download directory: what the program appends to the
-- directory does not begin with a separator, and none of its components is `..`.
pub sanitize_filename-safe :
    (name : Bytes)
    → let safe = sanitize_filename (normalize_path_separators name) in
      (begins_with_sep safe ≡ false) × All (λ w. w ≢ codes "..") (components safe)
sanitize_filename-safe name =
    let s = normalize_path_separators name in
    (
      unfold sanitize_filename in replace-begins true (strip_leading s) (strip-begins s),
      subst (All (λ w. w ≢ codes "..")) (sym (components-sanitize_filename s))
          (map-fix (components (strip_leading s))),
    )
