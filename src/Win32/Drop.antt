-- ===== src/Win32/Drop.antt =====
-- native/freerdp-helper/src/cliprdr_win32.c: the units that clipboard_wndproc writes behind the header
-- of CF_HDROP.
use rdp_mcp.Prelude.{
  ℕ, suc, ◌+◌, ◌≡◌, ◌≢◌, refl, ◌∙◌, ap, false, List, [], ◌∷◌, ◌++◌, map, append_assoc, append-nil,
  All, length, length-append, ◌==◌, if◌then◌else◌, if_intro, arith,
}
use rdp_mcp.Win32.{Wide}

abbrev pub normalize_units : Wide → Wide
normalize_units path = map (λ c. if c == b'/' then b'\\' else c) path

-- Each path with its terminator, and one more terminator behind the last.
unfoldable pub drop_units : List Wide → Wide
drop_units [] = 0 ∷ []
drop_units (p ∷ ps) = normalize_units p ++ 0 ∷ drop_units ps

-- The size that the code computes before it writes them.
unfoldable pub total_chars : List Wide → ℕ
total_chars [] = 1
total_chars (p ∷ ps) = length p + 1 + total_chars ps

-- How CF_HDROP is read: paths up to their terminators, until an empty one; `current` is the path so
-- far.
abbrev pub read_units : Wide → Wide → List Wide
read_units current [] = []
read_units [] (c ∷ cs) = let begun = read_units (c ∷ []) cs in if c == 0 then [] else begun
read_units (d ∷ ds) (c ∷ cs) =
    let done = read_units [] cs in
    let more = read_units (d ∷ ds ++ c ∷ []) cs in if c == 0 then (d ∷ ds) ∷ done else more

-- A path with a unit, and no unit 0.
abbrev pub IsPath : Wide → Type 0
IsPath p = (p ≢ []) × All (λ c. c ≢ 0) p

length-drop_units : (ps : List Wide) → length (drop_units ps) ≡ total_chars ps
unfolding drop_units total_chars
length-drop_units [] = refl
length-drop_units (p ∷ ps) =
    omega
      (arith, length-append (normalize_units p) (0 ∷ drop_units ps), length-drop_units ps, same p)
  where
    same : (q : Wide) → length (normalize_units q) ≡ length q
    same [] = refl
    same (c ∷ cs) = ap suc (same cs)

abbrev NonZero : ℕ → Type 0
NonZero c = c ≢ 0

not_end : (c : ℕ) → NonZero c → (c == 0) ≡ false
not_end c h = ground (arith, h)

read-begun :
    (d : ℕ) (ds q rest : Wide)
    → All NonZero q
    → read_units (d ∷ ds) (q ++ 0 ∷ rest) ≡ (d ∷ (ds ++ q)) ∷ read_units [] rest
read-begun d ds [] rest h = rw (append-nil ds) refl
read-begun d ds (c ∷ cs) rest h =
    rw (not_end c h.0, read-begun d (ds ++ c ∷ []) cs rest h.1, append_assoc ds (c ∷ []) cs) refl

normalize_units-NonZero : (p : Wide) → All NonZero p → All NonZero (normalize_units p)
normalize_units-NonZero [] h = tt
normalize_units-NonZero (c ∷ cs) h = (
  if_intro NonZero (c == b'/') (λ k. absurd (omega (arith, k))) h.0,
  normalize_units-NonZero cs h.1,
)

read-path :
    (p rest : Wide)
    → IsPath p
    → read_units [] (normalize_units p ++ 0 ∷ rest) ≡ normalize_units p ∷ read_units [] rest
read-path [] rest h = absurd (h.0 refl)
read-path (c ∷ cs) rest h =
    let all = normalize_units-NonZero (c ∷ cs) h.1 in
    rw (not_end (if c == b'/' then b'\\' else c) all.0)
      (read-begun (if c == b'/' then b'\\' else c) [] (normalize_units cs) rest all.1)

-- Whoever reads the paths from the clipboard gets those that were placed there, in their order, with
-- each slash as a backslash; and the units take exactly the size that is allocated for them. No path
-- is empty or has a unit 0.
pub drop_units-read :
    (ps : List Wide)
    → All IsPath ps
    → (read_units [] (drop_units ps) ≡ map normalize_units ps)
      × (length (drop_units ps) ≡ total_chars ps)
unfolding drop_units
drop_units-read ps h = (read ps h, length-drop_units ps)
  where
    read : (qs : List Wide) → All IsPath qs → read_units [] (drop_units qs) ≡ map normalize_units qs
    read [] h = refl
    read (q ∷ qs) h = read-path q (drop_units qs) h.0 ∙ ap (◌∷◌ (normalize_units q)) (read qs h.1)
