-- ===== src/Paint/Pixels.antt =====
-- The conversion of connection.c, BGRX to RGBA.
use native.Mathlib.Nat.{mul-le-mul_right}
use rdp_mcp.Prelude.{
  ℕ, zero, suc, ◌+◌, ◌*◌, ◌≤◌, ◌<◌, ◌≡◌, refl, ◌∙◌, sym, ap, Option, none, some, [], ◌∷◌, ◌++◌,
  Bytes, get_elem?-some, length, length-append, lt→ltb, arith,
}
use rdp_mcp.Paint.{read_pixel, convert_row, convert_rows}

-- Red, green, blue and alpha.
abbrev pub Colour : Type 0
Colour = ℕ × ℕ × ℕ × ℕ

-- The pixel with a number in a list of four bytes for each.
abbrev pub colour_at : Bytes → ℕ → Option Colour
colour_at (r ∷ g ∷ b ∷ a ∷ px) zero = some (r, g, b, a)
colour_at (r ∷ g ∷ b ∷ a ∷ px) (suc i) = colour_at px i
colour_at _ i = none

-- The opaque colour of the bytes B, G, R at an offset.
abbrev pub bgr_at : Bytes → ℕ → Option Colour
bgr_at src n = elim (read_pixel src n) [ none ↦ none | some (r, g, b) ↦ some (r, g, b, 255) ]

-- A row of pixels that are those of a part of the frame buffer.
abbrev IsRow : ℕ → ℕ → Bytes → Bytes → Type 0
IsRow cols n src row =
    (length row ≡ 4 * cols) × ((i : ℕ) → i < cols → colour_at row i ≡ bgr_at src (n + 4 * i))

read_pixel-some :
    (src : Bytes) (n : ℕ)
    → n + 4 ≤ length src
    → (r : ℕ) × (g : ℕ) × (b : ℕ) × (read_pixel src n ≡ some (r, g, b))
read_pixel-some src n h =
    let (r, er) = get_elem?-some src (n + 2) (omega arith) in
    let (g, eg) = get_elem?-some src (n + 1) (omega arith) in
    let (b, eb) = get_elem?-some src n (omega arith) in (r, g, b, rw (er, eg, eb))

convert_row-some :
    (cols n : ℕ) (src : Bytes)
    → n + 4 * cols ≤ length src
    → (row : Bytes) × (convert_row cols n src ≡ some row) × IsRow cols n src row
unfolding convert_row
convert_row-some zero n src h = ([], refl, (refl, λ i k. absurd (omega arith)))
convert_row-some (suc cols) n src h =
    let (r, g, b, read) = read_pixel-some src n (omega arith) in
    let (row, run, (len, same)) = convert_row-some cols (n + 4) src (omega arith) in
    (r ∷ g ∷ b ∷ 255 ∷ row, rw (read, run), (omega (arith, len), shifted r g b row read same))
  where
    shifted :
        (r g b : ℕ) (row : Bytes)
        → read_pixel src n ≡ some (r, g, b)
        → ((i : ℕ) → i < cols → colour_at row i ≡ bgr_at src (n + 4 + 4 * i))
        → (i : ℕ) → i < suc cols
        → colour_at (r ∷ g ∷ b ∷ 255 ∷ row) i ≡ bgr_at src (n + 4 * i)
    shifted r g b row read same zero k =
        ap (λ p. elim p [ none ↦ none | some (r', g', b') ↦ some (r', g', b', 255) ]) (sym read)
        ∙ ap (bgr_at src) (omega arith)
    shifted r g b row read same (suc i) k = same i (omega arith) ∙ ap (bgr_at src) (omega arith)

-- The pixels of a row before others, and of the others after it.
colour_at-front :
    (cols : ℕ) (row px : Bytes) (i : ℕ)
    → length row ≡ 4 * cols
    → i < cols
    → colour_at (row ++ px) i ≡ colour_at row i
colour_at-front zero row px i h k = absurd (omega arith)
colour_at-front (suc cols) (r ∷ g ∷ b ∷ a ∷ row) px zero h k = refl
colour_at-front (suc cols) (r ∷ g ∷ b ∷ a ∷ row) px (suc i) h k =
    colour_at-front cols row px i (omega (arith, h)) (omega arith)
colour_at-front (suc cols) [] px i h k = absurd (omega (arith, h))
colour_at-front (suc cols) (r ∷ []) px i h k = absurd (omega (arith, h))
colour_at-front (suc cols) (r ∷ g ∷ []) px i h k = absurd (omega (arith, h))
colour_at-front (suc cols) (r ∷ g ∷ b ∷ []) px i h k = absurd (omega (arith, h))

colour_at-back :
    (cols : ℕ) (row px : Bytes) (i : ℕ)
    → length row ≡ 4 * cols
    → colour_at (row ++ px) (cols + i) ≡ colour_at px i
colour_at-back zero [] px i h = ap (colour_at px) (omega arith)
colour_at-back zero (x ∷ row) px i h = absurd (omega (arith, h))
colour_at-back (suc cols) (r ∷ g ∷ b ∷ a ∷ row) px i h =
    let e : suc cols + i ≡ suc (cols + i) = omega arith in
    ap (colour_at (r ∷ g ∷ b ∷ a ∷ (row ++ px))) e ∙ colour_at-back cols row px i (omega (arith, h))
colour_at-back (suc cols) [] px i h = absurd (omega (arith, h))
colour_at-back (suc cols) (r ∷ []) px i h = absurd (omega (arith, h))
colour_at-back (suc cols) (r ∷ g ∷ []) px i h = absurd (omega (arith, h))
colour_at-back (suc cols) (r ∷ g ∷ b ∷ []) px i h = absurd (omega (arith, h))

-- The pixel of the frame buffer in a row and a column.
abbrev pub buffer_at : ℕ → Bytes → ℕ → ℕ → Option Colour
buffer_at stride src row col = bgr_at src (row * stride + 4 * col)

-- Pixels that are those of a rectangle of the frame buffer.
abbrev pub IsPart : ℕ → ℕ → ℕ → ℕ → ℕ → Bytes → Bytes → Type 0
IsPart rows y x w stride src px =
    (length px ≡ rows * (4 * w))
    × ((i j : ℕ)
        → i < rows
        → j < w
        → colour_at px (i * w + j) ≡ buffer_at stride src (y + i) (x + j))

pub convert_rows-some :
    (rows y x w stride : ℕ) (src : Bytes)
    → 4 * (x + w) ≤ stride
    → (y + rows) * stride ≤ length src
    → length src < 2147483648
    → (px : Bytes) × (convert_rows rows y x w stride src ≡ some px)
      × IsPart rows y x w stride src px
unfolding convert_rows
convert_rows-some zero y x w stride src a b c =
    ([], refl, (omega arith, λ i j k. absurd (omega arith)))
convert_rows-some (suc rows) y x w stride src a b c =
    let n = y * stride + x * 4 in
    let below : suc y ≤ y + suc rows = omega arith in
    let room : suc y * stride ≤ length src = omega (arith, b, mul-le-mul_right stride below) in
    let (row, run, (len, same)) = convert_row-some w n src (omega (arith, room)) in
    let (px, runs, (lens, sames)) =
      convert_rows-some rows (suc y) x w stride src a (omega (arith, b)) c in
    (
      row ++ px,
      rw
          (
            lt→ltb (y * stride) 2147483648 (omega (arith, room)),
            lt→ltb (x * 4) 2147483648 (omega (arith, room)),
            run,
            runs,
          )
          refl,
      (omega (arith, length-append row px, len, lens), part row px len same sames),
    )
  where
    part :
        (row px : Bytes)
        → length row ≡ 4 * w
        → ((i : ℕ) → i < w → colour_at row i ≡ bgr_at src (y * stride + x * 4 + 4 * i))
        → ((i j : ℕ)
            → i < rows
            → j < w
            → colour_at px (i * w + j) ≡ buffer_at stride src (suc y + i) (x + j))
        → (i j : ℕ) → i < suc rows
        → j < w
        → colour_at (row ++ px) (i * w + j) ≡ buffer_at stride src (y + i) (x + j)
    part row px len same sames zero j h k =
        ap (colour_at (row ++ px)) (omega arith)
        ∙ colour_at-front w row px j len k
        ∙ same j k
        ∙ ap (bgr_at src) (omega arith)
    part row px len same sames (suc i) j h k =
        ap (colour_at (row ++ px)) (omega arith)
        ∙ colour_at-back w row px (i * w + j) len
        ∙ sames i j (omega arith) k
        ∙ ap (λ r. buffer_at stride src r (x + j)) (omega arith)
