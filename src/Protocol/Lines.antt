-- ===== src/Protocol/Lines.antt =====
-- How protocol_read_command of protocol.c strips the end of a line.
use rdp_mcp.Prelude.{
  ℕ, ◌-◌, ◌<◌, ◌≡◌, refl, ap, ◌∙◌, sym, some, [], ◌∷◌, ◌++◌, Bytes, arith, lt→ltb, ◌==◌,
  if◌then◌else◌, length, take, get_elem?, length-append, take-length-append, append_assoc,
}
use rdp_mcp.Protocol.{has_at, strip_line}

get_elem?-append : (t r : Bytes) (x : ℕ) → get_elem? (t ++ (x ∷ r)) (length t) ≡ some x
get_elem?-append [] r x = refl
get_elem?-append (c ∷ t) r x = get_elem?-append t r x

has_at-append : (t r : Bytes) (x c : ℕ) → has_at (t ++ (x ∷ r)) (length t) c ≡ (x == c)
has_at-append t r x c = rw (get_elem?-append t r x, has_at)

module _ (t : Bytes) (a b : ℕ) where
  whole : Bytes
  whole = t ++ (a ∷ b ∷ [])

  split_last : whole ≡ (t ++ (a ∷ [])) ++ (b ∷ [])
  unfolding whole
  split_last = sym (append_assoc t (a ∷ []) (b ∷ []))

  len-1 : length whole - 1 ≡ length (t ++ (a ∷ []))
  unfolding whole
  len-1 = omega (arith, length-append t (a ∷ b ∷ []), length-append t (a ∷ []))

  len-2 : length whole - 2 ≡ length t
  unfolding whole
  len-2 = omega (arith, length-append t (a ∷ b ∷ []))

  len-pos : 1 < length whole
  unfolding whole
  len-pos = omega (arith, length-append t (a ∷ b ∷ []))

  last_at : (c : ℕ) → has_at whole (length whole - 1) c ≡ (b == c)
  last_at c =
      ap (λ i. has_at whole i c) len-1
      ∙ ap (λ w. has_at w (length (t ++ (a ∷ []))) c) split_last
      ∙ has_at-append (t ++ (a ∷ [])) [] b c

  before_at : (c : ℕ) → has_at whole (length whole - 2) c ≡ (a == c)
  before_at c = ap (λ i. has_at whole i c) len-2 ∙ unfold whole in has_at-append t (b ∷ []) a c

  take_last : take (length whole - 1) whole ≡ t ++ (a ∷ [])
  take_last =
      ap (λ n. take n whole) len-1
      ∙ ap (take (length (t ++ (a ∷ [])))) split_last
      ∙ take-length-append (t ++ (a ∷ [])) (b ∷ [])

  take_before : take (length whole - 2) whole ≡ t
  take_before = ap (λ n. take n whole) len-2 ∙ unfold whole in take-length-append t (a ∷ b ∷ [])

  strip_whole :
      strip_line whole ≡ (if a == b'\r' then t else if b == b'\n' then t ++ (a ∷ []) else whole)
  unfolding strip_line
  strip_whole =
      rw (lt→ltb 1 (length whole) len-pos, lt→ltb 0 (length whole) (omega (arith, len-pos)))
        (rw (before_at b'\r', last_at b'\n', take_before, take_last))

-- What is left of any line: of two bytes or more, all before a CR in the last place but one, whatever
-- follows it; else all before a newline at the end; else the whole line.
pub strip_line_lem :
    (t : Bytes) (a b : ℕ)
    → (strip_line (t ++ (a ∷ b ∷ []))
        ≡ (if a == b'\r' then t else if b == b'\n' then t ++ (a ∷ []) else t ++ (a ∷ b ∷ [])))
      × (strip_line (b ∷ []) ≡ (if b == b'\n' then [] else b ∷ []))
      × (strip_line [] ≡ [])
strip_line_lem t a b = (
  unfold whole in strip_whole t a b,
  unfold strip_line in ground arith,
  unfold strip_line in refl,
)
