-- ===== src/Win32/Listing/Fits.antt =====
-- Which listings fit into the buffer that on_local_clipboard_changed of cliprdr_win32.c allocates.
use rdp_mcp.Prelude.{
  ℕ, zero, suc, ◌+◌, ◌-◌, ◌*◌, ◌≤◌, ◌<◌, ◌≡◌, refl, sym, ◌∙◌, ap, true, Option, none, some, List,
  [], ◌∷◌, ◌++◌, append_assoc, append-nil, Bytes, length, length-append, take_all, ltb, leb,
  if◌then◌else◌, if_cases, >>=-eq-some, arith,
}
use rdp_mcp.Win32.Listing.{Item, Buffer, print_item, put_byte, print_text, print_items, list_files}

-- The entries with the commas.
abbrev pub lead : ℕ → Bytes
lead zero = []
lead (suc i) = b',' ∷ []

abbrev pub joined : ℕ → List (Option Item) → Bytes
joined i [] = []
joined i (none ∷ fs) = joined (suc i) fs
joined i (some f ∷ fs) = lead i ++ (print_item f ++ joined (suc i) fs)

abbrev advanced : Bytes → Buffer → Buffer
advanced s b = record { text = b.text ++ s; pos = b.pos + length s }

put_byte-fits :
    (limit c : ℕ) (b : Buffer) → b.pos < limit → put_byte limit c b ≡ some (advanced (c ∷ []) b)
unfolding put_byte
put_byte-fits limit c b h = ground (arith, h)

print_text-fits :
    (limit : ℕ) (s : Bytes) (b : Buffer)
    → b.pos + length s < limit
    → print_text limit s b ≡ some (advanced s b)
unfolding print_text
print_text-fits limit s b h =
    rw (take_all (limit - b.pos - 1) s (omega (arith, h))) (ground (arith, h))

advanced-nil : (b : Buffer) → b ≡ advanced [] b
advanced-nil b = rw (append-nil b.text) (ground arith)

advanced-append : (s t : Bytes) (b : Buffer) → advanced t (advanced s b) ≡ advanced (s ++ t) b
advanced-append s t b = rw (append_assoc b.text s t) (ground (arith, length-append s t))

separate-fits :
    (limit i : ℕ) (b : Buffer)
    → b.pos + length (lead i) < limit
    → (if ltb 0 i then put_byte limit b',' b else some b) ≡ some (advanced (lead i) b)
separate-fits limit zero b h = ap some (advanced-nil b)
separate-fits limit (suc i) b h =
    let comma : ltb 0 (suc i) ≡ true = ground arith in
    rw comma (put_byte-fits limit b',' b (omega (arith, h)))

joined-length :
    (i : ℕ) (f : Item) (fs : List (Option Item))
    → length (joined i (some f ∷ fs))
      ≡ length (lead i) + (length (print_item f) + length (joined (suc i) fs))
joined-length i f fs =
    length-append (lead i) (print_item f ++ joined (suc i) fs)
    ∙ ap (λ n. length (lead i) + n) (length-append (print_item f) (joined (suc i) fs))

abbrev place : Option Buffer → ℕ
place none = 0
place (some b) = b.pos

put_byte-pos :
    (limit c : ℕ) (b b' : Buffer)
    → put_byte limit c b ≡ some b'
    → (b.pos < limit) × (b'.pos ≡ b.pos + 1)
unfolding put_byte
put_byte-pos limit c b b' e = ground (arith, e)

print_text-pos :
    (limit : ℕ) (s : Bytes) (b b' : Buffer)
    → print_text limit s b ≡ some b'
    → b'.pos ≡ b.pos + length s
unfolding print_text
print_text-pos limit s b b' e = ground (arith, e)

separate-pos :
    (limit i : ℕ) (b b' : Buffer)
    → (if ltb 0 i then put_byte limit b',' b else some b) ≡ some b'
    → b'.pos ≡ b.pos + length (lead i)
separate-pos limit zero b b' e = omega (arith, ap place e)
separate-pos limit (suc i) b b' e =
    let comma : ltb 0 (suc i) ≡ true = ground arith in
    (put_byte-pos limit b',' b b'
      (ap (λ t. if t then put_byte limit b',' b else some b) (sym comma) ∙ e)).1

print_items-fits :
    (limit i : ℕ) (fs : List (Option Item)) (b : Buffer)
    → b.pos + length (joined i fs) < limit
    → print_items limit i fs b ≡ some (advanced (joined i fs) b)
unfolding print_items
print_items-fits limit i [] b h = ap some (advanced-nil b)
print_items-fits limit i (none ∷ fs) b h = print_items-fits limit (suc i) fs b h
print_items-fits limit i (some f ∷ fs) b h =
    let all = joined-length i f fs in
    rw
      (
        separate-fits limit i b (omega (arith, h, all)),
        print_text-fits limit (print_item f) (advanced (lead i) b) (omega (arith, h, all)),
        print_items-fits limit (suc i) fs (advanced (print_item f) (advanced (lead i) b))
            (omega (arith, h, all)),
      )
      (ap some (
        advanced-append (print_item f) (joined (suc i) fs) (advanced (lead i) b)
        ∙ advanced-append (lead i) (print_item f ++ joined (suc i) fs) b))

-- Whatever is printed, the position counts it all.
print_items-pos :
    (limit i : ℕ) (fs : List (Option Item)) (b b' : Buffer)
    → print_items limit i fs b ≡ some b'
    → b'.pos ≡ b.pos + length (joined i fs)
unfolding print_items
print_items-pos limit i [] b b' e = omega (arith, ap place e)
print_items-pos limit i (none ∷ fs) b b' e = print_items-pos limit (suc i) fs b b' e
print_items-pos limit i (some f ∷ fs) b b' e =
    let (c, separated, e') = >>=-eq-some (if ltb 0 i then put_byte limit b',' b else some b) _ e in
    let (d, printed, e'') = >>=-eq-some (print_text limit (print_item f) c) _ e' in
    let behind = print_items-pos limit (suc i) fs d b' e'' in
    omega (
      arith,
      behind,
      print_text-pos limit (print_item f) c d printed,
      separate-pos limit i b c separated,
      joined-length i f fs,
    )

below : (n m : ℕ) (t u : Bytes) → (if ltb n m then some t else none) ≡ some u → n < m
below n m t u e = ground (arith, e)

-- The array of the listed files.
abbrev pub array : List (Option Item) → Bytes
array fs = b'[' ∷ (joined 0 fs ++ b']' ∷ [])

-- The array is printed as a whole exactly if it and its terminator fit into 256 bytes and 1024 for each
-- file; if they do not, something is written behind the end of the buffer.
pub list_files-array :
    (fs : List (Option Item))
    → list_files fs
      ≡ (if leb (length (array fs) + 1) (256 + length fs * 1024) then some (array fs) else none)
unfolding list_files
list_files-array fs =
    if_cases (λ t. list_files fs ≡ t) (leb (length (array fs) + 1) (256 + length fs * 1024))
      (λ k. fits (ground (arith, k))) (λ k. overruns (list_files fs) refl (ground (arith, k)))
  where
    start : Buffer
    start = record { text = b'[' ∷ []; pos = 0 + 1 }

    size : length (array fs) ≡ length (joined 0 fs) + 2
    size = omega (arith, length-append (joined 0 fs) (b']' ∷ []))

    fits : length (array fs) + 1 ≤ 256 + length fs * 1024 → list_files fs ≡ some (array fs)
    fits h =
        rw
          (
            put_byte-fits (256 + length fs * 1024) b'[' (record { text = []; pos = 0 })
                (omega arith),
            print_items-fits (256 + length fs * 1024) 0 fs start (omega (arith, h, size)),
            put_byte-fits (256 + length fs * 1024) b']' (advanced (joined 0 fs) start)
                (omega (arith, h, size)),
          )
          (let room : 1 + length (joined 0 fs) + 1 < 256 + length fs * 1024 =
              omega (arith, h, size) in
            ground (arith, room))

    overruns :
        (o : Option Bytes)
        → list_files fs ≡ o
        → 256 + length fs * 1024 < length (array fs) + 1
        → o ≡ none
    overruns none e h = refl
    overruns (some t) e h =
        let (b, opened, e1) =
          >>=-eq-some (put_byte (256 + length fs * 1024) b'[' (record { text = []; pos = 0 })) _
            e in
        let (c, printed, e2) = >>=-eq-some (print_items (256 + length fs * 1024) 0 fs b) _ e1 in
        let (d, closed, e3) = >>=-eq-some (put_byte (256 + length fs * 1024) b']' c) _ e2 in
        absurd (
          omega (
            arith,
            h,
            size,
            below d.pos (256 + length fs * 1024) d.text t e3,
            put_byte-pos (256 + length fs * 1024) b'[' _ b opened,
            print_items-pos (256 + length fs * 1024) 0 fs b c printed,
            put_byte-pos (256 + length fs * 1024) b']' c d closed,
          ))
