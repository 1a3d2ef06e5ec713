-- ===== src/Pointer/Shape.antt =====
-- The pointers of pointer.c and their images.
use native.Mathlib.Nat.{mul-le-mul_right, mul-le-mul_left}
use rdp_mcp.Prelude.{
  ℕ, zero, suc, ◌*◌, ◌≤◌, ◌<◌, ◌≡◌, refl, ◌∙◌, ap, sym, Bool, true, false, not, ◌||◌, Option, none,
  some, Bytes, get_elem?, set, length, if◌then◌else◌, if_intro, if_cases, arith, All, All-set,
  IfSome,
}
use rdp_mcp.Pointer.{
  ConduitPointer, Pointers, Env, zeros, bad_size, load_image, cb_pointer_new, cb_pointer_free,
  Event, new,
}

-- The pixels of a cursor of a size that browsers and CSS take.
abbrev pub IsShape : ℕ → ℕ → Bytes → Type 0
IsShape w h px = (0 < w) × (w ≤ 384) × (0 < h) × (h ≤ 384) × (length px ≡ w * h * 4)

abbrev pub HasImage : ConduitPointer → Option Bytes → Type 0
HasImage p none = Unit
HasImage p (some px) = IsShape p.width p.height px × (p.rgba_size ≡ length px)

abbrev pub IsPointer : ConduitPointer → Type 0
IsPointer p = HasImage p p.rgba_data

-- The conversion fills the buffer that it is given.
abbrev pub Converts : Event → Type 0
Converts (new e k) = (b : Bytes) → IfSome (λ px. length px ≡ length b) (e.copy_from_pointer_data b)
Converts _ = Unit

pub small_image : (w h : ℕ) (px : Bytes) → IsShape w h px → length px ≤ 589824
small_image w h px (a, b, c, d, e) = omega (arith, e, mul-le-mul_right h b, mul-le-mul_left 384 d)

zeros-length : (n : ℕ) → length (zeros n) ≡ n
zeros-length zero = refl
zeros-length (suc n) = ap suc (zeros-length n)

-- The pointers stay good, and nothing is sent.
abbrev pub Keeps : Pointers → Pointers → Type 0
Keeps s t = All IsPointer t.pointers × (t.output ≡ s.output)

abbrev pub KeepsAfter : Pointers → Pointers × Bool → Type 0
KeepsAfter s r = Keeps s r.0

load-Keeps :
    (e : Env) (k : ℕ) (p : ConduitPointer) (s : Pointers)
    → Converts (new e k)
    → bad_size p ≡ false
    → All IsPointer s.pointers
    → KeepsAfter s (load_image e k p s)
unfolding load_image
load-Keeps e k p s converts good h =
    if_intro (KeepsAfter s) (not e.allocates) (h, refl)
      (by_image (e.copy_from_pointer_data (zeros size)) (converts (zeros size)))
  where
    size : ℕ
    size = p.width * p.height * 4

    loaded : Bytes → ConduitPointer
    loaded px = record p { rgba_data = some px; rgba_size = size }

    by_image :
        (o : Option Bytes)
        → IfSome (λ px. length px ≡ length (zeros size)) o
        → KeepsAfter s (elim o [
          | none ↦ (s, false)
          | some px ↦ (record s { pointers = set s.pointers k (loaded px) }, true)
        ])
    by_image none full = (h, refl)
    by_image (some px) full =
        let whole : length px ≡ size = full ∙ zeros-length size in
        let shape : IsShape p.width p.height px = (
          ground (arith, good),
          ground (arith, good),
          ground (arith, good),
          ground (arith, good),
          whole,
        ) in
        (All-set IsPointer s.pointers k (loaded px) h (shape, sym whole), refl)

pub new-Keeps :
    (e : Env) (k : ℕ) (s : Pointers)
    → Converts (new e k)
    → All IsPointer s.pointers
    → KeepsAfter s (cb_pointer_new e k s)
unfolding cb_pointer_new
new-Keeps e k s converts h = found (get_elem? s.pointers k)
  where
    found :
        (o : Option ConduitPointer)
        → KeepsAfter s (elim o [
          | none ↦ (s, false)
          | some p ↦ if not e.gdi || bad_size p then (s, false) else load_image e k p s
        ])
    found none = (h, refl)
    found (some p) =
        if_cases (KeepsAfter s) (not e.gdi || bad_size p) (λ t. (h, refl))
          (λ t. load-Keeps e k p s converts (ground (arith, t)) h)

pub free-Keeps : (k : ℕ) (s : Pointers) → All IsPointer s.pointers → Keeps s (cb_pointer_free k s)
unfolding cb_pointer_free
free-Keeps k s h = found (get_elem? s.pointers k)
  where
    freed : ConduitPointer → ConduitPointer
    freed p = record p { rgba_data = none; rgba_size = 0 }

    found :
        (o : Option ConduitPointer)
        → Keeps s
            (elim o [ none ↦ s | some p ↦ record s { pointers = set s.pointers k (freed p) } ])
    found none = (h, refl)
    found (some p) = (All-set IsPointer s.pointers k (freed p) h tt, refl)
