-- ===== src/Files/Name/Parents.antt =====
-- native/freerdp-helper/src/cliprdr_file.c: ensure_parent_dirs, on a build that is not for Windows. It
-- is what the log of Files notes as `make_parents`.
use rdp_mcp.Prelude.{
  ℕ, ◌≡◌, refl, sym, Bool, true, Option, none, some, List, [], ◌∷◌, ◌++◌, append_assoc, append-nil,
  if_intro, Bytes, ◌==◌, if◌then◌else◌, subst,
}
use mathlib.Core.List.{Mem, mem-cons_self, mem-cons_of_mem}

-- `strrchr(dir, '/')`: what is before the last slash.
unfoldable pub before_last : Bytes → Option Bytes
before_last [] = none
before_last (c ∷ cs) = elim (before_last cs) [
  | some front ↦ some (c ∷ front)
  | none ↦ if c == b'/' then some [] else none
]

-- The loop over the rest of the directory; `front` is what `p` has passed. Each call of mkdir is listed.
unfoldable pub make_each : Bytes → Bytes → List Bytes
make_each front [] = front ∷ []
make_each front (c ∷ cs) =
    let rest = make_each (front ++ c ∷ []) cs in if c == b'/' then front ∷ rest else rest

-- The directories that are made, in order, if `strdup` succeeds; a slash at the start has none before
-- it.
unfoldable pub ensure_parent_dirs : Bool → Bytes → List Bytes
ensure_parent_dirs allocated path =
    if allocated
    then elim (before_last path) [
      | none ↦ []
      | some [] ↦ []
      | some (c ∷ dir) ↦ make_each (c ∷ []) dir
    ]
    else []

-- What is before the last slash of a path with a slash in it.
behind : Bytes → Option Bytes → Bytes
behind front none = front
behind front (some rest) = front ++ b'/' ∷ rest

before_last-append :
    (front rest : Bytes)
    → before_last (front ++ b'/' ∷ rest) ≡ some (behind front (before_last rest))
unfolding before_last behind
before_last-append [] rest = by_rest (before_last rest)
  where
    by_rest :
        (o : Option Bytes)
        → (elim o [ some r ↦ some (b'/' ∷ r) | none ↦ some [] ]) ≡ some (behind [] o)
    by_rest none = refl
    by_rest (some r) = refl
before_last-append (c ∷ cs) rest = rw (before_last-append cs rest) (by_rest (before_last rest))
  where
    by_rest : (o : Option Bytes) → some (c ∷ behind cs o) ≡ some (behind (c ∷ cs) o)
    by_rest none = refl
    by_rest (some r) = refl

make_each-last : (front dir : Bytes) → Mem (front ++ dir) (make_each front dir)
unfolding make_each
make_each-last front [] = subst (λ f. Mem f (front ∷ [])) (sym (append-nil front)) mem-cons_self
make_each-last front (c ∷ cs) =
    let rest = make_each-last (front ++ c ∷ []) cs in
    let same = append_assoc front (c ∷ []) cs in
    if_intro (Mem (front ++ c ∷ cs)) (c == b'/')
      (mem-cons_of_mem front (subst (λ f. Mem f (make_each (front ++ c ∷ []) cs)) same rest))
      (subst (λ f. Mem f (make_each (front ++ c ∷ []) cs)) same rest)

make_each-between : (front f rest : Bytes) → Mem (front ++ f) (make_each front (f ++ b'/' ∷ rest))
unfolding make_each
make_each-between front [] rest =
    subst (λ f. Mem f (make_each front (b'/' ∷ rest))) (sym (append-nil front)) mem-cons_self
make_each-between front (c ∷ cs) rest =
    let later = make_each-between (front ++ c ∷ []) cs rest in
    let same = append_assoc front (c ∷ []) cs in
    if_intro (Mem (front ++ c ∷ cs)) (c == b'/')
      (mem-cons_of_mem front
        (subst (λ f. Mem f (make_each (front ++ c ∷ []) (cs ++ b'/' ∷ rest))) same later))
      (subst (λ f. Mem f (make_each (front ++ c ∷ []) (cs ++ b'/' ∷ rest))) same later)

-- Whatever is before a slash of the path is made, other than nothing: every directory above the file,
-- given by a path with any slashes, is asked for.
pub ensure_parent_dirs-mem :
    (c : ℕ) (front rest : Bytes)
    → Mem (c ∷ front) (ensure_parent_dirs true (c ∷ (front ++ b'/' ∷ rest)))
unfolding ensure_parent_dirs behind
ensure_parent_dirs-mem c front rest =
    rw (before_last-append (c ∷ front) rest) (by_rest (before_last rest))
  where
    by_rest :
        (o : Option Bytes)
        → Mem
            (c ∷ front)
            (elim (behind (c ∷ front) o) [ [] ↦ [] | d ∷ dir ↦ make_each (d ∷ []) dir ])
    by_rest none = make_each-last (c ∷ []) front
    by_rest (some r) = make_each-between (c ∷ []) front r
