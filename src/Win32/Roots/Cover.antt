-- ===== src/Win32/Roots/Cover.antt =====
-- The roots of a download that cliprdr_file.c places on the Windows clipboard.
use rdp_mcp.Prelude.{
  ◌⊎◌, inl, inr, if_intro, ℕ, ◌≡◌, refl, true, false, ◌||◌, Option, none, some, List, [], ◌∷◌, ◌++◌,
  Bytes, same_text, same_text_refl, if◌then◌else◌, if_cases, All, IfSome, arith,
}
use rdp_mcp.Files.{DownloadEntry}
use rdp_mcp.Win32.Roots.{root_of, already_seen, root_names}
use rdp_mcp.Win32.Roots.Entries.{IsRoot, IsOutside, Found, root_of-Found}

abbrev Unseen : List Bytes → Bytes → Type 0
Unseen seen r = already_seen r seen ≡ false

already_seen-append :
    (r s : Bytes) (seen : List Bytes)
    → already_seen r (seen ++ s ∷ []) ≡ (already_seen r seen || same_text s r)
unfolding already_seen
already_seen-append r s [] = ground arith
already_seen-append r s (t ∷ ts) = ground (arith, already_seen-append r s ts)

-- No text twice.
abbrev pub Distinct : List Bytes → Type 0
Distinct [] = Unit
Distinct (r ∷ rs) = (already_seen r rs ≡ false) × Distinct rs

same_text_sym : (s t : Bytes) → same_text s t ≡ same_text t s
same_text_sym [] [] = refl
same_text_sym [] (d ∷ t) = refl
same_text_sym (c ∷ s) [] = refl
same_text_sym (c ∷ s) (d ∷ t) = ground (arith, same_text_sym s t)

-- A root found now is unseen, and so are the others when it is seen.
Unseen-behind :
    (r : Bytes) (seen rs : List Bytes)
    → All (Unseen (seen ++ r ∷ [])) rs
    → All (Unseen seen) rs × (already_seen r rs ≡ false)
unfolding already_seen
Unseen-behind r seen [] h = (tt, refl)
Unseen-behind r seen (s ∷ ss) h =
    let (behind, new) = Unseen-behind r seen ss h.1 in
    let parts = already_seen-append s r seen in
    ((ground (arith, h.0, parts), behind), ground (arith, h.0, parts, same_text_sym r s, new))

Good : ℕ → List Bytes → List Bytes → Type 0
Good n seen rs = All (Unseen seen) rs × Distinct rs

names-Good :
    (n : ℕ) (seen : List Bytes) (ds : List DownloadEntry) → Good n seen (root_names n seen ds)
unfolding root_names Good
names-Good n seen [] = (tt, tt)
names-Good n seen (d ∷ ds) =
    by_root (names-Good n seen ds) (λ r. names-Good n (seen ++ r ∷ []) ds) (root_of n d)
  where
    by_root :
        Good n seen (root_names n seen ds)
        → ((r : Bytes) → Good n (seen ++ r ∷ []) (root_names n (seen ++ r ∷ []) ds))
        → (o : Option Bytes)
        → Good n seen (elim o [
          | none ↦ root_names n seen ds
          | some r ↦
              if already_seen r seen
              then root_names n seen ds
              else r ∷ root_names n (seen ++ r ∷ []) ds
        ])
    by_root passed found none = passed
    by_root passed found (some r) =
        if_cases (Good n seen) (already_seen r seen) (λ k. passed)
          (λ k.
            let (behind, new) =
              Unseen-behind r seen (root_names n (seen ++ r ∷ []) ds) (found r).0 in
            ((k, behind), (new, (found r).1)))

-- The root of an entry is among the names, or was seen before.
abbrev pub Covered : ℕ → List Bytes → List Bytes → DownloadEntry → Type 0
Covered n seen rs d = IfSome (λ r. (already_seen r seen || already_seen r rs) ≡ true) (root_of n d)

Covered-step :
    (n : ℕ) (r : Bytes) (seen rs : List Bytes) (ds : List DownloadEntry)
    → All (Covered n (seen ++ r ∷ []) rs) ds
    → All (Covered n seen (r ∷ rs)) ds
unfolding already_seen
Covered-step n r seen rs [] h = tt
Covered-step n r seen rs (d ∷ ds) h = (by_root (root_of n d) h.0, Covered-step n r seen rs ds h.1)
  where
    by_root :
        (o : Option Bytes)
        → IfSome (λ x. (already_seen x (seen ++ r ∷ []) || already_seen x rs) ≡ true) o
        → IfSome (λ x. (already_seen x seen || already_seen x (r ∷ rs)) ≡ true) o
    by_root none h = tt
    by_root (some x) h = ground (arith, h, already_seen-append x r seen)

names-Covered :
    (n : ℕ) (seen : List Bytes) (ds : List DownloadEntry)
    → All (Covered n seen (root_names n seen ds)) ds
unfolding root_names already_seen
names-Covered n seen [] = tt
names-Covered n seen (d ∷ ds) =
    by_root (names-Covered n seen ds) (λ r. names-Covered n (seen ++ r ∷ []) ds) (root_of n d) refl
  where
    names : Option Bytes → List Bytes
    names o = elim o [
      | none ↦ root_names n seen ds
      | some r ↦
          if already_seen r seen then root_names n seen ds else r ∷ root_names n (seen ++ r ∷ []) ds
    ]

    by_root :
        All (Covered n seen (root_names n seen ds)) ds
        → ((r : Bytes) → All (Covered n (seen ++ r ∷ []) (root_names n (seen ++ r ∷ []) ds)) ds)
        → (o : Option Bytes) → root_of n d ≡ o
        → All (Covered n seen (names o)) (d ∷ ds)
    by_root passed found none e = (rw (e) tt, passed)
    by_root passed found (some r) e =
        if_cases (λ rs. All (Covered n seen rs) (d ∷ ds)) (already_seen r seen)
          (λ k. (rw (e) (ground (arith, k)), passed))
          (λ k. (
            rw (e) (ground (arith, k, same_text_refl r)),
            Covered-step n r seen (root_names n (seen ++ r ∷ []) ds) ds (found r),
          ))

-- A text is the root of one of the entries.
abbrev pub RootOf : ℕ → List DownloadEntry → Bytes → Type 0
RootOf n [] r = ⊥
RootOf n (d ∷ ds) r = IsRoot n d r ⊎ RootOf n ds r

RootOf-cons :
    (n : ℕ) (d : DownloadEntry) (ds : List DownloadEntry) (rs : List Bytes)
    → All (RootOf n ds) rs
    → All (RootOf n (d ∷ ds)) rs
RootOf-cons n d ds [] h = tt
RootOf-cons n d ds (r ∷ rs) h = (inr h.0, RootOf-cons n d ds rs h.1)

names-RootOf :
    (n : ℕ) (seen : List Bytes) (ds : List DownloadEntry) → All (RootOf n ds) (root_names n seen ds)
unfolding root_names
names-RootOf n seen [] = tt
names-RootOf n seen (d ∷ ds) =
    by_root (names-RootOf n seen ds) (λ r. names-RootOf n (seen ++ r ∷ []) ds) (root_of n d)
      (root_of-Found n d)
  where
    by_root :
        All (RootOf n ds) (root_names n seen ds)
        → ((r : Bytes) → All (RootOf n ds) (root_names n (seen ++ r ∷ []) ds))
        → (o : Option Bytes) → Found n d o
        → All (RootOf n (d ∷ ds)) (elim o [
          | none ↦ root_names n seen ds
          | some r ↦
              if already_seen r seen
              then root_names n seen ds
              else r ∷ root_names n (seen ++ r ∷ []) ds
        ])
    by_root passed found none e = RootOf-cons n d ds _ passed
    by_root passed found (some r) e =
        if_intro (All (RootOf n (d ∷ ds))) (already_seen r seen) (RootOf-cons n d ds _ passed)
          (inl e, RootOf-cons n d ds _ (found r))

-- An entry lies outside, or one of the names is its root.
abbrev pub IsPlaced : ℕ → List Bytes → DownloadEntry → Type 0
IsPlaced n rs d = IsOutside n d ⊎ ((r : Bytes) × IsRoot n d r × (already_seen r rs ≡ true))

Covered→IsPlaced :
    (n : ℕ) (rs : List Bytes) (ds : List DownloadEntry)
    → All (Covered n [] rs) ds
    → All (IsPlaced n rs) ds
unfolding already_seen
Covered→IsPlaced n rs [] h = tt
Covered→IsPlaced n rs (d ∷ ds) h =
    (by_root (root_of n d) (root_of-Found n d) h.0, Covered→IsPlaced n rs ds h.1)
  where
    by_root :
        (o : Option Bytes)
        → Found n d o
        → IfSome (λ r. (already_seen r [] || already_seen r rs) ≡ true) o
        → IsPlaced n rs d
    by_root none f h = inl f
    by_root (some r) f h = inr (r, f, h)

-- The names that are found behind a download, whose paths are placed on the Windows clipboard if they
-- can be converted, are the roots of the complete entries that lie below the temporary directory: each
-- name is the first part of the path of such an entry, none is there twice, and an entry that is not
-- there is not complete or lies outside. The first part ends at the first backslash, and at the first
-- slash only where the path has no backslash.
pub root_names-cover :
    (n : ℕ) (ds : List DownloadEntry)
    → All (RootOf n ds) (root_names n [] ds)
      × Distinct (root_names n [] ds)
      × All (IsPlaced n (root_names n [] ds)) ds
unfolding Good already_seen
root_names-cover n ds = (
  names-RootOf n [] ds,
  (names-Good n [] ds).1,
  Covered→IsPlaced n (root_names n [] ds) ds (names-Covered n [] ds),
)
