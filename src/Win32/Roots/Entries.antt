-- ===== src/Win32/Roots/Entries.antt =====
-- What root_of takes of an entry of a download in cliprdr_file.c: the first part of its path.
use rdp_mcp.Prelude.{
  ◌==◌, ◌+◌, ◌<◌, drop, ap, leb, not, ◌≤◌, Bool, length, ◌⊎◌, inl, inr, ℕ, ◌≡◌, refl, true, false,
  ◌||◌, Option, none, some, [], ◌∷◌, ◌++◌, Bytes, if◌then◌else◌, if_cases, arith,
}
use rdp_mcp.Files.{DownloadEntry}
use rdp_mcp.Win32.Roots.{before_first, root_name, root_of}

-- No byte of a text is `c`.
abbrev pub Lacks : ℕ → Bytes → Type 0
Lacks c [] = Unit
Lacks c (b ∷ bs) = ((b == c) ≡ false) × Lacks c bs

-- `front` is what stands before the first `c`.
abbrev pub EndsAt : ℕ → Bytes → Bytes → Type 0
EndsAt c bs front = Lacks c front × ((rest : Bytes) × (bs ≡ front ++ c ∷ rest))

-- The first part of a path below the temporary directory: what stands before the first backslash; where
-- there is none, what stands before the first slash; where there is none of both, the whole.
abbrev pub FirstPart : Bytes → Bytes → Type 0
FirstPart rel r =
    EndsAt b'\\' rel r ⊎ (Lacks b'\\' rel × (EndsAt b'/' rel r ⊎ (Lacks b'/' rel × (rel ≡ r))))

-- A complete entry whose path goes on behind the temporary directory and its separator.
abbrev pub IsRoot : ℕ → DownloadEntry → Bytes → Type 0
IsRoot n d r =
    (d.complete ≡ true)
    × ((path : Bytes) × (d.temp_path ≡ some path)
        × (n + 1 < length path)
        × FirstPart (drop (n + 1) path) r)

-- An entry that is not complete, or that does not lie below the temporary directory.
abbrev pub IsOutside : ℕ → DownloadEntry → Type 0
IsOutside n d =
    (d.complete ≡ false)
    ⊎ ((d.temp_path ≡ none) ⊎ ((path : Bytes) × (d.temp_path ≡ some path) × (length path ≤ n + 1)))

abbrev Cut : ℕ → Bytes → Option Bytes → Type 0
Cut c bs none = Lacks c bs
Cut c bs (some front) = EndsAt c bs front

before_first-Cut : (c : ℕ) (bs : Bytes) → Cut c bs (before_first c bs)
unfolding before_first
before_first-Cut c [] = tt
before_first-Cut c (b ∷ bs) = by_byte (b == c) refl (before_first c bs) (before_first-Cut c bs)
  where
    by_byte :
        (k : Bool)
        → (b == c) ≡ k
        → (o : Option Bytes) → Cut c bs o
        → Cut c
            (b ∷ bs)
            (if k then some [] else elim o [ none ↦ none | some front ↦ some (b ∷ front) ])
    by_byte true e o h = (tt, (bs, ap (λ x. x ∷ bs) (ground (arith, e))))
    by_byte false e none h = (e, h)
    by_byte false e (some front) (lacks, (rest, same)) =
        ((e, lacks), (rest, ap (λ xs. b ∷ xs) same))

root_name-FirstPart : (rel : Bytes) → FirstPart rel (root_name rel)
unfolding root_name
root_name-FirstPart rel =
    by_backslash (before_first b'\\' rel) (before_first-Cut b'\\' rel) (before_first b'/' rel)
      (before_first-Cut b'/' rel)
  where
    by_backslash :
        (o : Option Bytes)
        → Cut b'\\' rel o
        → (p : Option Bytes) → Cut b'/' rel p
        → FirstPart rel
            (elim o [ some front ↦ front | none ↦ elim p [ some front ↦ front | none ↦ rel ] ])
    by_backslash (some front) h p k = inl h
    by_backslash none h (some front) k = inr (h, inl k)
    by_backslash none h none k = inr (h, inr (k, refl))

-- What root_of finds of an entry.
abbrev pub Found : ℕ → DownloadEntry → Option Bytes → Type 0
Found n d none = IsOutside n d
Found n d (some r) = IsRoot n d r

pub root_of-Found : (n : ℕ) (d : DownloadEntry) → Found n d (root_of n d)
unfolding root_of
root_of-Found n d = by_path d.temp_path refl d.complete refl
  where
    by_path :
        (o : Option Bytes)
        → d.temp_path ≡ o
        → (b : Bool) → d.complete ≡ b
        → Found n d (elim o [
          | none ↦ none
          | some path ↦
              if not b || leb (length path) (n + 1)
              then none
              else some (root_name (drop (n + 1) path))
        ])
    by_path none e b k = inr (inl e)
    by_path (some path) e false k = inl k
    by_path (some path) e true k =
        if_cases (Found n d) (leb (length path) (n + 1))
          (λ short. inr (inr (path, e, ground (arith, short))))
          (λ long. (k, (path, e, ground (arith, long), root_name-FirstPart (drop (n + 1) path))))
