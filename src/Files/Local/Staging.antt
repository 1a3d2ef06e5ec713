-- ===== src/Files/Local/Staging.antt =====
-- What cliprdr_file_set_local_files of cliprdr_file.c stages.
use rdp_mcp.Prelude.{
  ℕ, zero, suc, ◌+◌, ◌*◌, ◌%◌, ◌≤◌, ◌<◌, ◌≡◌, ◌≢◌, refl, ap, ◌∙◌, Bool, true, Option, none, some,
  List, [], ◌∷◌, Bytes, All, get_elem?, set, length, length-take, length-set, take, map, arith, ltb,
  if◌then◌else◌, ◌==◌, if_cases, if_intro, not, ◌&&◌, subst, sym, ◌||◌, Bool-cases, inl, inr,
}
use rdp_mcp.Json.{CJson}
use rdp_mcp.Files.Local.Bounds.{rejects}
use rdp_mcp.Files.{
  emit, contents_failed, contents_size, contents_range, upload_progress, free_local_files, Files,
  LocalFileEntry, max_local_files,
}
use rdp_mcp.Files.Local.{
  Disk, FileRequest, cb_server_file_contents_request, serve_entry, serve_range, count_served,
  wide_name, describe, entry_of, entries_of, keep_some, array_of, cliprdr_file_set_local_files,
  cliprdr_file_clear_local_files,
}

-- A name on the wire: at most 259 units, and no slash.
abbrev pub WireName : List ℕ → Type 0
WireName w = (length w ≤ 259) × All (λ c. c ≢ b'/') w

abbrev backslashes : List ℕ → List ℕ
backslashes w = map (λ c. if c == b'/' then b'\\' else c) w

no_slash : (w : List ℕ) → All (λ c. c ≢ b'/') (backslashes w)
no_slash [] = tt
no_slash (c ∷ w) = (λ e. ground arith, no_slash w)

length-backslashes : (w : List ℕ) → length (backslashes w) ≡ length w
length-backslashes [] = refl
length-backslashes (c ∷ w) = ap suc (length-backslashes w)

wide_name-WireName :
    (to_wide : Bytes → Option (List ℕ)) (name : Bytes) → WireName (wide_name to_wide name)
unfolding wide_name
wide_name-WireName to_wide name = cases (to_wide name)
  where
    cases :
        (o : Option (List ℕ)) → WireName (elim o [ none ↦ [] | some w ↦ backslashes (take 259 w) ])
    cases none = (omega arith, tt)
    cases (some w) =
        (omega (arith, length-backslashes (take 259 w), length-take 259 w), no_slash (take 259 w))

-- The descriptor of a file below 2 ^ 64 bytes carries its size in two 32-bit halves, 0 for a
-- directory, and the directory bit; its name has at most 259 units and no slash.
pub describe_lem :
    (to_wide : Bytes → Option (List ℕ)) (f : LocalFileEntry)
    → f.size < 18446744073709551616
    → let d = describe to_wide f in
      (d.size_high * 4294967296 + d.size_low ≡ (if f.is_directory then 0 else f.size))
      × (d.size_high < 4294967296)
      × (d.size_low < 4294967296)
      × (d.is_directory ≡ f.is_directory)
      × WireName d.file_name
unfolding describe
describe_lem to_wide f h =
    let name = wide_name-WireName to_wide f.name in
    elim (Bool-cases f.is_directory) [
      | inl dir ↦ rw dir (refl, omega arith, omega arith, refl, name)
      | inr file ↦ rw file (omega arith, omega arith, omega arith, refl, name)
    ]

-- At most 256 files are staged, each with its descriptor.
abbrev pub Staged : (Bytes → Option (List ℕ)) → Files → Type 0
Staged to_wide s =
    (length s.local_files ≤ max_local_files)
    × (s.local_descriptors ≡ map (describe to_wide) s.local_files)

-- The calls that change which files are staged.
pub data Change : Type 0 where
  set_local_files : Bool → Option Bytes → Change
  clear_local_files : Change

-- The calls that reach the staged files. While a request is served, other threads may change them
-- between its two critical sections.
pub data LocalEvent : Type 0 where
  change : Change → LocalEvent
  contents_request : List Change → Disk → FileRequest → LocalEvent

-- What holds of the value of a result.
carry {ℓ κ} : {A : Type ℓ} (P : A → Type κ) {a b : A} → some a ≡ some b → P a → P b
carry P {a} e p = subst P (ap (λ o. elim o [ none ↦ a | some c ↦ c ]) e) p

map-set :
    (to_wide : Bytes → Option (List ℕ)) (fs : List LocalFileEntry) (i n : ℕ) (f : LocalFileEntry)
    → get_elem? fs i ≡ some f
    → map (describe to_wide) (set fs i (record f { bytes_served = n })) ≡ map (describe to_wide) fs
unfolding describe
map-set to_wide [] i n f at = refl
map-set to_wide (x ∷ fs) zero n f at = sym (
    carry
      (λ y.
        describe to_wide x ∷ map (describe to_wide) fs
        ≡ describe to_wide y ∷ map (describe to_wide) fs)
      at refl)
map-set to_wide (x ∷ fs) (suc i) n f at =
    ap (◌∷◌ (describe to_wide x)) (map-set to_wide fs i n f at)

-- A function that keeps the files staged.
abbrev Keeps : (Bytes → Option (List ℕ)) → (Files → Files) → Type 0
Keeps to_wide between = (s : Files) → Staged to_wide s → Staged to_wide (between s)

abbrev StagedIn : (Bytes → Option (List ℕ)) → Option Files → Type 0
StagedIn to_wide none = Unit
StagedIn to_wide (some t) = Staged to_wide t

count-Staged :
    (to_wide : Bytes → Option (List ℕ)) (r : FileRequest) (bs : Bytes) (s : Files)
    → Staged to_wide s
    → StagedIn to_wide (count_served r bs s)
unfolding count_served
count-Staged to_wide r bs s h = by_file (get_elem? s.local_files r.list_index) refl
  where
    by_file :
        (o : Option LocalFileEntry)
        → get_elem? s.local_files r.list_index ≡ o
        → StagedIn to_wide (elim o [
          | none ↦ none
          | some f ↦
              let served = (f.bytes_served + length bs) % 18446744073709551616 in
              some (record s {
                local_files = set s.local_files r.list_index (record f { bytes_served = served });
                effects =
                    contents_range r.stream_id bs
                    ∷ upload_progress r.list_index served f.size (length s.local_files)
                    ∷ s.effects;
              })
        ])
    by_file none at = tt
    by_file (some f) at =
        let served = (f.bytes_served + length bs) % 18446744073709551616 in
        (
          omega (
            arith,
            h.0,
            length-set s.local_files r.list_index (record f { bytes_served = served }),
          ),
          h.1 ∙ sym (map-set to_wide s.local_files r.list_index served f at),
        )

serve-Staged :
    (to_wide : Bytes → Option (List ℕ)) (between : Files → Files) (disk : Disk) (r : FileRequest)
    (path : Bytes) (s : Files)
    → Keeps to_wide between
    → Staged to_wide s
    → StagedIn to_wide (serve_entry between disk r path s)
unfolding serve_entry serve_range
serve-Staged to_wide between disk r path s keeps h =
    let In = StagedIn to_wide in
    if_intro In r.wants_size (sized (disk.stat_size path)) (
      if_intro In r.wants_range
        (if_intro In (not (disk.opens path)) h (
          if_intro In (not (disk.seeks && disk.allocates)) (keeps s h) (
            count-Staged to_wide r
              (disk.read path (r.position_high * 4294967296 + r.position_low) r.cb_requested)
              (between s) (keeps s h))))
        h)
  where
    sized :
        (o : Option ℕ)
        → StagedIn to_wide (elim o [
          | none ↦ some (emit (contents_failed r.stream_id) s)
          | some n ↦ some (emit (contents_size r.stream_id n) s)
        ])
    sized none = h
    sized (some n) = h

request-Staged :
    (to_wide : Bytes → Option (List ℕ)) (between : Files → Files) (disk : Disk) (r : FileRequest)
    (s : Files)
    → Keeps to_wide between
    → Staged to_wide s
    → StagedIn to_wide (cb_server_file_contents_request between disk r s)
unfolding cb_server_file_contents_request
request-Staged to_wide between disk r s keeps h =
    if_intro (StagedIn to_wide) (rejects r s) h (by_file (get_elem? s.local_files r.list_index))
  where
    by_file :
        (o : Option LocalFileEntry)
        → StagedIn to_wide (elim o [ none ↦ none | some f ↦ serve_entry between disk r f.path s ])
    by_file none = tt
    by_file (some f) = serve-Staged to_wide between disk r f.path s keeps h

module _ {Item : Type 0} (json : CJson Item) (to_wide : Bytes → Option (List ℕ)) where
  length-keep_some :
      (o : Option LocalFileEntry) (fs : List LocalFileEntry)
      → length (keep_some json to_wide o fs) ≤ suc (length fs)
  length-keep_some none fs = omega arith
  length-keep_some (some f) fs = omega arith

  length-entries_of : (items : List Item) → length (entries_of json to_wide items) ≤ length items
  unfolding entries_of
  length-entries_of [] = omega arith
  length-entries_of (item ∷ items) = omega (
    arith,
    length-entries_of items,
    length-keep_some (entry_of json to_wide item) (entries_of json to_wide items),
  )

  set-Staged :
      (allocated : Bool) (text : Option Bytes) (s : Files)
      → Staged to_wide s
      → Staged to_wide (cliprdr_file_set_local_files json to_wide allocated text s)
  unfolding cliprdr_file_set_local_files
  set-Staged allocated text s h = go (array_of json to_wide text)
    where
      go :
          (o : Option (List Item))
          → Staged to_wide (elim o [
            | none ↦ s
            | some items ↦
                if length items == 0 || ltb max_local_files (length items) || not allocated
                then free_local_files s
                else record s {
                  local_allocated = true;
                  local_files = entries_of json to_wide items;
                  local_descriptors = map (describe to_wide) (entries_of json to_wide items);
                }
          ])
      go none = h
      go (some items) =
          if_cases (Staged to_wide)
            (length items == 0 || ltb max_local_files (length items) || not allocated)
            (λ e. (omega arith, refl)) (λ e. (ground (arith, length-entries_of items), refl))

  abbrev pub changed : Change → Files → Files
  changed (set_local_files allocated text) s =
      cliprdr_file_set_local_files json to_wide allocated text s
  changed clear_local_files s = cliprdr_file_clear_local_files s

  abbrev pub all_changed : List Change → Files → Files
  all_changed [] s = s
  all_changed (c ∷ cs) s = all_changed cs (changed c s)

  -- What one call makes of the state; `none` is an access outside the array.
  abbrev pub local_step : LocalEvent → Files → Option Files
  local_step (change c) s = some (changed c s)
  local_step (contents_request cs disk r) s =
      cb_server_file_contents_request (all_changed cs) disk r s

  changed-Staged : (c : Change) → Keeps to_wide (changed c)
  changed-Staged (set_local_files allocated text) s h = set-Staged allocated text s h
  changed-Staged clear_local_files s h =
      unfold cliprdr_file_clear_local_files in (omega arith, refl)

  all-Staged : (cs : List Change) → Keeps to_wide (all_changed cs)
  all-Staged [] s h = h
  all-Staged (c ∷ cs) s h = all-Staged cs (changed c s) (changed-Staged c s h)

  -- Whatever JSON the embedding program stages, whether memory is there, whatever the server then asks
  -- for, and whatever is staged or cleared while a request is served: at most 256 files are staged, and
  -- the descriptors that the server is given are those of the files that it is served, in the same
  -- order, as long as this holds before the call.
  pub local_step-Staged :
      (e : LocalEvent) (s t : Files) → local_step e s ≡ some t → Staged to_wide s → Staged to_wide t
  local_step-Staged (change c) s t e h = carry (Staged to_wide) e (changed-Staged c s h)
  local_step-Staged (contents_request cs disk r) s t e h =
      subst (StagedIn to_wide) e
        (request-Staged to_wide (all_changed cs) disk r s (all-Staged cs) h)
