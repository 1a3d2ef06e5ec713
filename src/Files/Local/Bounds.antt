-- ===== src/Files/Local/Bounds.antt =====
-- Which entry a request of the server reaches, in cb_server_file_contents_request of
-- cliprdr_file.c.
use rdp_mcp.Prelude.{
  ℕ, ◌+◌, ◌*◌, Bytes, sym, ap, ◌∙◌, Option-cases, refl, if◌then◌else◌, if_cases, leb, ◌&&◌, false,
  is_nil, ◌≤◌, ◌<◌, ◌≡◌, ◌↔◌, Bool, true, false, not, Option, none, some, List, [], ◌∷◌, get_elem?,
  get_elem?-some, get_elem?-none, length, arith, ltb, Bool-cases, inl, inr, ◌⊎◌, pos, leb_ℤ,
  signed32, ◌||◌, ltb→lt,
}
use rdp_mcp.Files.{Files, LocalFileEntry, max_local_files, emit, contents_failed, contents_size}
use rdp_mcp.Files.Local.{
  Disk, FileRequest, cb_server_file_contents_request, serve_entry, serve_range, count_served,
}

abbrev pub rejects : FileRequest → Files → Bool
rejects r s = leb_ℤ (pos (length s.local_files)) (signed32 r.list_index) || not s.local_allocated

some-ne-none {ℓ} : {A : Type ℓ} (t : A) → ¬ (some t ≡ none)
some-ne-none t e = cc

rejects-true :
    (r : FileRequest) (s : Files)
    → length s.local_files ≤ r.list_index
    → r.list_index < 2147483648
    → rejects r s ≡ true
rejects-true r s h k = ground arith

rejects-false :
    (r : FileRequest) (s : Files)
    → s.local_allocated ≡ true
    → length s.local_files ≤ max_local_files
    → r.list_index < 4294967296
    → (r.list_index < length s.local_files) ⊎ (2147483648 ≤ r.list_index)
    → rejects r s ≡ false
rejects-false r s h m k c = ground arith

-- `(int)request->listIndex >= s_local_file_count` lets every index from 2 ^ 31 on pass.
contents_request_large :
    (between : Files → Files) (disk : Disk) (r : FileRequest) (s : Files)
    → length s.local_files ≤ max_local_files
    → r.list_index < 4294967296
    → 2147483648 ≤ r.list_index
    → s.local_allocated ≡ true
    → cb_server_file_contents_request between disk r s ≡ none
unfolding cb_server_file_contents_request
contents_request_large between disk r s h k large staged =
    rw
      (
        rejects-false r s staged h k (inr large),
        get_elem?-none s.local_files r.list_index (omega arith),
      )
      refl

-- An index below 2 ^ 31 is served by the file at that index, or answered by a failure if there is
-- none; where there is no array, there are no files.
contents_request_lem :
    (between : Files → Files) (disk : Disk) (r : FileRequest) (s : Files)
    → length s.local_files ≤ max_local_files
    → (s.local_allocated || is_nil s.local_files) ≡ true
    → r.list_index < 2147483648
    → cb_server_file_contents_request between disk r s
      ≡ elim (get_elem? s.local_files r.list_index) [
        | none ↦ some (emit (contents_failed r.stream_id) s)
        | some f ↦ serve_entry between disk r f.path s
      ]
unfolding cb_server_file_contents_request
contents_request_lem between disk r s h held k =
    elim (Bool-cases (ltb r.list_index (length s.local_files))) [
      | inl inside ↦
          let (f, at) = get_elem?-some s.local_files r.list_index (ltb→lt _ _ inside) in
          rw (
            rejects-false r s (there s.local_files held inside) h (ground arith)
                (inl (ltb→lt _ _ inside)),
            at,
          )
      | inr outside ↦ rw (
        rejects-true r s (ground (arith, outside)) k,
        get_elem?-none s.local_files r.list_index (ground (arith, outside)),
      )
    ]
  where
    there :
        (fs : List LocalFileEntry)
        → (s.local_allocated || is_nil fs) ≡ true
        → ltb r.list_index (length fs) ≡ true
        → s.local_allocated ≡ true
    there [] g inside = ground arith
    there (f ∷ fs) g inside = ground arith

-- What the request comes to.
abbrev pub expected_answer : (Files → Files) → Disk → FileRequest → Files → Option Files
expected_answer between disk r s =
    if leb 2147483648 r.list_index && s.local_allocated
    then none
    else elim (get_elem? s.local_files r.list_index) [
      | none ↦ some (emit (contents_failed r.stream_id) s)
      | some f ↦ serve_entry between disk r f.path s
    ]

contents_request-expected_answer :
    (between : Files → Files) (disk : Disk) (r : FileRequest) (s : Files)
    → length s.local_files ≤ max_local_files
    → (s.local_allocated || is_nil s.local_files) ≡ true
    → r.list_index < 4294967296
    → cb_server_file_contents_request between disk r s ≡ expected_answer between disk r s
contents_request-expected_answer between disk r s few held h =
    if_cases (λ t. cb_server_file_contents_request between disk r s ≡ t)
      (leb 2147483648 r.list_index && s.local_allocated)
      (λ k. contents_request_large between disk r s few h (ground (arith, k)) (ground (arith, k)))
      (λ k. elim (Bool-cases (leb 2147483648 r.list_index)) [
        | inl large ↦ unserved (ground (arith, k, large)) large
        | inr small ↦ contents_request_lem between disk r s few held (ground (arith, small))
      ])
  where
    unserved :
        s.local_allocated ≡ false
        → leb 2147483648 r.list_index ≡ true
        → cb_server_file_contents_request between disk r s
          ≡ elim (get_elem? s.local_files r.list_index) [
            | none ↦ some (emit (contents_failed r.stream_id) s)
            | some f ↦ serve_entry between disk r f.path s
          ]
    unserved unallocated large =
        rw (get_elem?-none s.local_files r.list_index (ground (arith, few, large)))
          (unfold cb_server_file_contents_request in ground (arith, unallocated))

-- The request is for a range of the file, whose bytes can be read, so that the second critical section
-- is entered; and the index is not one of the files that are staged then.
abbrev pub Reenters : (Files → Files) → Disk → FileRequest → Bytes → Files → Type 0
Reenters between disk r path s =
    (r.wants_size ≡ false)
    × (r.wants_range ≡ true)
    × (disk.opens path ≡ true)
    × ((disk.seeks && disk.allocates) ≡ true)
    × (length (between s).local_files ≤ r.list_index)

count_served-eq-none :
    (r : FileRequest) (bs : Bytes) (s : Files)
    → (count_served r bs s ≡ none) ↔ (length s.local_files ≤ r.list_index)
unfolding count_served
count_served-eq-none r bs s = (
  λ e. elim (Bool-cases (ltb r.list_index (length s.local_files))) [
    | inl inside ↦
        let (f, at) = get_elem?-some s.local_files r.list_index (ltb→lt _ _ inside) in
        absurd (some-ne-none _ (rw (at, count_served) at e))
    | inr outside ↦ ground (arith, outside)
  ],
  λ h. rw (get_elem?-none s.local_files r.list_index h, count_served) refl,
)

serve_entry-eq-none :
    (between : Files → Files) (disk : Disk) (r : FileRequest) (path : Bytes) (s : Files)
    → (serve_entry between disk r path s ≡ none) ↔ Reenters between disk r path s
unfolding serve_entry serve_range
serve_entry-eq-none between disk r path s =
    let bs = disk.read path (r.position_high * 4294967296 + r.position_low) r.cb_requested in
    let (outside, stuck) = count_served-eq-none r bs (between s) in
    (
      by_request r.wants_size r.wants_range (disk.opens path) (disk.seeks && disk.allocates)
          (disk.stat_size path) outside,
      λ (size, range, opened, read, gone). rw (size, range, opened, read) (stuck gone),
    )
  where
    by_request :
        (size range opened read : Bool) (o : Option ℕ) {t : Option Files} {A : Type 0}
        → (t ≡ none → A)
        → (if size
            then elim o [
              | none ↦ some (emit (contents_failed r.stream_id) s)
              | some n ↦ some (emit (contents_size r.stream_id n) s)
            ]
            else if range
            then (if not opened
                then some (emit (contents_failed r.stream_id) s)
                else if not read
                then some (emit (contents_failed r.stream_id) (between s))
                else t)
            else some (emit (contents_failed r.stream_id) s))
          ≡ none
        → (size ≡ false) × (range ≡ true) × (opened ≡ true) × (read ≡ true) × A
    by_request true range opened read none g e = absurd (some-ne-none _ e)
    by_request true range opened read (some n) g e = absurd (some-ne-none _ e)
    by_request false false opened read o g e = absurd (some-ne-none _ e)
    by_request false true false read o g e = absurd (some-ne-none _ e)
    by_request false true true false o g e = absurd (some-ne-none _ e)
    by_request false true true true o g e = (refl, refl, refl, refl, g e)

-- A request is answered by a failure if its index is below 2 ^ 31 and not that of a staged file, or if
-- there is no array, and is served by the file at its index otherwise, but for the two ways in which
-- the callback accesses the array outside the staged files: exactly if there is an array and the server
-- sends an index from 2 ^ 31 on, or if the bytes of the file were read and other threads have meanwhile
-- staged or cleared files such that the index is none of theirs. `between` is what they have made of the
-- state while the mutex was left. At the call at most 256 files are staged, and where there is no array,
-- there are none.
pub contents_request-cases :
    (between : Files → Files) (disk : Disk) (r : FileRequest) (s : Files)
    → length s.local_files ≤ max_local_files
    → (s.local_allocated || is_nil s.local_files) ≡ true
    → r.list_index < 4294967296
    → (cb_server_file_contents_request between disk r s ≡ expected_answer between disk r s)
      × ((cb_server_file_contents_request between disk r s ≡ none) ↔ (
          ((2147483648 ≤ r.list_index) × (s.local_allocated ≡ true))
          ⊎ ((f : LocalFileEntry) × (get_elem? s.local_files r.list_index ≡ some f)
              × Reenters between disk r f.path s)))
contents_request-cases between disk r s few held h =
    let same = contents_request-expected_answer between disk r s few held h in
    (same, (λ e. found (sym same ∙ e), λ w. same ∙ stuck w))
  where
    found :
        expected_answer between disk r s ≡ none
        → ((2147483648 ≤ r.list_index) × (s.local_allocated ≡ true))
          ⊎ ((f : LocalFileEntry) × (get_elem? s.local_files r.list_index ≡ some f)
              × Reenters between disk r f.path s)
    found e = elim (Bool-cases (leb 2147483648 r.list_index && s.local_allocated)) [
      | inl large ↦ inl (ground (arith, large), ground (arith, large))
      | inr small ↦ elim (Option-cases (get_elem? s.local_files r.list_index)) [
        | inl nil ↦ absurd (some-ne-none _ (rw (small, nil) at e))
        | inr (f, at) ↦
            inr (f, at, (serve_entry-eq-none between disk r f.path s).0 (rw (small, at) at e))
      ]
    ]

    stuck :
        ((2147483648 ≤ r.list_index) × (s.local_allocated ≡ true))
          ⊎ ((f : LocalFileEntry) × (get_elem? s.local_files r.list_index ≡ some f)
              × Reenters between disk r f.path s)
        → expected_answer between disk r s ≡ none
    stuck (inl (large, staged)) =
        ap
          (λ b. if b then none else elim (get_elem? s.local_files r.list_index) [
            | none ↦ some (emit (contents_failed r.stream_id) s)
            | some f ↦ serve_entry between disk r f.path s
          ])
          {x = leb 2147483648 r.list_index && s.local_allocated} {y = true}
          (ground (arith, large, staged))
    stuck (inr (f, at, again)) = elim (Bool-cases (leb 2147483648 r.list_index)) [
      | inl large ↦ absurd (
          some-ne-none f
            (sym at ∙ get_elem?-none s.local_files r.list_index (ground (arith, few, large))))
      | inr small ↦ rw (small, at) ((serve_entry-eq-none between disk r f.path s).1 again)
    ]
