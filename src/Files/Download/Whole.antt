-- ===== src/Files/Download/Whole.antt =====
-- A whole download of cliprdr_file.c: every file and directory of the list, one after the other.
use rdp_mcp.Prelude.{
  Bool-cases, ℕ, zero, suc, ◌+◌, ◌≤◌, ◌<◌, ◌≡◌, refl, sym, Bool, true, false, if_cases, Option,
  none, some, List, [], ◌∷◌, Bytes, arith, length, get_elem?, All, ap, ◌∙◌, subst, inl, inr, ◌⊎◌,
  if_intro,
}
use rdp_mcp.Files.{Files, Descriptor, free_downloads, emit, unlock_clip_data}
use rdp_mcp.Files.Download.{
  start_next_download, finish_downloads, cliprdr_file_request_download, has_files, new_entries,
}
use rdp_mcp.Files.Download.Fuel.{loop-nil}
use rdp_mcp.Files.Download.Exchange.{
  all_accepted, serve, Report, answers, report, all_reports, reports,
}
use rdp_mcp.Files.Download.Streams.{drop-nil, IdBelow}
use rdp_mcp.Files.Download.Serving.{Ready}
use rdp_mcp.Files.Download.Served.{Rest}
use rdp_mcp.Files.Download.Sizes.{serve-directory}
use rdp_mcp.Files.Download.Sized.{serve-refused, start-size, serve-empty}
use rdp_mcp.Files.Download.Opened.{Sendable, serve-bytes}

-- The download is over, and these are the reports.
abbrev pub Reports : List Report → Files → Type 0
Reports files s = (s.downloading ≡ false) × (reports s.effects ≡ files)

abbrev pub AllSendable : (ℕ → Bool) → (ℕ → Bytes) → ℕ → List Descriptor → Type 0
AllSendable offers contents i [] = Unit
AllSendable offers contents i (f ∷ fs) =
    (f.is_directory ≡ false → offers i ≡ true → Sendable (contents i))
    × AllSendable offers contents (suc i) fs

serve-idle :
    (n : ℕ) (offers : ℕ → Bool) (contents : ℕ → Bytes) (s : Files)
    → s.downloading ≡ false
    → serve n offers contents s ≡ s
unfolding serve
serve-idle zero offers contents s idle = refl
serve-idle (suc n) offers contents s idle = ground (arith, idle)

finish-Reports :
    (files : List Report) (s : Files)
    → reports s.effects ≡ files
    → Reports files (finish_downloads s)
unfolding finish_downloads
finish-Reports files s log =
    if_intro (Reports files) s.our_lock_active (unlocked s.cliprdr) (refl, log)
  where
    unlocked :
        (o : Option ℕ)
        → Reports files (elim o [
          | none ↦ record s { downloading = false }
          | some c ↦
              emit
                (unlock_clip_data s.our_lock_id)
                (record s { downloading = false; our_lock_active = false })
        ])
    unlocked none = (refl, log)
    unlocked (some c) = (refl, log)

by_length : (n : ℕ) → (n ≡ 0) ⊎ (0 < n)
by_length zero = inl refl
by_length (suc n) = inr (omega arith)

module _ (offers : ℕ → Bool) (contents : ℕ → Bytes) (dir : Bytes) (c : ℕ)
    (files : List Report) where
  serve-file :
      (n i : ℕ) (f : Descriptor) (fs : List Descriptor) (acc : List Report) (s : Files)
      → f.is_directory ≡ false
      → (offers i ≡ true → Sendable (contents i))
      → Rest offers contents dir c (Reports files) (suc i) fs (report offers contents dir i f ∷ acc)
      → Ready offers contents dir c i (f ∷ fs) acc s
      → answers contents i (f ∷ fs) ≤ n
      → Reports files (serve n offers contents (start_next_download all_accepted s))
  serve-file zero i f fs acc s file fits rest v enough = absurd (omega (arith, enough))
  serve-file (suc n) i f fs acc s file fits rest v enough =
      subst (λ t. Reports files (serve (suc n) offers contents t))
        (sym (start-size offers contents dir c (Reports files) i f fs acc s file v))
        (elim (Bool-cases (offers i)) [
          | inl offered ↦ elim (by_length (length (contents i))) [
            | inl nil ↦
                serve-empty offers contents dir c (Reports files) n i f fs acc s file offered nil
                  rest v (omega (arith, enough))
            | inr some_bytes ↦
                serve-bytes offers contents dir c (Reports files) n i f fs acc s file offered
                  (fits offered) some_bytes rest v (omega (arith, enough))
          ]
          | inr bad ↦
              serve-refused offers contents dir c (Reports files) n i f fs acc s file bad rest v
                (omega (arith, enough))
        ])

  serve-all :
      (fs : List Descriptor) (i : ℕ) (acc : List Report)
      → AllSendable offers contents i fs
      → all_reports offers contents dir i fs acc ≡ files
      → Rest offers contents dir c (Reports files) i fs acc
  unfolding start_next_download new_entries
  serve-all [] i acc fit same n s v enough =
      let over = finish-Reports files s (v.log ∙ same) in
      subst (λ t. Reports files (serve n offers contents t))
        (sym (
          loop-nil _ all_accepted s
            (ap (get_elem? s.downloads) v.current ∙ drop-nil s.downloads i v.entries)))
        (subst (Reports files) (sym (serve-idle n offers contents (finish_downloads s) over.0))
          over)
  serve-all (f ∷ fs) i acc fit same n s v enough =
      go f.is_directory refl
        (serve-all fs (suc i) (report offers contents dir i f ∷ acc) fit.1 same)
    where
      go :
          (b : Bool)
          → f.is_directory ≡ b
          → Rest offers contents dir c
              (Reports files)
              (suc i)
              fs
              (report offers contents dir i f ∷ acc)
          → Reports files (serve n offers contents (start_next_download all_accepted s))
      go true directory rest =
          serve-directory offers contents dir c (Reports files) n i f fs acc s directory rest v
            enough
      go false file rest = serve-file n i f fs acc s file (fit.0 file) rest v enough

-- A download from a server that answers each request with the bytes of the file asked for, or refuses
-- every request for some of the files, ends: in the order of the list every file is stored as a whole
-- and reported with its size under the path of its name, every refused file is reported as failed, and
-- every directory is reported with no bytes. It takes as many answers as there are files and bytes at
-- most. The channel takes every request, files can be opened and written, stream ids are left for all
-- requests, and no file that is not refused has a size that is a positive multiple of 4 GiB.
pub download-Reports :
    (offers : ℕ → Bool) (contents : ℕ → Bytes) (dir : Bytes) (c n : ℕ) (s : Files)
    → s.cliprdr ≡ some c
    → has_files s ≡ true
    → AllSendable offers contents 0 s.server_descriptors
    → 0 < s.next_stream_id
    → s.next_stream_id + answers contents 0 s.server_descriptors ≤ 2147483647
    → answers contents 0 s.server_descriptors ≤ n
    → Reports
        (all_reports offers contents dir 0 s.server_descriptors (reports s.effects))
        (serve n offers contents (cliprdr_file_request_download all_accepted (some dir) s))
unfolding cliprdr_file_request_download new_entries
download-Reports offers contents dir c n s hc files fit id room enough =
    let begun = record (free_downloads s) {
      download_temp_dir = some dir;
      downloads = new_entries dir 0 s.server_descriptors;
      downloading = true;
    } in
    if_cases
      (λ t.
        Reports (all_reports offers contents dir 0 s.server_descriptors (reports s.effects))
          (serve n offers contents t))
      (has_files s)
      (λ k.
        serve-all offers contents dir c _ s.server_descriptors 0 (reports s.effects) fit refl n
          begun
          (record {
            channel = hc;
            busy = refl;
            current = refl;
            ids = new_ids s.server_descriptors 0;
            room = room;
            descriptors = refl;
            entries = refl;
            log = refl;
          })
          enough)
      (λ k. absurd (false-true (sym k ∙ files)))
  where
    new_ids : (fs : List Descriptor) (i : ℕ) → All (IdBelow s.next_stream_id) (new_entries dir i fs)
    new_ids [] i = tt
    new_ids (f ∷ fs) i = (id, new_ids fs (suc i))

    false-true : false ≡ true → ⊥
    false-true p = cc
