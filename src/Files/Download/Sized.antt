-- ===== src/Files/Download/Sized.antt =====
-- The request of cliprdr_file.c for the size of a file, its answer, and a file that is empty.
use rdp_mcp.Prelude.{
  true, Bool, ◌||◌, ℕ, suc, ◌+◌, ◌≤◌, ◌<◌, ◌≡◌, refl, sym, false, if◌then◌else◌, some, List, [],
  ◌∷◌, Bytes, arith, length, set, All-set, ap, ◌∙◌, subst,
}
use rdp_mcp.Files.{Effect, put_entry, Files, Descriptor, DownloadEntry, Wanted}
use rdp_mcp.Files.Download.{next_entry, start_next_download}
use rdp_mcp.Files.Responses.{entry_response, size_response, size_of}
use rdp_mcp.Files.Download.Exchange.{
  kept, failed, reports, answer, all_accepted, willing, serve, Report, answers, report, file_bytes,
  reports-kept, from_le-le_bytes, whole,
}
use rdp_mcp.Files.Download.Streams.{
  asked, request_for, send-asked, drop-set, find_stream-set, IdBelow, All-IdBelow-suc,
}
use rdp_mcp.Files.Download.Serving.{Ready, serve-pending, response-entry}
use rdp_mcp.Files.Download.Served.{Rest}
use rdp_mcp.Files.Download.Sizes.{
  entry-sized, entry-refused, start-stop, new_entry, at-Ready, round-size, size-empty,
}

module _ (offers : ℕ → Bool) (contents : ℕ → Bytes) (dir : Bytes) (c : ℕ) (X : Files → Type 0) where
  pub size_of-answer :
      (i : ℕ) (s : Files)
      → length (contents i) < 18446744073709551616
      → size_of (answer offers contents (request_for i Wanted.size 0 8 s)) ≡ length (contents i)
  size_of-answer i s small = from_le-le_bytes 8 (length (contents i)) small

  -- The state behind the request for the size of an entry, and the entry in it.
  abbrev pub sized_entry : ℕ → Descriptor → Files → DownloadEntry
  sized_entry i f s = record (new_entry offers contents dir c X i f) {
    stream_id = s.next_stream_id;
  }

  abbrev pub size_asked : ℕ → Descriptor → Files → Files
  size_asked i f s = asked i Wanted.size 0 8 (new_entry offers contents dir c X i f) s

  pub start-size :
      (i : ℕ) (f : Descriptor) (fs : List Descriptor) (acc : List Report) (s : Files)
      → f.is_directory ≡ false
      → Ready offers contents dir c i (f ∷ fs) acc s
      → start_next_download all_accepted s ≡ size_asked i f s
  start-size i f fs acc s file v =
      let (current, at, flagged, behind, others, inside, id) =
        at-Ready offers contents dir c X i f fs acc s v in
      start-stop all_accepted (new_entry offers contents dir c X i f) s (size_asked i f s) current (
        round-size all_accepted (new_entry offers contents dir c X i f) s (size_asked i f s) refl
          (flagged ∙ file) refl
          (send-asked all_accepted i Wanted.size 0 8 c (new_entry offers contents dir c X i f) s
            v.channel at (omega (arith, v.room))))

  -- The answer to it is handled for this entry.
  pub serve-asked :
      (n i : ℕ) (f : Descriptor) (fs : List Descriptor) (acc : List Report) (s : Files)
      → Ready offers contents dir c i (f ∷ fs) acc s
      → let r = answer offers contents (request_for i Wanted.size 0 8 s) in
        serve (suc n) offers contents (size_asked i f s)
        ≡ serve n offers contents
            (entry_response (willing r) r i (sized_entry i f s) (size_asked i f s))
  serve-asked n i f fs acc s v =
      let (current, at, flagged, behind, others, inside, id) =
        at-Ready offers contents dir c X i f fs acc s v in
      let r = answer offers contents (request_for i Wanted.size 0 8 s) in
      let start : 0 + i ≡ i = omega arith in
      serve-pending offers contents dir c n (size_asked i f s) (request_for i Wanted.size 0 8 s)
        v.busy refl
      ∙ ap (serve n offers contents) (
          response-entry offers contents dir c (willing r) r i (sized_entry i f s)
            (size_asked i f s) v.busy
            (find_stream-set s.downloads 0 i (sized_entry i f s) s.next_stream_id v.ids inside refl
              ∙ ap (λ k. some (k, sized_entry i f s)) start))

  pub serve-size :
      (n i : ℕ) (f : Descriptor) (fs : List Descriptor) (acc : List Report) (s : Files)
      → offers i ≡ true
      → Ready offers contents dir c i (f ∷ fs) acc s
      → let r = answer offers contents (request_for i Wanted.size 0 8 s) in
        serve (suc n) offers contents (size_asked i f s)
        ≡ serve n offers contents
            (size_response (willing r) r i (sized_entry i f s) (size_asked i f s))
  serve-size n i f fs acc s offered v =
      let r = answer offers contents (request_for i Wanted.size 0 8 s) in
      serve-asked n i f fs acc s v
      ∙ ap (serve n offers contents)
          (entry-sized (willing r) r i (sized_entry i f s) (size_asked i f s) offered refl)

  -- The loop goes on behind the entry, whatever is put in its place.
  passed :
      (i : ℕ) (f : Descriptor) (fs : List Descriptor) (acc : List Report) (s : Files)
      (d : DownloadEntry) (es : List Effect) {bcc : List Report}
      → Ready offers contents dir c i (f ∷ fs) acc s
      → d.stream_id < suc s.next_stream_id
      → reports es ≡ bcc
      → Ready offers contents dir c
          (suc i)
          fs
          bcc
          (next_entry (put_entry i d (record (size_asked i f s) { effects = es })))
  passed i f fs acc s d es v own log =
      let (current, at, flagged, behind, others, inside, id) =
        at-Ready offers contents dir c X i f fs acc s v in
      record {
        channel = v.channel;
        busy = v.busy;
        current = ap suc v.current;
        ids =
            All-set (IdBelow (suc s.next_stream_id)) (set s.downloads i (sized_entry i f s)) i _
              (All-set (IdBelow (suc s.next_stream_id)) s.downloads i _
                (All-IdBelow-suc s.next_stream_id s.downloads v.ids) (omega arith))
              own;
        room = omega (arith, v.room);
        descriptors = others;
        entries =
            drop-set (set s.downloads i (sized_entry i f s)) i _
            ∙ drop-set s.downloads i _
            ∙ behind;
        log = log;
      }

  -- A refused file is passed, and the next one is taken up.
  pub serve-refused :
      (n i : ℕ) (f : Descriptor) (fs : List Descriptor) (acc : List Report) (s : Files)
      → f.is_directory ≡ false
      → offers i ≡ false
      → Rest offers contents dir c X (suc i) fs (report offers contents dir i f ∷ acc)
      → Ready offers contents dir c i (f ∷ fs) acc s
      → answers contents (suc i) fs ≤ n
      → X (serve (suc n) offers contents (size_asked i f s))
  serve-refused n i f fs acc s file bad rest v enough =
      let (current, at, flagged, behind, others, inside, id) =
        at-Ready offers contents dir c X i f fs acc s v in
      let r = answer offers contents (request_for i Wanted.size 0 8 s) in
      subst X
        (sym (
          serve-asked n i f fs acc s v
          ∙ ap (serve n offers contents)
              (entry-refused (willing r) r i (sized_entry i f s) (size_asked i f s) bad)))
        (rest n _
          (passed i f fs acc s (record (sized_entry i f s) { complete = true }) _ v (omega arith)
            (ap (◌∷◌ (failed i)) v.log
              ∙ ap (λ b. (if b then kept (whole contents dir i f) else failed i) ∷ acc)
                  (sym (ap (λ b. b || offers i) file ∙ bad))))
          enough)

  pub serve-empty :
      (n i : ℕ) (f : Descriptor) (fs : List Descriptor) (acc : List Report) (s : Files)
      → f.is_directory ≡ false
      → offers i ≡ true
      → length (contents i) ≡ 0
      → Rest offers contents dir c X (suc i) fs (report offers contents dir i f ∷ acc)
      → Ready offers contents dir c i (f ∷ fs) acc s
      → answers contents (suc i) fs ≤ n
      → X (serve (suc n) offers contents (size_asked i f s))
  serve-empty n i f fs acc s file offered nil rest v enough =
      let (current, at, flagged, behind, others, inside, id) =
        at-Ready offers contents dir c X i f fs acc s v in
      let r = answer offers contents (request_for i Wanted.size 0 8 s) in
      let known = size_of-answer i s (omega (arith, nil)) in
      let kept : file_bytes contents i f ≡ [] =
        ap (λ b. if b then [] else contents i) file ∙ no_bytes (contents i) nil in
      subst X
        (sym (
          serve-size n i f fs acc s offered v
          ∙ ap (serve n offers contents)
              (size-empty (willing r) r i (sized_entry i f s) (size_asked i f s) (known ∙ nil))))
        (rest n _
          (passed i f fs acc s
            (record (sized_entry i f s) {
              total_size = size_of r;
              size_received = true;
              complete = true;
            })
            _ v (omega arith)
            (reports-kept offers contents dir i _ _ f _ _ _ _
              (ap (λ b. b || offers i) file ∙ offered) refl refl (sym kept) (ap length (sym kept))
              v.log))
          enough)
    where
      no_bytes : (bs : Bytes) → length bs ≡ 0 → bs ≡ []
      no_bytes [] e = refl
      no_bytes (b ∷ bs) e = absurd (omega (arith, e))
