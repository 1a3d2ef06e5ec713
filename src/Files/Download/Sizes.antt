-- ===== src/Files/Download/Sizes.antt =====
-- The exchange for one new entry of cliprdr_file.c: a directory, an empty file, or a file with bytes.
use rdp_mcp.Prelude.{
  ◌||◌, ℕ, suc, ◌≤◌, ◌<◌, ◌≡◌, refl, sym, Bool, true, false, if◌then◌else◌, none, some, List, [],
  ◌∷◌, Bytes, arith, length, drop, get_elem?, set, All-set, All-get_elem?, IfSome, ap, ◌∙◌, subst,
  length-set,
}
use rdp_mcp.Files.{
  Files, Descriptor, DownloadEntry, Wanted, put_entry, send_file_contents_request, emit, file_error,
  create_file, make_parents, file_done,
}
use rdp_mcp.Files.Download.{
  go_on, stop, start_next_download, download_round, directory_round, size_round, download_loop,
  is_directory_at, new_entries, entry_path, next_entry, display_name,
}
use rdp_mcp.Files.Responses.{entry_response, refused, Env, Response, size_response, size_of}
use rdp_mcp.Files.Download.Fuel.{download_loop-fuel}
use rdp_mcp.Files.Download.Stall.{fuel_left, loop-stop}
use rdp_mcp.Files.Download.Exchange.{
  all_accepted, serve, Report, answers, report, file_bytes, reports-kept,
}
use rdp_mcp.Files.Download.Streams.{drop-cons, drop-set, IdBelow}
use rdp_mcp.Files.Download.Serving.{Ready}
use rdp_mcp.Files.Download.Served.{Rest}

pub start-go_on :
    (accepts : ℕ → Bool) (d : DownloadEntry) (s t : Files)
    → get_elem? s.downloads s.download_current ≡ some d
    → download_round accepts d s ≡ go_on t
    → t.download_current ≡ suc s.download_current
    → length t.downloads ≡ length s.downloads
    → start_next_download accepts s ≡ start_next_download accepts t
unfolding start_next_download download_loop
start-go_on accepts d s t at went next same =
    let (k, h) = fuel_left s.downloads s.download_current d at in
    ap (λ n. download_loop n accepts s) h
    ∙ loop-on k
    ∙ download_loop-fuel k accepts t (omega (arith, h, next, same))
  where
    loop-on : (k : ℕ) → download_loop (suc k) accepts s ≡ download_loop k accepts t
    loop-on k = rw (at, went, download_loop)

pub start-stop :
    (accepts : ℕ → Bool) (d : DownloadEntry) (s t : Files)
    → get_elem? s.downloads s.download_current ≡ some d
    → download_round accepts d s ≡ stop t
    → start_next_download accepts s ≡ t
unfolding start_next_download
start-stop accepts d s t at stopped =
    let (k, h) = fuel_left s.downloads s.download_current d at in
    ap (λ n. download_loop n accepts s) h ∙ loop-stop k accepts d s t at stopped

round-directory :
    (accepts : ℕ → Bool) (d : DownloadEntry) (s : Files)
    → d.complete ≡ false
    → is_directory_at s s.download_current ≡ true
    → download_round accepts d s ≡ go_on (directory_round d s)
unfolding download_round
round-directory accepts d s new dir = ground (arith, new, dir)

pub round-size :
    (accepts : ℕ → Bool) (d : DownloadEntry) (s t : Files)
    → d.complete ≡ false
    → is_directory_at s s.download_current ≡ false
    → d.size_received ≡ false
    → send_file_contents_request accepts d.file_index Wanted.size 0 8 s ≡ (t, true)
    → download_round accepts d s ≡ stop t
unfolding download_round size_round
round-size accepts d s t new file unsized sent = ground (arith, new, file, unsized, sent)

pub entry-sized :
    (e : Env) (r : Response) (i : ℕ) (d : DownloadEntry) (s : Files)
    → r.ok ≡ true
    → d.size_received ≡ false
    → entry_response e r i d s ≡ size_response e r i d s
unfolding entry_response
entry-sized e r i d s ok new = ground (arith, ok, new)

pub entry-refused :
    (e : Env) (r : Response) (i : ℕ) (d : DownloadEntry) (s : Files)
    → r.ok ≡ false
    → entry_response e r i d s
      ≡ start_next_download e.accepts (
          next_entry (
            emit
              (file_error d.file_index "Server returned failure")
              (put_entry i (record d { complete = true }) s)))
unfolding entry_response refused
entry-refused e r i d s bad = ground (arith, bad)

pub size-empty :
    (e : Env) (r : Response) (i : ℕ) (d : DownloadEntry) (s : Files)
    → size_of r ≡ 0
    → size_response e r i d s
      ≡ start_next_download e.accepts (
          next_entry (
            emit (file_done d.file_index d.temp_path (display_name s d.file_index) 0) (
              put_entry i
                (record d { total_size = size_of r; size_received = true; complete = true })
                (emit (create_file d.temp_path) (emit (make_parents d.temp_path) s)))))
unfolding size_response
size-empty e r i d s nil = ground (arith, nil)

pub size-some :
    (e : Env) (r : Response) (i : ℕ) (d : DownloadEntry) (s : Files)
    → 0 < size_of r
    → e.opens ≡ true
    → size_response e r i d s
      ≡ start_next_download e.accepts (
          put_entry i
            (record d { total_size = size_of r; size_received = true; fp = true })
            (emit (create_file d.temp_path) (emit (make_parents d.temp_path) s)))
unfolding size_response
size-some e r i d s long opens = ground (arith, long, opens)

module _ (offers : ℕ → Bool) (contents : ℕ → Bytes) (dir : Bytes) (c : ℕ) (X : Files → Type 0) where
  -- The entry that a download begins with.
  abbrev pub new_entry : ℕ → Descriptor → DownloadEntry
  new_entry i f = record {
    file_index = i;
    stream_id = 0;
    total_size = 0;
    bytes_received = 0;
    fp = false;
    temp_path = some (entry_path dir f);
    size_received = false;
    complete = false;
  }

  -- Where a new entry stands, and what its descriptor says.
  pub at-Ready :
      (i : ℕ) (f : Descriptor) (fs : List Descriptor) (acc : List Report) (s : Files)
      → Ready offers contents dir c i (f ∷ fs) acc s
      → (get_elem? s.downloads s.download_current ≡ some (new_entry i f))
        × (get_elem? s.downloads i ≡ some (new_entry i f))
        × (is_directory_at s s.download_current ≡ f.is_directory)
        × (drop (suc i) s.downloads ≡ new_entries dir (suc i) fs)
        × (drop (suc i) s.server_descriptors ≡ fs)
        × (i < length s.downloads)
        × (0 < s.next_stream_id)
  unfolding new_entries
  at-Ready i f fs acc s v =
      let (at, behind, inside) = drop-cons s.downloads i _ _ v.entries in
      let (there, others, known) = drop-cons s.server_descriptors i _ _ v.descriptors in
      (
        ap (get_elem? s.downloads) v.current ∙ at,
        at,
        ap (λ k. elim (get_elem? s.server_descriptors k) [ none ↦ false | some d ↦ d.is_directory ])
              v.current
            ∙ ap (λ o. elim o [ none ↦ false | some d ↦ d.is_directory ]) there,
        behind,
        others,
        inside,
        subst (λ o. IfSome (IdBelow s.next_stream_id) o) at
            (All-get_elem? (IdBelow s.next_stream_id) s.downloads i v.ids),
      )

  pub serve-directory :
      (n i : ℕ) (f : Descriptor) (fs : List Descriptor) (acc : List Report) (s : Files)
      → f.is_directory ≡ true
      → Rest offers contents dir c X (suc i) fs (report offers contents dir i f ∷ acc)
      → Ready offers contents dir c i (f ∷ fs) acc s
      → answers contents i (f ∷ fs) ≤ n
      → X (serve n offers contents (start_next_download all_accepted s))
  unfolding directory_round
  serve-directory n i f fs acc s directory rest v enough =
      let (current, at, flagged, behind, others, inside, id) = at-Ready i f fs acc s v in
      let kept : file_bytes contents i f ≡ [] = ap (λ b. if b then [] else contents i) directory in
      subst (λ t. X (serve n offers contents t))
        (sym (
          start-go_on all_accepted (new_entry i f) s (directory_round (new_entry i f) s) current
            (round-directory all_accepted (new_entry i f) s refl (flagged ∙ directory)) refl
            (length-set s.downloads s.download_current _)))
        (rest n (directory_round (new_entry i f) s)
          (record {
            channel = v.channel;
            busy = v.busy;
            current = ap suc v.current;
            ids = All-set (IdBelow s.next_stream_id) s.downloads s.download_current _ v.ids id;
            room = omega (arith, v.room);
            descriptors = others;
            entries =
                ap
                  (λ k.
                    drop (suc i) (set s.downloads k (record (new_entry i f) { complete = true })))
                  v.current
                ∙ drop-set s.downloads i _
                ∙ behind;
            log =
                reports-kept offers contents dir i _ _ f _ _ _ _ (ap (λ b. b || offers i) directory)
                  refl refl (sym kept) (ap length (sym kept)) v.log;
          })
          (omega (arith, enough)))
