-- ===== src/Files/Download/Rounds.antt =====
-- Properties of the state over the download loop and the response handler of cliprdr_file.c.
use rdp_mcp.Prelude.{
  ℕ, zero, suc, Bool, true, not, if◌then◌else◌, if_intro, take, Option, none, some, List, Bytes,
  get_elem?, set, leb, ltb, ◌&&◌, ◌==◌, length, ◌%◌, ◌+◌,
}
use rdp_mcp.Files.{
  Files, DownloadEntry, Wanted, Effect, contents_request, lock_clip_data, unlock_clip_data, emit,
  put_entry, send_file_contents_request, make_parents, create_file, write_file, download_progress,
}
use rdp_mcp.Files.Download.{
  Round, go_on, stop, next_entry, fail_entry, size_round, range_round, download_round,
  directory_round, finish_downloads, download_loop, start_next_download,
  cliprdr_file_request_download, is_directory_at, new_entries, first_chunk, has_files,
}
use rdp_mcp.Files.Responses.{
  Env, Response, find_stream, refused, size_response, range_data, range_response, entry_response,
  cb_server_file_contents_response, size_of,
}

-- An effect that neither takes nor gives back a lock, nor asks for contents.
abbrev pub Plain : Effect → Type 0
Plain (contents_request r) = ⊥
Plain (lock_clip_data i) = ⊥
Plain (unlock_clip_data i) = ⊥
Plain e = Unit

-- The rules of a property of the state that a download keeps.
pub record Kept (P : Files → Type 0) : Type 0 where
  pub moved :
      (s : Files) (ds : List DownloadEntry) (n : ℕ) (b : Bool) (t : Option Bytes)
      → P s
      → P (record s {
        downloads = ds;
        download_current = n;
        downloading = b;
        download_temp_dir = t;
      })
  pub logged : (e : Effect) (s : Files) → Plain e → P s → P (emit e s)
  pub asked :
      (accepts : ℕ → Bool) (i : ℕ) (w : Wanted) (o n : ℕ) (s : Files)
      → P s
      → P (send_file_contents_request accepts i w o n s).0
  pub finished : (s : Files) → P s → P (finish_downloads s)

module _ {P : Files → Type 0} (kept : Kept P) where
  passed : (s : Files) → P s → P (next_entry s)
  passed s p = kept.moved s s.downloads (suc s.download_current) s.downloading s.download_temp_dir p

  put : (i : ℕ) (d : DownloadEntry) (s : Files) → P s → P (put_entry i d s)
  put i d s p =
      kept.moved s (set s.downloads i d) s.download_current s.downloading s.download_temp_dir p

  failed : (i : ℕ) (s : Files) → P s → P (fail_entry i s)
  failed i s p = go (get_elem? s.downloads i)
    where
      go :
          (o : Option DownloadEntry)
          → P (elim o [ none ↦ s | some d ↦ put_entry i (record d { complete = true }) s ])
      go none = p
      go (some d) = put i (record d { complete = true }) s p

  abbrev RoundKept : Round → Type 0
  RoundKept (go_on s) = P s
  RoundKept (stop s) = P s

  kept-directory : (d : DownloadEntry) (s : Files) → P s → P (directory_round d s)
  unfolding directory_round
  kept-directory d s p = passed _ (
      kept.logged _ _ tt (
        kept.logged _ _ tt
          (kept.logged _ _ tt (put s.download_current (record d { complete = true }) s p))))

  kept-size :
      (accepts : ℕ → Bool) (d : DownloadEntry) (s : Files)
      → P s
      → RoundKept (size_round accepts d s)
  unfolding size_round
  kept-size accepts d s p =
      let sent = kept.asked accepts d.file_index Wanted.size 0 8 s p in
      if_intro RoundKept (send_file_contents_request accepts d.file_index Wanted.size 0 8 s).1 sent
        (passed _ (kept.logged _ _ tt (failed s.download_current _ sent)))

  kept-round :
      (accepts : ℕ → Bool) (d : DownloadEntry) (s : Files)
      → P s
      → RoundKept (download_round accepts d s)
  unfolding download_round range_round
  kept-round accepts d s p = if_intro RoundKept d.complete (passed s p) (
      if_intro RoundKept (is_directory_at s s.download_current) (kept-directory d s p) (
        if_intro RoundKept (not d.size_received) (kept-size accepts d s p)
          (kept.asked accepts d.file_index Wanted.range d.bytes_received (first_chunk d) s p)))

  follow :
      {go : Files → Files} (r : Round)
      → RoundKept r
      → ((t : Files) → P t → P (go t))
      → P (elim r [ go_on t ↦ go t | stop t ↦ t ])
  follow (go_on t) q next = next t q
  follow (stop t) q next = q

  kept-loop : (fuel : ℕ) (accepts : ℕ → Bool) (s : Files) → P s → P (download_loop fuel accepts s)
  unfolding download_loop
  kept-loop zero accepts s p = kept.finished s p
  kept-loop (suc fuel) accepts s p =
      go (kept-loop fuel accepts) (get_elem? s.downloads s.download_current)
    where
      go :
          ((t : Files) → P t → P (download_loop fuel accepts t))
          → (o : Option DownloadEntry)
          → P (elim o [
            | none ↦ finish_downloads s
            | some d ↦ elim (download_round accepts d s) [
              | go_on t ↦ download_loop fuel accepts t
              | stop t ↦ t
            ]
          ])
      go next none = kept.finished s p
      go next (some d) = follow (download_round accepts d s) (kept-round accepts d s p) next

  kept-start : (accepts : ℕ → Bool) (s : Files) → P s → P (start_next_download accepts s)
  unfolding start_next_download
  kept-start accepts s p = kept-loop _ accepts s p

  kept-refused : (e : Env) (i : ℕ) (d : DownloadEntry) (s : Files) → P s → P (refused e i d s)
  unfolding refused
  kept-refused e i d s p = kept-start e.accepts _ (passed _ (kept.logged _ _ tt (put i _ s p)))

  kept-size_response :
      (e : Env) (r : Response) (i : ℕ) (d : DownloadEntry) (s : Files)
      → P s
      → P (size_response e r i d s)
  unfolding size_response
  kept-size_response e r i d s p =
      let made = kept.logged (make_parents d.temp_path) s tt p in
      let ready = kept.logged (create_file d.temp_path) _ tt made in
      kept-start e.accepts _ (
        if_intro P (size_of r == 0) (passed _ (kept.logged _ _ tt (put i _ _ ready)))
          (if_intro P e.opens (put i _ _ ready) (passed _ (kept.logged _ _ tt (put i _ _ ready)))))

  kept-range_data :
      (e : Env) (bs : Bytes) (i : ℕ) (d : DownloadEntry) (s : Files)
      → P s
      → P (range_data e bs i d s)
  unfolding range_data
  kept-range_data e bs i d s p =
      let received = (d.bytes_received + e.written) % 18446744073709551616 in
      let written = kept.logged (write_file d.file_index (take e.written bs)) s tt p in
      let wrote =
        kept.logged (download_progress d.file_index received d.total_size (length s.downloads)) _ tt
          written in
      if_intro P (leb d.total_size received)
        (kept-start e.accepts _
          (passed _ (kept.logged _ _ tt (kept.logged _ _ tt (put i _ _ wrote)))))
        (kept.asked e.accepts d.file_index Wanted.range received _ _ (put i _ _ wrote))

  kept-range_response :
      (e : Env) (r : Response) (i : ℕ) (d : DownloadEntry) (s : Files)
      → P s
      → P (range_response e r i d s)
  unfolding range_response
  kept-range_response e r i d s p = go r.data_bytes
    where
      go :
          (o : Option Bytes)
          → P (elim o [
            | none ↦ s
            | some bs ↦ if ltb 0 r.cb_requested && d.fp then range_data e bs i d s else s
          ])
      go none = p
      go (some bs) = if_intro P (ltb 0 r.cb_requested && d.fp) (kept-range_data e bs i d s p) p

  pub kept-response :
      (e : Env) (r : Response) (s : Files) → P s → P (cb_server_file_contents_response e r s)
  unfolding cb_server_file_contents_response entry_response
  kept-response e r s p =
      if_intro P (not s.downloading) p (go (find_stream r.stream_id 0 s.downloads))
    where
      go :
          (o : Option (ℕ × DownloadEntry))
          → P (elim o [ none ↦ s | some (i, d) ↦ entry_response e r i d s ])
      go none = p
      go (some (i, d)) = if_intro P (not r.ok) (kept-refused e i d s p) (
          if_intro P (not d.size_received) (kept-size_response e r i d s p)
            (kept-range_response e r i d s p))

  pub kept-request :
      (accepts : ℕ → Bool) (dir : Option Bytes) (s : Files)
      → P s
      → P (cliprdr_file_request_download accepts dir s)
  unfolding cliprdr_file_request_download
  kept-request accepts none s p = p
  kept-request accepts (some dir) s p =
      if_intro P (has_files s)
        (kept-start accepts _
          (kept.moved s (new_entries dir 0 s.server_descriptors) 0 true (some dir) p))
        p
