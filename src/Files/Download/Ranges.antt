-- ===== src/Files/Download/Ranges.antt =====
-- What an answer to a request for bytes does in cliprdr_file.c: the file is stored as a whole, or the
-- next bytes are asked for.
use rdp_mcp.Prelude.{
  ◌||◌, Bool, ℕ, suc, ◌+◌, ◌%◌, ◌≤◌, ◌<◌, ◌≡◌, refl, sym, true, false, some, List, [], ◌∷◌, ◌++◌,
  Bytes, arith, length, take, take_all, All-set, ap, ◌∙◌, length-set, get_elem?-set_self, leb,
  if◌then◌else◌,
}
use rdp_mcp.Files.{
  Files, Descriptor, DownloadEntry, Wanted, emit, put_entry, file_done, close_file, write_file,
  download_progress, send_file_contents_request,
}
use rdp_mcp.Files.Download.{next_entry, start_next_download, display_name, next_chunk}
use rdp_mcp.Files.Responses.{Env, range_data}
use rdp_mcp.Files.Download.Exchange.{
  all_accepted, Report, written, report, file_bytes, written_self, reports-kept,
}
use rdp_mcp.Files.Download.Serving.{Ready, Filling, Serving}
use rdp_mcp.Files.Download.Streams.{
  IdBelow, All-IdBelow-suc, find_stream-set, drop-set, request_for, asked, send-asked,
}

module _ (offers : ℕ → Bool) (contents : ℕ → Bytes) (dir : Bytes) (c : ℕ) where
  -- The bytes written so far, and what the answer adds to them.
  abbrev pub extended : DownloadEntry → Bytes → DownloadEntry
  extended d bs = record d { bytes_received = d.bytes_received + length bs }

  abbrev pub wrote : Bytes → ℕ → DownloadEntry → Files → Files
  wrote bs total d s =
      emit
        (download_progress d.file_index (d.bytes_received + length bs) total (length s.downloads))
        (emit (write_file d.file_index bs) s)

  abbrev pub completed : Bytes → ℕ → DownloadEntry → Files → Files
  completed bs i d s = next_entry (
      emit (file_done d.file_index d.temp_path (display_name s d.file_index) d.total_size) (
        emit (close_file d.file_index) (
          put_entry i (record (extended d bs) { fp = false; complete = true })
            (wrote bs d.total_size d s))))

  pub range_data-computed :
      (e : Env) (bs : Bytes) (i : ℕ) (d : DownloadEntry) (s : Files)
      → e.written ≡ length bs
      → d.bytes_received + length bs < 18446744073709551616
      → range_data e bs i d s ≡ (
          if leb d.total_size (d.bytes_received + length bs)
          then start_next_download e.accepts (completed bs i d s)
          else (send_file_contents_request e.accepts d.file_index Wanted.range
              (d.bytes_received + length bs)
              (next_chunk (extended d bs))
              (put_entry i (extended d bs) (wrote bs d.total_size d s))).0)
  unfolding range_data
  range_data-computed e bs i d s all small =
      let sum : (d.bytes_received + length bs) % 18446744073709551616
          ≡ d.bytes_received + length bs =
        omega (arith, small) in
      rw (all, take_all (length bs) bs (omega arith), sum) refl

  -- The file is stored as a whole, once its last bytes are written.
  pub done-Ready :
      (i : ℕ) (f : Descriptor) (fs : List Descriptor) (acc : List Report) (d : DownloadEntry)
      (s : Files) (bs : Bytes) (limit : ℕ)
      → Filling offers contents dir c limit i f fs acc d s
      → limit ≤ 2147483648
      → take d.bytes_received (contents i) ++ bs ≡ contents i
      → Ready offers contents dir c
          (suc i)
          fs
          (report offers contents dir i f ∷ acc)
          (completed bs i d s)
  done-Ready i f fs acc d s bs limit v low all = record {
    channel = v.channel;
    busy = v.busy;
    current = ap suc v.current;
    ids = All-set (IdBelow s.next_stream_id) s.downloads i _ v.ids v.own;
    room = omega (arith, v.room, v.missing, low);
    descriptors = v.descriptors;
    entries = drop-set s.downloads i _ ∙ v.entries;
    log =
        let kept : file_bytes contents i f ≡ contents i =
          ap (λ b. if b then [] else contents i) v.file in
        reports-kept offers contents dir i _ _ f _ _ _ _
          (ap (λ b. b || offers i) v.file ∙ v.offered) v.index v.path
          (written_self d.file_index bs s.effects
            ∙ ap (λ k. written k s.effects ++ bs) v.index
            ∙ ap (λ x. x ++ bs) v.bytes
            ∙ all
            ∙ sym kept)
          (v.total ∙ ap length (sym kept)) v.log;
  }

  -- A request for more bytes of an open file.
  pub asked-Serving :
      (i : ℕ) (f : Descriptor) (fs : List Descriptor) (acc : List Report) (d : DownloadEntry)
      (s : Files) (n : ℕ)
      → Filling offers contents dir c 2147483647 i f fs acc d s
      → 0 < n
      → d.bytes_received + n ≤ length (contents i)
      → Serving offers contents dir c i f fs acc
          (record d { stream_id = s.next_stream_id })
          (request_for i Wanted.range d.bytes_received n s)
          (asked i Wanted.range d.bytes_received n d s)
  asked-Serving i f fs acc d s n v some_bytes inside =
      let start : 0 + i ≡ i = omega arith in
      record {
        filling = record {
          channel = v.channel;
          busy = v.busy;
          current = v.current;
          ids =
              All-set (IdBelow (suc s.next_stream_id)) s.downloads i _
                (All-IdBelow-suc s.next_stream_id s.downloads v.ids) (omega arith);
          room = omega (arith, v.room);
          descriptors = v.descriptors;
          entries = drop-set s.downloads i _ ∙ v.entries;
          inside =
              rw (length-set s.downloads i (record d { stream_id = s.next_stream_id })) v.inside;
          at = get_elem?-set_self s.downloads i _ v.inside;
          own = omega arith;
          path = v.path;
          file = v.file;
          offered = v.offered;
          index = v.index;
          open_stream = v.open_stream;
          sized = v.sized;
          total = v.total;
          missing = v.missing;
          log = v.log;
          bytes = v.bytes;
        };
        found =
            find_stream-set s.downloads 0 i (record d { stream_id = s.next_stream_id })
              s.next_stream_id v.ids v.inside refl
            ∙ ap (λ k. some (k, record d { stream_id = s.next_stream_id })) start;
        request = refl;
        flags = refl;
        list_index = refl;
        offset = refl;
        chunk = (some_bytes, inside);
      }

  pub extended-Filling :
      (i : ℕ) (f : Descriptor) (fs : List Descriptor) (acc : List Report) (d : DownloadEntry)
      (s : Files) (bs : Bytes)
      → Filling offers contents dir c 2147483648 i f fs acc d s
      → 0 < length bs
      → d.bytes_received + length bs < length (contents i)
      → take d.bytes_received (contents i) ++ bs ≡ take (d.bytes_received + length bs) (contents i)
      → Filling offers contents dir c 2147483647 i f fs acc
          (extended d bs)
          (put_entry i (extended d bs) (wrote bs d.total_size d s))
  extended-Filling i f fs acc d s bs v some_bytes more all = record {
    channel = v.channel;
    busy = v.busy;
    current = v.current;
    ids = All-set (IdBelow s.next_stream_id) s.downloads i _ v.ids v.own;
    room = omega (arith, v.room, some_bytes);
    descriptors = v.descriptors;
    entries = drop-set s.downloads i _ ∙ v.entries;
    inside = rw (length-set s.downloads i (extended d bs)) v.inside;
    at = get_elem?-set_self s.downloads i _ v.inside;
    own = v.own;
    path = v.path;
    file = v.file;
    offered = v.offered;
    index = v.index;
    open_stream = v.open_stream;
    sized = v.sized;
    total = v.total;
    missing = more;
    log = v.log;
    bytes =
        ap (λ k. written i (write_file k bs ∷ s.effects)) v.index
        ∙ written_self i bs s.effects
        ∙ ap (λ x. x ++ bs) v.bytes
        ∙ all;
  }

  -- The next request, after an answer that was not the last one.
  pub next-asked :
      (i : ℕ) (f : Descriptor) (fs : List Descriptor) (acc : List Report) (d : DownloadEntry)
      (s : Files)
      → Filling offers contents dir c 2147483647 i f fs acc d s
      → (n : ℕ)
      → (send_file_contents_request all_accepted d.file_index Wanted.range d.bytes_received n s).0
        ≡ asked i Wanted.range d.bytes_received n d s
  next-asked i f fs acc d s v n =
      ap (λ k. (send_file_contents_request all_accepted k Wanted.range d.bytes_received n s).0)
        v.index
      ∙ ap (λ p. p.0)
          (send-asked all_accepted i Wanted.range d.bytes_received n c d s v.channel v.at
            (omega (arith, v.room, v.missing)))
