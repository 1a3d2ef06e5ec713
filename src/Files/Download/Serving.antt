-- ===== src/Files/Download/Serving.antt =====
-- One file of a download of cliprdr_file.c: the requests for its bytes and their answers.
use rdp_mcp.Prelude.{
  Bool, ℕ, zero, suc, ◌+◌, ◌-◌, ◌≤◌, ◌<◌, ◌≡◌, refl, true, false, not, none, some, List, [], ◌∷◌,
  ◌++◌, Bytes, arith, length, take, drop, length-take, get_elem?, All, ap, ◌∙◌, if◌then◌else◌,
}
use native.Mathlib.Numerals.{unary_clauses}
use rdp_mcp.Files.{Files, Descriptor, DownloadEntry, Wanted, ContentsRequest}
use rdp_mcp.Files.Download.{new_entries, entry_path}
use rdp_mcp.Files.Responses.{
  Env, Response, cb_server_file_contents_response, entry_response, range_response, range_data,
  find_stream,
}
use rdp_mcp.Files.Download.Exchange.{
  answered_bytes, answer, willing, latest, serve, Report, written, reports, answers,
}
use rdp_mcp.Files.Download.Streams.{IdBelow}

module _ {ℓ} {A : Type ℓ} where
  pub take_add : (b n : ℕ) (xs : List A) → take (b + n) xs ≡ take b xs ++ take n (drop b xs)
  take_add zero n xs = let same : 0 + n ≡ n = omega arith in ap (λ k. take k xs) same
  take_add (suc b) zero [] = simp unary_clauses refl
  take_add (suc b) (suc n) [] = simp unary_clauses refl
  take_add (suc b) n (x ∷ xs) =
      let more : suc b + n ≡ suc (b + n) = omega arith in
      ap (λ k. take k (x ∷ xs)) more ∙ ap (◌∷◌ x) (take_add b n xs)

  length-drop : (b : ℕ) (xs : List A) → length (drop b xs) ≡ length xs - b
  length-drop zero xs = omega arith
  length-drop (suc b) [] = omega arith
  length-drop (suc b) (x ∷ xs) = omega (arith, length-drop b xs)

module _ (offers : ℕ → Bool) (contents : ℕ → Bytes) (dir : Bytes) (c : ℕ) where
  -- The loop is about to take up the entry with this index; the entries from it on are new, and
  -- `acc` is stored.
  pub record Ready (i : ℕ) (fs : List Descriptor) (acc : List Report) (s : Files) : Type 0 where
    pub channel : s.cliprdr ≡ some c
    pub busy : s.downloading ≡ true
    pub current : s.download_current ≡ i
    pub ids : All (IdBelow s.next_stream_id) s.downloads
    pub room : s.next_stream_id + answers contents i fs ≤ 2147483647
    pub descriptors : drop i s.server_descriptors ≡ fs
    pub entries : drop i s.downloads ≡ new_entries dir i fs
    pub log : reports s.effects ≡ acc

  -- The entry `d` with this index is open, and the bytes that it counts as received are stored; stream
  -- ids are left for the requests still to come.
  pub record Filling (limit i : ℕ) (f : Descriptor) (fs : List Descriptor) (acc : List Report)
      (d : DownloadEntry) (s : Files) : Type 0 where
    pub channel : s.cliprdr ≡ some c
    pub busy : s.downloading ≡ true
    pub current : s.download_current ≡ i
    pub ids : All (IdBelow s.next_stream_id) s.downloads
    pub room :
        s.next_stream_id + length (contents i) + answers contents (suc i) fs
        ≤ limit + d.bytes_received
    pub descriptors : drop (suc i) s.server_descriptors ≡ fs
    pub entries : drop (suc i) s.downloads ≡ new_entries dir (suc i) fs
    pub inside : i < length s.downloads
    pub at : get_elem? s.downloads i ≡ some d
    pub own : d.stream_id < s.next_stream_id
    pub path : d.temp_path ≡ some (entry_path dir f)
    pub file : f.is_directory ≡ false
    pub offered : offers i ≡ true
    pub index : d.file_index ≡ i
    pub open_stream : d.fp ≡ true
    pub sized : d.size_received ≡ true
    pub total : d.total_size ≡ length (contents i)
    pub missing : d.bytes_received < length (contents i)
    pub log : reports s.effects ≡ acc
    pub bytes : written i s.effects ≡ take d.bytes_received (contents i)

  -- The entry waits for the bytes that the request `q` asks for.
  pub record Serving (i : ℕ) (f : Descriptor) (fs : List Descriptor) (acc : List Report)
      (d : DownloadEntry) (q : ContentsRequest) (s : Files) : Type 0 where
    pub filling : Filling 2147483648 i f fs acc d s
    pub found : find_stream q.stream_id 0 s.downloads ≡ some (i, d)
    pub request : latest s.effects ≡ some q
    pub flags : q.flags ≡ Wanted.range
    pub list_index : q.list_index ≡ i
    pub offset : q.offset ≡ d.bytes_received
    pub chunk : (0 < q.cb_requested) × (d.bytes_received + q.cb_requested ≤ length (contents i))

  pub serve-pending :
      (n : ℕ) (s : Files) (q : ContentsRequest)
      → s.downloading ≡ true
      → latest s.effects ≡ some q
      → serve (suc n) offers contents s
        ≡ serve n offers contents (
            cb_server_file_contents_response
              (willing (answer offers contents q))
              (answer offers contents q)
              s)
  unfolding serve
  serve-pending n s q busy e =
      ap
        (λ o. elim o [
          | none ↦ s
          | some q' ↦ serve n offers contents (
              cb_server_file_contents_response (willing (answer offers contents q'))
                (answer offers contents q') s)
        ])
        (ap (λ b. if b then latest s.effects else none) busy ∙ e)

  pub response-entry :
      (e : Env) (r : Response) (i : ℕ) (d : DownloadEntry) (s : Files)
      → s.downloading ≡ true
      → find_stream r.stream_id 0 s.downloads ≡ some (i, d)
      → cb_server_file_contents_response e r s ≡ entry_response e r i d s
  unfolding cb_server_file_contents_response
  response-entry e r i d s busy at =
      ap
        (λ b. if not b then s else elim (find_stream r.stream_id 0 s.downloads) [
          | none ↦ s
          | some (j, f) ↦ entry_response e r j f s
        ])
        busy
      ∙ ap (λ o. elim o [ none ↦ s | some (j, f) ↦ entry_response e r j f s ]) at

  abbrev pub chunk_of : ℕ → ContentsRequest → Bytes
  chunk_of i q = take q.cb_requested (drop q.offset (contents i))

  pub chunk-length :
      (i : ℕ) (q : ContentsRequest)
      → q.offset + q.cb_requested ≤ length (contents i)
      → length (chunk_of i q) ≡ q.cb_requested
  chunk-length i q h = omega (
    arith,
    h,
    length-take q.cb_requested (drop q.offset (contents i)),
    length-drop q.offset (contents i),
  )

  pub answered-range :
      (i : ℕ) (q : ContentsRequest)
      → q.flags ≡ Wanted.range
      → q.list_index ≡ i
      → answered_bytes contents q ≡ chunk_of i q
  answered-range i q hf hi = rw (hf, hi) refl

  range-entry :
      (e : Env) (r : Response) (i : ℕ) (d : DownloadEntry) (s : Files) (bs : Bytes)
      → r.ok ≡ true
      → r.data_bytes ≡ some bs
      → 0 < r.cb_requested
      → d.fp ≡ true
      → d.size_received ≡ true
      → entry_response e r i d s ≡ range_data e bs i d s
  unfolding entry_response range_response
  range-entry e r i d s bs ok carried long opened sized =
      ground (arith, ok, carried, long, opened, sized)

  -- An answer to a request for bytes is handled as those bytes.
  pub Serving-response :
      (i : ℕ) (f : Descriptor) (fs : List Descriptor) (acc : List Report) (d : DownloadEntry)
      (q : ContentsRequest) (s : Files)
      → Serving i f fs acc d q s
      → cb_server_file_contents_response
          (willing (answer offers contents q))
          (answer offers contents q)
          s
        ≡ range_data (willing (answer offers contents q)) (answered_bytes contents q) i d s
  Serving-response i f fs acc d q s v =
      let inside : q.offset + q.cb_requested ≤ length (contents i) =
        omega (arith, v.chunk.1, v.offset) in
      let long : 0 < length (answered_bytes contents q) =
        rw (answered-range i q v.flags v.list_index, chunk-length i q inside) v.chunk.0 in
      response-entry (willing (answer offers contents q)) (answer offers contents q) i d s
        v.filling.busy v.found
      ∙ range-entry (willing (answer offers contents q)) (answer offers contents q) i d s
          (answered_bytes contents q) (ap offers v.list_index ∙ v.filling.offered) refl long
          v.filling.open_stream v.filling.sized
