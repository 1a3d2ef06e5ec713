-- ===== src/Files/Download/Stall.antt =====
-- The first request for the bytes of a file, in start_next_download of cliprdr_file.c.
use rdp_mcp.Prelude.{
  ℕ, zero, suc, ◌+◌, ◌-◌, ◌%◌, ◌≤◌, ◌<◌, ◌≡◌, ◌↔◌, refl, Bool, true, false, Option, none, some,
  List, [], ◌∷◌, Bytes, arith, get_elem?, length, ap, ◌∙◌,
}
use rdp_mcp.Files.{
  Files, DownloadEntry, ContentsRequest, Wanted, contents_request, send_file_contents_request,
  file_contents_chunk_size,
}
use rdp_mcp.Files.Download.{
  stop, first_chunk, next_chunk, download_round, range_round, is_directory_at, start_next_download,
  download_loop,
}
use rdp_mcp.Files.Responses.{Env, Response, range_response, entry_response}

-- A chunk never has more than 256 KiB nor more bytes than the file still has, while bytes are missing.
-- The later requests then ask for a byte at least; the first one asks for none exactly if the
-- missing part is a multiple of 4 GiB.
pub chunk_bounds :
    (d : DownloadEntry)
    → d.bytes_received < d.total_size
    → d.total_size < 18446744073709551616
    → (first_chunk d ≤ file_contents_chunk_size)
      × (d.bytes_received + first_chunk d ≤ d.total_size)
      × (next_chunk d ≤ file_contents_chunk_size)
      × (d.bytes_received + next_chunk d ≤ d.total_size)
      × (0 < next_chunk d)
      × ((first_chunk d ≡ 0) ↔ ((d.total_size - d.bytes_received) % 4294967296 ≡ 0))
chunk_bounds d h ht = (
  ground arith,
  ground arith,
  ground arith,
  ground arith,
  ground arith,
  (λ k. ground arith, λ k. ground arith),
)

-- The entry whose bytes are to be asked for next.
pub record AwaitsBytes (d : DownloadEntry) (s : Files) : Type 0 where
  pub current : get_elem? s.downloads s.download_current ≡ some d
  pub file : is_directory_at s s.download_current ≡ false
  pub open_entry : d.complete ≡ false
  pub sized : d.size_received ≡ true

pub fuel_left :
    (ds : List DownloadEntry) (i : ℕ) (d : DownloadEntry)
    → get_elem? ds i ≡ some d
    → (k : ℕ) × (length ds - i ≡ suc k)
fuel_left [] i d e = ground arith
fuel_left (x ∷ ds) zero d e = (length ds, omega arith)
fuel_left (x ∷ ds) (suc i) d e = let (k, h) = fuel_left ds i d e in (k, omega (arith, h))

pub loop-stop :
    (k : ℕ) (accepts : ℕ → Bool) (d : DownloadEntry) (s t : Files)
    → get_elem? s.downloads s.download_current ≡ some d
    → download_round accepts d s ≡ stop t
    → download_loop (suc k) accepts s ≡ t
unfolding download_loop
loop-stop k accepts d s t e f = rw (e, f, download_loop)

round-range :
    (accepts : ℕ → Bool) (d : DownloadEntry) (s : Files)
    → AwaitsBytes d s
    → download_round accepts d s ≡ stop (range_round accepts d s)
unfolding download_round
round-range accepts d s w = ground (arith, w.open_entry, w.file, w.sized)

pub start-range :
    (accepts : ℕ → Bool) (d : DownloadEntry) (s : Files)
    → AwaitsBytes d s
    → start_next_download accepts s ≡ range_round accepts d s
unfolding start_next_download
start-range accepts d s w =
    let (k, h) = fuel_left s.downloads s.download_current d w.current in
    ap (λ n. download_loop n accepts s) h
    ∙ loop-stop k accepts d s (range_round accepts d s) w.current (round-range accepts d s w)

-- A file whose missing part is a multiple of 4 GiB, such as a whole file of 4 GiB, is never
-- finished: the request for its first bytes asks for none, and the answer to that, which carries
-- none, changes nothing and sends nothing.
pub first_request-stalls :
    (accepts : ℕ → Bool) (c : ℕ) (d : DownloadEntry) (s : Files) (e : Env) (r : Response)
    → s.cliprdr ≡ some c
    → AwaitsBytes d s
    → d.bytes_received < d.total_size
    → d.total_size < 18446744073709551616
    → (d.total_size - d.bytes_received) % 4294967296 ≡ 0
    → r.ok ≡ true
    → r.cb_requested ≡ 0
    → let t = start_next_download accepts s in
      ((q : ContentsRequest) × (t.effects ≡ contents_request q ∷ s.effects)
        × (q.flags ≡ Wanted.range)
        × (q.list_index ≡ d.file_index)
        × (q.cb_requested ≡ 0))
      × (entry_response e r s.download_current d t ≡ t)
first_request-stalls accepts c d s e r hc w h ht hm ok zero_bytes = rw (start-range accepts d s w) (
  (
    record {
      stream_id = s.next_stream_id;
      list_index = d.file_index;
      flags = Wanted.range;
      offset = d.bytes_received;
      cb_requested = first_chunk d;
      have_clip_data_id = s.our_lock_active;
      clip_data_id = s.our_lock_id;
    },
    unfold range_round send_file_contents_request in rw hc,
    refl,
    refl,
    (chunk_bounds d h ht).5.1 hm,
  ),
  no_answer (range_round accepts d s),
)
  where
    no_bytes :
        (o : Option Bytes) (t : Files)
        → o ≡ r.data_bytes
        → range_response e r s.download_current d t ≡ t
    no_bytes none t p = unfold range_response in rw (← p)
    no_bytes (some bs) t p = unfold range_response in rw (← p, zero_bytes)

    answered :
        (a t : Files)
        → range_response e r s.download_current d t ≡ t
        → a ≡ range_response e r s.download_current d t
        → a ≡ t
    answered a t p q = q ∙ p

    no_answer : (t : Files) → entry_response e r s.download_current d t ≡ t
    no_answer t =
        answered (entry_response e r s.download_current d t) t (no_bytes r.data_bytes t refl)
          (unfold entry_response in ground (arith, ok, w.sized))
