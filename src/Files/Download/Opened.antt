-- ===== src/Files/Download/Opened.antt =====
-- A file of cliprdr_file.c with bytes: it is opened when its size is known, and its first bytes asked for.
use rdp_mcp.Prelude.{
  Bool, ◌⊎◌, inl, inr, ℕ, zero, suc, ◌+◌, ◌%◌, ◌≤◌, ◌<◌, ◌≡◌, refl, sym, true, false, List, ◌∷◌,
  Bytes, arith, length, get_elem?, set, All-set, ap, ◌∙◌, subst, length-set, get_elem?-set_self,
}
use rdp_mcp.Files.{
  Files, Descriptor, DownloadEntry, Wanted, put_entry, emit, create_file, make_parents,
}
use rdp_mcp.Files.Download.{range_round, first_chunk}
use rdp_mcp.Files.Responses.{size_of}
use rdp_mcp.Files.Download.Stall.{start-range, AwaitsBytes}
use rdp_mcp.Files.Download.Exchange.{answer, all_accepted, willing, serve, Report, answers, report}
use rdp_mcp.Files.Download.Streams.{request_for, drop-set, IdBelow, All-IdBelow-suc}
use rdp_mcp.Files.Download.Serving.{Ready, Filling}
use rdp_mcp.Files.Download.Ranges.{next-asked, asked-Serving}
use rdp_mcp.Files.Download.Served.{Rest, serve-Serving}
use rdp_mcp.Files.Download.Sizes.{at-Ready, size-some}
use rdp_mcp.Files.Download.Sized.{size_of-answer, sized_entry, size_asked, serve-size}

-- The sizes that a download copes with: below 2 ^ 64, and no multiple of 4 GiB but 0.
abbrev pub Sendable : Bytes → Type 0
Sendable bs = (length bs < 18446744073709551616) × (length bs % 4294967296 ≡ 0 → length bs ≡ 0)

-- The first request for the bytes of such a file asks for some, and not for more than there are.
first_chunk-bounds :
    (d : DownloadEntry) (n : ℕ)
    → d.bytes_received ≡ 0
    → d.total_size ≡ n
    → 0 < n
    → n < 18446744073709551616
    → (n % 4294967296 ≡ 0 → n ≡ 0)
    → (0 < first_chunk d) × (d.bytes_received + first_chunk d ≤ n)
first_chunk-bounds d n begun total some_bytes small odd = elim (decide_zero (n % 4294967296)) [
  | inl nil ↦ absurd (omega (arith, odd nil, some_bytes))
  | inr rest ↦ (ground (arith, begun, total, rest), ground (arith, begun, total))
]
  where
    decide_zero : (m : ℕ) → (m ≡ 0) ⊎ (0 < m)
    decide_zero zero = inl refl
    decide_zero (suc m) = inr (omega arith)

module _ (offers : ℕ → Bool) (contents : ℕ → Bytes) (dir : Bytes) (c : ℕ) (X : Files → Type 0) where
  -- The entry of a file with bytes, when its size is known, and the state that holds it.
  abbrev open_entry : ℕ → Descriptor → Files → DownloadEntry
  open_entry i f s = record (sized_entry offers contents dir c X i f s) {
    total_size = size_of (answer offers contents (request_for i Wanted.size 0 8 s));
    size_received = true;
    fp = true;
  }

  abbrev opened : ℕ → Descriptor → Files → Files
  opened i f s = put_entry i (open_entry i f s) (
      emit (create_file (open_entry i f s).temp_path) (
        emit (make_parents (open_entry i f s).temp_path)
          (size_asked offers contents dir c X i f s)))

  opened-Filling :
      (i : ℕ) (f : Descriptor) (fs : List Descriptor) (acc : List Report) (s : Files)
      → f.is_directory ≡ false
      → offers i ≡ true
      → length (contents i) < 18446744073709551616
      → 0 < length (contents i)
      → Ready offers contents dir c i (f ∷ fs) acc s
      → Filling offers contents dir c 2147483647 i f fs acc (open_entry i f s) (opened i f s)
  opened-Filling i f fs acc s file offered small some_bytes v =
      let (current, at, flagged, behind, others, inside, id) =
        at-Ready offers contents dir c X i f fs acc s v in
      let same = length-set s.downloads i (sized_entry offers contents dir c X i f s) in
      let here : i < length (set s.downloads i (sized_entry offers contents dir c X i f s)) =
        rw same inside in
      record {
        channel = v.channel;
        busy = v.busy;
        current = v.current;
        ids =
            All-set (IdBelow (suc s.next_stream_id)) (set s.downloads i _) i _
              (All-set (IdBelow (suc s.next_stream_id)) s.downloads i _
                (All-IdBelow-suc s.next_stream_id s.downloads v.ids) (omega arith))
              (omega arith);
        room = omega (arith, v.room);
        descriptors = others;
        entries = drop-set (set s.downloads i _) i _ ∙ drop-set s.downloads i _ ∙ behind;
        inside =
            rw
              (length-set (set s.downloads i (sized_entry offers contents dir c X i f s)) i
                (open_entry i f s))
              here;
        at = get_elem?-set_self (set s.downloads i _) i _ here;
        own = omega arith;
        path = refl;
        file = file;
        offered = offered;
        index = refl;
        open_stream = refl;
        sized = refl;
        total = size_of-answer offers contents dir c X i s small;
        missing = some_bytes;
        log = v.log;
        bytes = refl;
      }

  opened-AwaitsBytes :
      (i : ℕ) (f : Descriptor) (fs : List Descriptor) (acc : List Report) (s : Files)
      → f.is_directory ≡ false
      → Ready offers contents dir c i (f ∷ fs) acc s
      → Filling offers contents dir c 2147483647 i f fs acc (open_entry i f s) (opened i f s)
      → AwaitsBytes (open_entry i f s) (opened i f s)
  opened-AwaitsBytes i f fs acc s file v w =
      let (current, at, flagged, behind, others, inside, id) =
        at-Ready offers contents dir c X i f fs acc s v in
      record {
        current = ap (get_elem? (opened i f s).downloads) v.current ∙ w.at;
        file = flagged ∙ file;
        open_entry = refl;
        sized = refl;
      }

  pub serve-bytes :
      (n i : ℕ) (f : Descriptor) (fs : List Descriptor) (acc : List Report) (s : Files)
      → f.is_directory ≡ false
      → offers i ≡ true
      → Sendable (contents i)
      → 0 < length (contents i)
      → Rest offers contents dir c X (suc i) fs (report offers contents dir i f ∷ acc)
      → Ready offers contents dir c i (f ∷ fs) acc s
      → length (contents i) + answers contents (suc i) fs ≤ n
      → X (serve (suc n) offers contents (size_asked offers contents dir c X i f s))
  unfolding range_round
  serve-bytes n i f fs acc s file offered (small, odd) some_bytes rest v enough =
      let r = answer offers contents (request_for i Wanted.size 0 8 s) in
      let known = size_of-answer offers contents dir c X i s small in
      let w = opened-Filling i f fs acc s file offered small some_bytes v in
      let bounds =
        first_chunk-bounds (open_entry i f s) (length (contents i)) refl known some_bytes small
          odd in
      subst X
        (sym (
          serve-size offers contents dir c X n i f fs acc s offered v
          ∙ ap (serve n offers contents) (
              size-some (willing r) r i (sized_entry offers contents dir c X i f s)
                (size_asked offers contents dir c X i f s) (rw known some_bytes) refl
              ∙ start-range all_accepted (open_entry i f s) (opened i f s)
                  (opened-AwaitsBytes i f fs acc s file v w)
              ∙ next-asked offers contents dir c i f fs acc (open_entry i f s) (opened i f s) w
                  (first_chunk (open_entry i f s)))))
        (serve-Serving offers contents dir c X n i f fs acc _ _ _ small rest
          (asked-Serving offers contents dir c i f fs acc (open_entry i f s) (opened i f s)
            (first_chunk (open_entry i f s)) w bounds.0 bounds.1)
          (omega (arith, enough)))
