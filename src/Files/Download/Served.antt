-- ===== src/Files/Download/Served.antt =====
-- The exchange for one file of cliprdr_file.c, from a request for its bytes to the next entry.
use rdp_mcp.Prelude.{
  Bool, ℕ, zero, suc, ◌+◌, ◌≤◌, ◌<◌, ◌≡◌, refl, sym, if_cases, ◌++◌, List, ◌∷◌, Bytes, arith,
  length, take, drop, take_all, ap, ◌∙◌, subst, leb,
}
use rdp_mcp.Files.{Files, Descriptor, DownloadEntry, ContentsRequest}
use rdp_mcp.Files.Download.{start_next_download, next_chunk}
use rdp_mcp.Files.Download.Stall.{chunk_bounds}
use rdp_mcp.Files.Download.Exchange.{
  answered_bytes, answer, all_accepted, willing, serve, Report, answers, report,
}
use rdp_mcp.Files.Download.Serving.{
  Ready, Serving, serve-pending, Serving-response, take_add, chunk-length, answered-range,
}
use rdp_mcp.Files.Download.Ranges.{
  extended, completed, range_data-computed, done-Ready, asked-Serving, extended-Filling, next-asked,
}

module _ (offers : ℕ → Bool) (contents : ℕ → Bytes) (dir : Bytes) (c : ℕ) (X : Files → Type 0) where
  -- What the entries behind one come to.
  abbrev pub Rest : ℕ → List Descriptor → List Report → Type 0
  Rest i fs acc =
      (n : ℕ) (t : Files)
      → Ready offers contents dir c i fs acc t
      → answers contents i fs ≤ n
      → X (serve n offers contents (start_next_download all_accepted t))

  -- The bytes of an answer are the next ones of the file.
  answer-next :
      (i : ℕ) (f : Descriptor) (fs : List Descriptor) (acc : List Report) (d : DownloadEntry)
      (q : ContentsRequest) (s : Files)
      → Serving offers contents dir c i f fs acc d q s
      → (length (answered_bytes contents q) ≡ q.cb_requested)
        × (take d.bytes_received (contents i) ++ answered_bytes contents q
            ≡ take (d.bytes_received + length (answered_bytes contents q)) (contents i))
  answer-next i f fs acc d q s v =
      let same = answered-range offers contents dir c i q v.flags v.list_index in
      let long =
        ap length same
        ∙ chunk-length offers contents dir c i q (omega (arith, v.chunk.1, v.offset)) in
      (
        long,
        ap (λ x. take d.bytes_received (contents i) ++ x)
              (same ∙ ap (λ k. take q.cb_requested (drop k (contents i))) v.offset)
            ∙ sym (take_add d.bytes_received q.cb_requested (contents i))
            ∙ ap (λ k. take (d.bytes_received + k) (contents i)) (sym long),
      )

  pub serve-Serving :
      (n i : ℕ) (f : Descriptor) (fs : List Descriptor) (acc : List Report) (d : DownloadEntry)
      (q : ContentsRequest) (s : Files)
      → length (contents i) < 18446744073709551616
      → Rest (suc i) fs (report offers contents dir i f ∷ acc)
      → Serving offers contents dir c i f fs acc d q s
      → length (contents i) + answers contents (suc i) fs ≤ n + d.bytes_received
      → X (serve n offers contents s)
  serve-Serving zero i f fs acc d q s small rest v enough =
      absurd (omega (arith, enough, v.filling.missing))
  serve-Serving (suc n) i f fs acc d q s small rest v enough =
      let (long, all) = answer-next i f fs acc d q s v in
      let bs = answered_bytes contents q in
      let inside : d.bytes_received + length bs ≤ length (contents i) =
        omega (arith, long, v.chunk.1) in
      let some_bytes : 0 < length bs = omega (arith, long, v.chunk.0) in
      let computed =
        serve-pending offers contents dir c n s q v.filling.busy v.request
        ∙ ap (serve n offers contents) (
            Serving-response offers contents dir c i f fs acc d q s v
            ∙ range_data-computed offers contents dir c (willing (answer offers contents q)) bs i d
                s refl (omega (arith, inside, small))) in
      subst X (sym computed) (
        if_cases (λ t. X (serve n offers contents t))
          (leb d.total_size (d.bytes_received + length bs))
          (λ last.
            let reached : length (contents i) ≤ d.bytes_received + length bs =
              ground (arith, last, v.filling.total) in
            rest n (completed offers contents dir c bs i d s)
              (done-Ready offers contents dir c i f fs acc d s bs 2147483648 v.filling (omega arith)
                (all ∙ take_all _ (contents i) reached))
              (omega (arith, enough, inside)))
          (λ more.
            let left : d.bytes_received + length bs < length (contents i) =
              ground (arith, more, v.filling.total) in
            let filled =
              extended-Filling offers contents dir c i f fs acc d s bs v.filling some_bytes left
                all in
            let bounds =
              chunk_bounds (extended offers contents dir c d bs) (rw v.filling.total left)
                (rw v.filling.total small) in
            subst (λ t. X (serve n offers contents t))
              (sym (
                next-asked offers contents dir c i f fs acc (extended offers contents dir c d bs) _
                  filled (next_chunk (extended offers contents dir c d bs))))
              (serve-Serving n i f fs acc _ _ _ small rest
                (asked-Serving offers contents dir c i f fs acc
                  (extended offers contents dir c d bs) _
                  (next_chunk (extended offers contents dir c d bs)) filled bounds.4
                  (rw (← v.filling.total) bounds.3))
                (omega (arith, enough, some_bytes)))))
