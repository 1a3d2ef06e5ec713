-- ===== src/Files/Download/Fuel.antt =====
-- The fuel of the download loop of cliprdr_file.c.
use rdp_mcp.Prelude.{
  ℕ, zero, suc, ◌+◌, ◌-◌, ◌≤◌, ◌≡◌, refl, ◌∙◌, Bool, true, not, Option, none, some, List, get_elem?,
  length, length-set, get_elem?-none, if_intro, arith, Option-cases, inl, inr, set,
}
use rdp_mcp.Files.{Files, DownloadEntry, Wanted, send_file_contents_request}
use rdp_mcp.Files.Download.{
  Round, go_on, stop, fail_entry, size_round, download_round, directory_round, finish_downloads,
  download_loop, start_next_download, is_directory_at,
}

-- A round that goes on passes one entry and keeps their number.
abbrev Passes : Files → Round → Type 0
Passes s (go_on t) =
    (t.download_current ≡ suc s.download_current) × (length t.downloads ≡ length s.downloads)
Passes s (stop t) = Unit

length-update :
    (o : Option DownloadEntry) (g : DownloadEntry → DownloadEntry) (ds : List DownloadEntry) (i : ℕ)
    → length (elim o [ none ↦ ds | some d ↦ set ds i (g d) ]) ≡ length ds
length-update none g ds i = refl
length-update (some d) g ds i = length-set ds i (g d)

sent-frame :
    (accepts : ℕ → Bool) (i : ℕ) (w : Wanted) (o n : ℕ) (s : Files)
    → let t = (send_file_contents_request accepts i w o n s).0 in
      (t.download_current ≡ s.download_current) × (length t.downloads ≡ length s.downloads)
unfolding send_file_contents_request
sent-frame accepts i w o n s =
    let kept =
      length-update (get_elem? s.downloads i) (λ d. record d { stream_id = s.next_stream_id })
        s.downloads i in
    elim (Option-cases s.cliprdr) [
      | inl nil ↦ ground (arith, nil)
      | inr (c, at) ↦ ground (arith, at, kept)
    ]

failed-frame :
    (i : ℕ) (s : Files)
    → ((fail_entry i s).download_current ≡ s.download_current)
      × (length (fail_entry i s).downloads ≡ length s.downloads)
failed-frame i s =
    let kept =
      length-update (get_elem? s.downloads i) (λ d. record d { complete = true }) s.downloads i in
    elim (Option-cases (get_elem? s.downloads i)) [
      | inl nil ↦ ground (arith, nil)
      | inr (d, at) ↦ ground (arith, at, kept)
    ]

pub round-Passes :
    (accepts : ℕ → Bool) (d : DownloadEntry) (s : Files) → Passes s (download_round accepts d s)
unfolding download_round directory_round size_round
round-Passes accepts d s =
    let t = sent-frame accepts d.file_index Wanted.size 0 8 s in
    let f =
      failed-frame s.download_current
        (send_file_contents_request accepts d.file_index Wanted.size 0 8 s).0 in
    if_intro (Passes s) d.complete (refl, refl)
      (if_intro (Passes s) (is_directory_at s s.download_current)
        (refl, length-set s.downloads s.download_current (record d { complete = true }))
        (if_intro (Passes s) (not d.size_received)
          (if_intro (Passes s) (send_file_contents_request accepts d.file_index Wanted.size 0 8 s).1
            tt (omega (arith, f.0, t.0), f.1 ∙ t.1))
          tt))

pub loop-nil :
    (n : ℕ) (accepts : ℕ → Bool) (s : Files)
    → get_elem? s.downloads s.download_current ≡ none
    → download_loop n accepts s ≡ finish_downloads s
unfolding download_loop
loop-nil zero accepts s e = refl
loop-nil (suc n) accepts s e = rw (e, download_loop)

-- The two loops agree behind a round.
follow :
    (s : Files) (r : Round) (f g : Files → Files)
    → Passes s r
    → ((t : Files)
        → t.download_current ≡ suc s.download_current
        → length t.downloads ≡ length s.downloads
        → f t ≡ g t)
    → (elim r [ go_on t ↦ f t | stop t ↦ t ]) ≡ (elim r [ go_on t ↦ g t | stop t ↦ t ])
follow s (go_on t) f g (next, same) agree = agree t next same
follow s (stop t) f g p agree = refl

loop-more :
    (k n : ℕ) (accepts : ℕ → Bool) (s : Files)
    → k ≤ n
    → length s.downloads ≤ s.download_current + k
    → download_loop n accepts s ≡ download_loop k accepts s
unfolding download_loop
loop-more zero n accepts s h l =
    loop-nil n accepts s (get_elem?-none s.downloads s.download_current (omega (arith, l)))
loop-more (suc k) zero accepts s h l = absurd (omega (arith, h))
loop-more (suc k) (suc n) accepts s h l =
    elim (Option-cases (get_elem? s.downloads s.download_current)) [
      | inl nil ↦ rw (nil, download_loop)
      | inr (d, at) ↦
          rw (at, download_loop)
            (follow s (download_round accepts d s) (download_loop n accepts)
              (download_loop k accepts) (round-Passes accepts d s)
              (λ t next same.
                loop-more k n accepts t (omega (arith, h)) (omega (arith, l, next, same))))
    ]

-- The loop over the downloads ends by itself: as much fuel as there are entries left, which is what
-- `start_next_download` gives it, is enough, and any more fuel gives the same result.
pub download_loop-fuel :
    (n : ℕ) (accepts : ℕ → Bool) (s : Files)
    → length s.downloads - s.download_current ≤ n
    → download_loop n accepts s ≡ start_next_download accepts s
unfolding start_next_download
download_loop-fuel n accepts s h =
    loop-more (length s.downloads - s.download_current) n accepts s h (omega arith)
