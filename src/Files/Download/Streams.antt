-- ===== src/Files/Download/Streams.antt =====
-- Which entry of cliprdr_file.c a response belongs to: stream ids are handed out in order.
use rdp_mcp.Prelude.{
  ℕ, zero, suc, ◌+◌, ◌<◌, ◌≡◌, refl, Bool, none, some, List, [], ◌∷◌, arith, length, drop,
  get_elem?, set, All, ap,
}
use rdp_mcp.Files.{
  Files, DownloadEntry, ContentsRequest, Wanted, contents_request, send_file_contents_request,
}
use rdp_mcp.Files.Responses.{find_stream}

module _ {ℓ} {A : Type ℓ} where
  pub drop-cons :
      (ds : List A) (i : ℕ) (d : A) (rest : List A)
      → drop i ds ≡ d ∷ rest
      → (get_elem? ds i ≡ some d) × (drop (suc i) ds ≡ rest) × (i < length ds)
  drop-cons [] zero d rest h = cc
  drop-cons [] (suc i) d rest h = cc
  drop-cons (x ∷ xs) zero d rest h = (cc, cc, omega arith)
  drop-cons (x ∷ xs) (suc i) d rest h =
      let (at, behind, inside) = drop-cons xs i d rest h in (at, behind, omega (arith, inside))

  pub drop-nil : (ds : List A) (i : ℕ) → drop i ds ≡ [] → get_elem? ds i ≡ none
  drop-nil [] i h = refl
  drop-nil (x ∷ xs) zero h = cc
  drop-nil (x ∷ xs) (suc i) h = drop-nil xs i h

  pub drop-set : (ds : List A) (i : ℕ) (d : A) → drop (suc i) (set ds i d) ≡ drop (suc i) ds
  drop-set [] i d = refl
  drop-set (x ∷ xs) zero d = refl
  drop-set (x ∷ xs) (suc i) d = drop-set xs i d

  pub set-set : (ds : List A) (i : ℕ) (d e : A) → set (set ds i d) i e ≡ set ds i e
  set-set [] i d e = refl
  set-set (x ∷ xs) zero d e = refl
  set-set (x ∷ xs) (suc i) d e = ap (◌∷◌ x) (set-set xs i d e)

-- The stream id is below a number.
abbrev pub IdBelow : ℕ → DownloadEntry → Type 0
IdBelow n d = d.stream_id < n

pub All-IdBelow-suc :
    (n : ℕ) (ds : List DownloadEntry) → All (IdBelow n) ds → All (IdBelow (suc n)) ds
All-IdBelow-suc n [] h = tt
All-IdBelow-suc n (d ∷ ds) h = (omega (arith, h.0), All-IdBelow-suc n ds h.1)

-- An entry with an id that no entry had before is the one that is found.
pub find_stream-set :
    (ds : List DownloadEntry) (k i : ℕ) (d : DownloadEntry) (n : ℕ)
    → All (IdBelow n) ds
    → i < length ds
    → d.stream_id ≡ n
    → find_stream n k (set ds i d) ≡ some (k + i, d)
unfolding find_stream
find_stream-set [] k i d n ids h e = absurd (omega (arith, h))
find_stream-set (x ∷ xs) k zero d n ids h e = ground (arith, e)
find_stream-set (x ∷ xs) k (suc i) d n ids h e =
    let rest = find_stream-set xs (suc k) i d n ids.1 (omega (arith, h)) e in
    ground (arith, rest, ids.0)

-- A request that the channel takes.
abbrev pub request_for : ℕ → Wanted → ℕ → ℕ → Files → ContentsRequest
request_for i w o n s = record {
  stream_id = s.next_stream_id;
  list_index = i;
  flags = w;
  offset = o;
  cb_requested = n;
  have_clip_data_id = s.our_lock_active;
  clip_data_id = s.our_lock_id;
}

abbrev pub asked : ℕ → Wanted → ℕ → ℕ → DownloadEntry → Files → Files
asked i w o n d s = record s {
  next_stream_id = suc s.next_stream_id;
  downloads = set s.downloads i (record d { stream_id = s.next_stream_id });
  effects = contents_request (request_for i w o n s) ∷ s.effects;
}

pub send-asked :
    (accepts : ℕ → Bool) (i : ℕ) (w : Wanted) (o n c : ℕ) (d : DownloadEntry) (s : Files)
    → s.cliprdr ≡ some c
    → get_elem? s.downloads i ≡ some d
    → s.next_stream_id < 2147483647
    → send_file_contents_request accepts i w o n s ≡ (asked i w o n d s, accepts s.next_stream_id)
unfolding send_file_contents_request
send-asked accepts i w o n c d s hc at ids = ground (arith, hc, at, ids)
