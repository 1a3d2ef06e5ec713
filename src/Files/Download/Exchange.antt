-- ===== src/Files/Download/Exchange.antt =====
-- A download of cliprdr_file.c against a server that answers each request with the file's own bytes,
-- and what the log says of the files that were stored.
use rdp_mcp.Prelude.{
  ap, ℕ, zero, suc, ◌+◌, ◌*◌, ◌/◌, ◌%◌, ◌<◌, ◌≡◌, sym, ◌||◌, Bool, true, if◌then◌else◌, Option,
  none, some, List, [], ◌∷◌, ◌++◌, Bytes, arith, length, take, drop, ◌==◌,
}
use rdp_mcp.Files.{
  Files, Descriptor, Wanted, Effect, ContentsRequest, contents_request, make_directory, create_file,
  write_file, file_done, file_error,
}
use rdp_mcp.Files.Download.{entry_path}
use rdp_mcp.Files.Responses.{Env, Response, cb_server_file_contents_response, from_le}

-- The size of a file on the wire: eight bytes, least significant first.
abbrev pub le_bytes : ℕ → ℕ → Bytes
le_bytes zero n = []
le_bytes (suc k) n = n % 256 ∷ le_bytes k (n / 256)

abbrev pub powers_256 : ℕ → ℕ
powers_256 zero = 1
powers_256 (suc k) = 256 * powers_256 k

pub from_le-le_bytes : (k n : ℕ) → n < powers_256 k → from_le (le_bytes k n) ≡ n
from_le-le_bytes zero n h = omega (arith, h)
from_le-le_bytes (suc k) n h = omega (arith, from_le-le_bytes k (n / 256) (omega (arith, h)))

-- The answer of a server whose file with index `i` is `contents i`, and which refuses every request
-- for a file that it does not offer.
abbrev pub answered_bytes : (ℕ → Bytes) → ContentsRequest → Bytes
answered_bytes contents q = elim q.flags [
  | Wanted.size ↦ le_bytes 8 (length (contents q.list_index))
  | Wanted.range ↦ take q.cb_requested (drop q.offset (contents q.list_index))
]

abbrev pub answer : (ℕ → Bool) → (ℕ → Bytes) → ContentsRequest → Response
answer offers contents q = record {
  stream_id = q.stream_id;
  ok = offers q.list_index;
  data_bytes = some (answered_bytes contents q);
  cb_requested = length (answered_bytes contents q);
}

abbrev pub all_accepted : ℕ → Bool
all_accepted n = true

-- The files open, and what there is to write is written.
abbrev pub willing : Response → Env
willing r = record {
  opens = true;
  written = elim r.data_bytes [ none ↦ 0 | some bs ↦ length bs ];
  accepts = all_accepted;
}

-- The request that waits for its answer.
abbrev pub latest : List Effect → Option ContentsRequest
latest (contents_request q ∷ es) = some q
latest es = none

abbrev pub pending : Files → Option ContentsRequest
pending s = if s.downloading then latest s.effects else none

-- The exchange, for so many answers at most.
unfoldable pub serve : ℕ → (ℕ → Bool) → (ℕ → Bytes) → Files → Files
serve zero offers contents s = s
serve (suc n) offers contents s = elim (pending s) [
  | none ↦ s
  | some q ↦ serve n offers contents (
      cb_server_file_contents_response (willing (answer offers contents q))
        (answer offers contents q) s)
]

-- A file that was reported as done: the bytes written since its creation, and the size reported.
pub record Stored : Type 0 where
  pub index : ℕ
  pub path : Option Bytes
  pub bytes : Bytes
  pub size : ℕ

-- The bytes of the file with an index, since the last file or directory was created.
abbrev pub written : ℕ → List Effect → Bytes
written i [] = []
written i (create_file p ∷ es) = []
written i (make_directory p ∷ es) = []
written i (write_file j bs ∷ es) = if i == j then written i es ++ bs else written i es
written i (e ∷ es) = written i es

pub written_self :
    (i : ℕ) (bs : Bytes) (es : List Effect) → written i (write_file i bs ∷ es) ≡ written i es ++ bs
written_self i bs es = ground arith

-- What the embedding program is told of a file in the end.
pub data Report : Type 0 where
  kept : Stored → Report
  failed : ℕ → Report

-- The reports, the last one first.
abbrev pub reports : List Effect → List Report
reports [] = []
reports (file_done i p name size ∷ es) =
    kept (record { index = i; path = p; bytes = written i es; size = size }) ∷ reports es
reports (file_error i message ∷ es) = failed i ∷ reports es
reports (e ∷ es) = reports es

-- What a download is to store for the files from an index on, and a directory holds no bytes.
abbrev pub file_bytes : (ℕ → Bytes) → ℕ → Descriptor → Bytes
file_bytes contents i f = if f.is_directory then [] else contents i

abbrev pub whole : (ℕ → Bytes) → Bytes → ℕ → Descriptor → Stored
whole contents dir i f = record {
  index = i;
  path = some (entry_path dir f);
  bytes = file_bytes contents i f;
  size = length (file_bytes contents i f);
}

-- A file that is not offered fails.
abbrev pub report : (ℕ → Bool) → (ℕ → Bytes) → Bytes → ℕ → Descriptor → Report
report offers contents dir i f =
    if f.is_directory || offers i then kept (whole contents dir i f) else failed i

abbrev pub all_reports :
    (ℕ → Bool) → (ℕ → Bytes) → Bytes → ℕ → List Descriptor → List Report → List Report
all_reports offers contents dir i [] acc = acc
all_reports offers contents dir i (f ∷ fs) acc =
    all_reports offers contents dir (suc i) fs (report offers contents dir i f ∷ acc)

pub reports-kept :
    (offers : ℕ → Bool) (contents : ℕ → Bytes) (dir : Bytes) (i n j : ℕ) (f : Descriptor)
    (p : Option Bytes) (x : Bytes) (acc bcc : List Report)
    → (f.is_directory || offers i) ≡ true
    → j ≡ i
    → p ≡ some (entry_path dir f)
    → x ≡ file_bytes contents i f
    → n ≡ length (file_bytes contents i f)
    → acc ≡ bcc
    → kept (record { index = j; path = p; bytes = x; size = n }) ∷ acc
      ≡ report offers contents dir i f ∷ bcc
reports-kept offers contents dir i n j f p x acc bcc hk hj hp hx hn ha =
    rw (hj, hp, hx, hn, ha)
      (ap (λ b. (if b then kept (whole contents dir i f) else failed i) ∷ bcc) (sym hk))

-- The answers that are enough: one for the size of a file, and at most one for each of its bytes.
abbrev pub answers : (ℕ → Bytes) → ℕ → List Descriptor → ℕ
answers contents i [] = 0
answers contents i (f ∷ fs) = suc (length (contents i)) + answers contents (suc i) fs
