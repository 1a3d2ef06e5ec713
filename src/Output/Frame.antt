-- ===== src/Output/Frame.antt =====
-- The message format of output.h, `[type:u32-LE][length:u32-LE][payload...]`, as a reader that is
-- independent of the code that writes it.
use rdp_mcp.Prelude.{
  ℕ, zero, suc, ◌+◌, ◌*◌, ◌/◌, ◌%◌, ◌<◌, ◌≤◌, ◌≡◌, refl, ap, ◌∙◌, sym, Option, none, some, List, [],
  ◌∷◌, ◌++◌, Bytes, length, take, drop, leb, le→leb, if◌then◌else◌, ◌>>=◌, arith, append_assoc,
  length-append, take-length-append, drop-length-append, All,
}
use rdp_mcp.Output.{le32}

pub record Message : Type 0 where
  pub kind : ℕ
  pub payload : Bytes

abbrev pub from_le16 : ℕ → ℕ → ℕ
from_le16 a b = a + 256 * b

abbrev pub from_le32 : ℕ → ℕ → ℕ → ℕ → ℕ
from_le32 a b c d = a + 256 * b + 65536 * c + 16777216 * d

-- One message from the front of a stream, and what follows it.
unfoldable pub read_message : Bytes → Option (Message × Bytes)
read_message (t0 ∷ t1 ∷ t2 ∷ t3 ∷ l0 ∷ l1 ∷ l2 ∷ l3 ∷ rest) =
    let n = from_le32 l0 l1 l2 l3 in
    if leb n (length rest)
    then some (record { kind = from_le32 t0 t1 t2 t3; payload = take n rest }, drop n rest)
    else none
read_message _ = none

-- All messages of a stream; each takes 8 bytes at least, so its length is fuel enough.
unfoldable pub read_loop : ℕ → Bytes → Option (List Message)
read_loop fuel [] = some []
read_loop zero (b ∷ bs) = none
read_loop (suc fuel) (b ∷ bs) = do
  (m, rest) ← read_message (b ∷ bs)
  ms ← read_loop fuel rest
  some (m ∷ ms)

unfoldable pub read_messages : Bytes → Option (List Message)
unfolding read_loop
read_messages bs = read_loop (length bs) bs

-- What the writer puts on the pipe for a message.
abbrev pub frame : Message → Bytes
frame m = le32 m.kind ++ (le32 (length m.payload) ++ m.payload)

abbrev pub FitsFrame : Message → Type 0
FitsFrame m = (m.kind < 4294967296) × (length m.payload < 4294967296)

from-le32 :
    (v : ℕ)
    → v < 4294967296
    → from_le32 (v % 256) (v / 256 % 256) (v / 65536 % 256) (v / 16777216 % 256) ≡ v
from-le32 v h = omega arith

-- A frame is read back, with what follows it untouched.
pub read_message-frame :
    (m : Message) (rest : Bytes) → FitsFrame m → read_message (frame m ++ rest) ≡ some (m, rest)
unfolding read_message
read_message-frame m rest fits =
    rw (from-le32 m.kind fits.0, from-le32 (length m.payload) fits.1)
      (rw (le→leb (length m.payload) (length (m.payload ++ rest)) enough)
        (rw (take-length-append m.payload rest, drop-length-append m.payload rest)))
  where
    enough : length m.payload ≤ length (m.payload ++ rest)
    enough = omega (arith, length-append m.payload rest)

abbrev pub frames : List Message → Bytes
frames [] = []
frames (m ∷ ms) = frame m ++ frames ms

pub frames-append : (ms ns : List Message) → frames (ms ++ ns) ≡ frames ms ++ frames ns
frames-append [] ns = refl
frames-append (m ∷ ms) ns =
    ap (◌++◌ (frame m)) (frames-append ms ns) ∙ sym (append_assoc (frame m) (frames ms) (frames ns))

read_loop-frames :
    (ms : List Message) (fuel : ℕ)
    → All FitsFrame ms
    → length (frames ms) ≤ fuel
    → read_loop fuel (frames ms) ≡ some ms
unfolding read_loop
read_loop-frames [] fuel fits h = refl
read_loop-frames (m ∷ ms) zero fits h = absurd (omega arith)
read_loop-frames (m ∷ ms) (suc fuel) fits h =
    rw (read_message-frame m (frames ms) fits.0)
      (rw (read_loop-frames ms fuel fits.1 (omega (arith, length-append m.payload (frames ms)))))

pub read_messages-frames :
    (ms : List Message) → All FitsFrame ms → read_messages (frames ms) ≡ some ms
unfolding read_messages
read_messages-frames ms fits = read_loop-frames ms (length (frames ms)) fits (omega arith)
