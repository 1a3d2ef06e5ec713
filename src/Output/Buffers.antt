-- ===== src/Output/Buffers.antt =====
-- Reads of the buffers that the senders of output.c are given.
use rdp_mcp.Prelude.{
  ℕ, suc, ◌-◌, ◌<◌, ◌≡◌, ap, false, Option, none, some, [], ◌∷◌, ◌++◌, Bytes, codes, length, le→leb,
  arith, append-nil, length-append, take_all, take-length-append, ℤ, pos, leb_ℤ, decimal_ℤ,
  length-decimal_ℤ, ◌==◌,
}
use rdp_mcp.Output.{
  Call, le32, printed, dimensions_json, disconnected_json, error_json, sub_header, read_buffer,
}
use rdp_mcp.Output.Frame.{frame, frames}
use rdp_mcp.Output.Request.{Shorter}

pub read_whole : (b : Bytes) → read_buffer (some b) (length b) ≡ some b
read_whole b =
    rw (le→leb (length b) (length b) (omega arith)) (ap some (take_all (length b) b (omega arith)))

pub read_printed :
    (size : ℕ) (t : Bytes)
    → length t < size
    → read_buffer (some (printed size t)) (length t) ≡ some t
read_printed size t h = rw (take_all (size - 1) t (omega arith)) (
    rw (le→leb (length t) (length (t ++ (0 ∷ []))) (omega (arith, length-append t (0 ∷ []))))
      (ap some (take-length-append t (0 ∷ []))))

pub dimensions_short : (w h : ℤ) → length (dimensions_json w h) < 128
dimensions_short w h = omega (
  arith,
  length-append (decimal_ℤ w) (codes ",\"height\":" ++ (decimal_ℤ h ++ codes "}")),
  length-append (decimal_ℤ h) (codes "}"),
  length-decimal_ℤ w,
  length-decimal_ℤ h,
)

pub disconnected_short : (e : Option Bytes) → Shorter 1012 e → length (disconnected_json e) < 1024
disconnected_short none h = omega arith
disconnected_short (some e) h = omega (arith, length-append e (codes "\"}"))

pub error_short : (m : Option Bytes) → Shorter 2034 m → length (error_json m) < 2048
error_short none h = omega arith
error_short (some m) h = omega (arith, length-append m (codes "\"}"))

abbrev pub framed : ℕ → Bytes → Bytes
framed k p = frame (record { kind = k; payload = p })

abbrev pub call_of : ℕ → Bytes → Bytes → ℕ → Call
call_of k a b u = record { kind = k; part_a = a; part_b = b; user_data = u }

pub frames_one : (k : ℕ) (p : Bytes) → frames (record { kind = k; payload = p } ∷ []) ≡ framed k p
frames_one k p = rw (append-nil p)

abbrev pub pixel_frame : ℕ → ℕ → ℕ → ℕ → ℕ → ℕ → Bytes → Bytes
pixel_frame k n x y w h px = le32 k ++ (le32 n ++ (sub_header x y w h ++ px))

pub text_positive : (n : ℕ) → leb_ℤ (pos (suc n)) (pos 0) ≡ false
text_positive n = ground arith

pub suc-ne-zero : (n : ℕ) → (suc n == 0) ≡ false
suc-ne-zero n = ground arith
