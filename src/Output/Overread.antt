-- ===== src/Output/Overread.antt =====
-- The JSON senders of output.c print into a buffer of fixed size and send as many bytes as `snprintf`
-- says the whole text has.
use rdp_mcp.Prelude.{
  ℕ, ◌+◌, ◌-◌, ◌%◌, ◌<◌, ◌≤◌, ◌≡◌, ◌↔◌, false, none, some, [], ◌∷◌, Bytes, codes, length, take, ltb,
  arith, length-append, length-take, Bool-cases, inl, inr, ltb→lt,
}
use rdp_mcp.Output.{
  Output, printed, disconnected_json, error_json, read_buffer, no_sink, output_send, send_printed,
  output_send_disconnected, output_send_error,
}

length-printed : (size : ℕ) (t : Bytes) → length (printed size t) ≤ size - 1 + 1
length-printed size t =
    omega (arith, length-append (take (size - 1) t) (0 ∷ []), length-take (size - 1) t)

read_printed_long :
    (size : ℕ) (t : Bytes)
    → 0 < size
    → size < length t
    → read_buffer (some (printed size t)) (length t) ≡ none
read_printed_long size t hs h = ground (arith, length-printed size t)

read_printed_short :
    (size : ℕ) (t : Bytes)
    → 0 < size
    → length t ≤ size
    → (b : Bytes) × (read_buffer (some (printed size t)) (length t) ≡ some b)
read_printed_short size t hs h = (
  take (length t) (printed size t),
  ground (arith, length-append (take (size - 1) t) (0 ∷ []), length-take (size - 1) t),
)

output_send-eq-none :
    (k n : ℕ) (b : Bytes) (o : Output)
    → no_sink o ≡ false
    → 0 < n
    → (output_send k (some b) n o ≡ none) ↔ (read_buffer (some b) n ≡ none)
unfolding output_send
output_send-eq-none k n b o sink h = (λ e. ground arith, λ e. ground arith)

send_printed-eq-none :
    (k size : ℕ) (t : Bytes) (o : Output)
    → no_sink o ≡ false
    → 0 < size
    → 0 < length t
    → length t < 4294967296
    → (send_printed k size t o ≡ none) ↔ (size < length t)
unfolding send_printed
send_printed-eq-none k size t o sink hs ht hu = rw same (
  λ e. elim (Bool-cases (ltb size (length t))) [
    | inl long ↦ ltb→lt size (length t) long
    | inr fits ↦ absurd (not_short fits (half.0 e))
  ],
  λ h. half.1 (read_printed_long size t hs h),
)
  where
    same : length t % 4294967296 ≡ length t
    same = omega arith

    half :
        (output_send k (some (printed size t)) (length t) o ≡ none)
        ↔ (read_buffer (some (printed size t)) (length t) ≡ none)
    half = output_send-eq-none k (length t) (printed size t) o sink ht

    not_short :
        ltb size (length t) ≡ false → ¬ (read_buffer (some (printed size t)) (length t) ≡ none)
    not_short fits e = let (b, r) = read_printed_short size t hs (ground arith) in cc

-- While a pipe or a callback is there, `output_send_error` reads past its 2048-byte buffer exactly if
-- the message has more than 2034 bytes.
output_send_error-eq-none :
    (m : Bytes) (o : Output)
    → no_sink o ≡ false
    → length m < 4294967282
    → (output_send_error (some m) o ≡ none) ↔ (2034 < length m)
unfolding output_send_error
output_send_error-eq-none m o sink h =
    let size = length-append m (codes "\"}") in
    let (l, r) =
      send_printed-eq-none 0xFF 2048 (error_json (some m)) o sink (omega arith) (omega arith)
        (omega (arith, size)) in
    (λ e. omega (arith, l e, size), λ k. r (omega (arith, size)))

-- Likewise `output_send_disconnected` reads past its 1024-byte buffer exactly if the error text has
-- more than 1012 bytes.
output_send_disconnected-eq-none :
    (e : Bytes) (o : Output)
    → no_sink o ≡ false
    → length e < 4294967284
    → (output_send_disconnected (some e) o ≡ none) ↔ (1012 < length e)
unfolding output_send_disconnected
output_send_disconnected-eq-none m o sink h =
    let size = length-append m (codes "\"}") in
    let (l, r) =
      send_printed-eq-none 3 1024 (disconnected_json (some m)) o sink (omega arith) (omega arith)
        (omega (arith, size)) in
    (λ e. omega (arith, l e, size), λ k. r (omega (arith, size)))

-- While a pipe or a callback is there, the two senders that print into a buffer of a fixed size read past
-- it exactly if the text is too long for it: output_send_error for more than 2034 bytes, and
-- output_send_disconnected for more than 1012.
pub send_printed-overread :
    (t : Bytes) (o : Output)
    → no_sink o ≡ false
    → length t < 4294967282
    → ((output_send_error (some t) o ≡ none) ↔ (2034 < length t))
      × ((output_send_disconnected (some t) o ≡ none) ↔ (1012 < length t))
send_printed-overread t o sink h = (
  output_send_error-eq-none t o sink h,
  output_send_disconnected-eq-none t o sink (omega (arith, h)),
)
