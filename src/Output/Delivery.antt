-- ===== src/Output/Delivery.antt =====
-- Any sequence of calls of output.h's senders: what arrives at the other end of the pipe, and at the
-- callback, and what the fixed buffers of the JSON senders cannot hold.
use rdp_mcp.Prelude.{
  ℕ, ◌<◌, ◌≡◌, refl, ap, ◌∙◌, sym, Option, none, some, List, [], ◌∷◌, ◌++◌, map, Bytes, arith,
  append_assoc, append-nil, All, All-append,
}
use rdp_mcp.Output.{Call}
use rdp_mcp.Output.Frame.{
  Message, FitsFrame, frames, frames-append, read_messages, read_messages-frames,
}
use mathlib.Core.List.{map-append}
use rdp_mcp.Output.Request.{
  Request, TextKind, clipboard_text, file_list, file_done, file_error, file_progress, connected,
  resized, bitmap, cursor, disconnected, error, text, native, cursor_null, cursor_default,
  perform_all, kind_of, text_messages, messages, all_messages, Shorter, Fits, on_pipe, on_callback,
  message_of,
}
use rdp_mcp.Output.Buffers.{dimensions_short, disconnected_short, error_short, call_of}
use rdp_mcp.Output.Pipe.{perform_pipe}
use rdp_mcp.Output.Callback.{perform_callback, invocations}

text_fits :
    (k : ℕ) (t : Option Bytes) → k < 256 → Shorter 2147483648 t → All FitsFrame (text_messages k t)
text_fits k none hk h = tt
text_fits k (some []) hk h = omega arith
text_fits k (some (c ∷ t)) hk h = omega arith

kind_small : (k : TextKind) → kind_of k < 256
kind_small clipboard_text = omega arith
kind_small file_list = omega arith
kind_small file_done = omega arith
kind_small file_error = omega arith
kind_small file_progress = omega arith

messages_fit : (r : Request) → Fits r → All FitsFrame (messages r)
messages_fit (connected w h) f = omega (arith, dimensions_short w h)
messages_fit (resized w h) f = omega (arith, dimensions_short w h)
messages_fit (bitmap x y w h px) f = omega arith
messages_fit (cursor x y w h []) f = tt
messages_fit (cursor x y w h (c ∷ px)) f = omega arith
messages_fit (disconnected e) f = omega (arith, disconnected_short e f)
messages_fit (error m) f = omega (arith, error_short m f)
messages_fit (text k t) f = text_fits (kind_of k) t (kind_small k) f
messages_fit native f = omega arith
messages_fit cursor_null f = omega arith
messages_fit cursor_default f = omega arith

pub all_messages_fit : (rs : List Request) → All Fits rs → All FitsFrame (all_messages rs)
all_messages_fit [] f = tt
all_messages_fit (r ∷ rs) f =
    All-append FitsFrame (messages r) (all_messages rs) (messages_fit r f.0)
      (all_messages_fit rs f.1)

stream_from :
    (rs : List Request) (out : Bytes) (calls : List Call)
    → All Fits rs
    → perform_all rs (on_pipe out calls) ≡ some (on_pipe (out ++ frames (all_messages rs)) calls)
unfolding perform_all
stream_from [] out calls f = rw (append-nil out)
stream_from (r ∷ rs) out calls f = rw (perform_pipe out calls r f.0) (
    stream_from rs (out ++ frames (messages r)) calls f.1
    ∙ ap (λ b. some (on_pipe b calls))
        (append_assoc out (frames (messages r)) (frames (all_messages rs))
          ∙ ap (◌++◌ out) (sym (frames-append (messages r) (all_messages rs)))))

-- Whatever calls are made, in whatever order, on a freshly opened pipe, if their texts fit the
-- senders' buffers and their payloads a 32-bit length: no call reads outside its buffer, and a reader
-- of the format of output.h takes from the pipe exactly the messages of the calls, in their order.
pub perform_all-read_messages :
    (rs : List Request) (calls : List Call)
    → All Fits rs
    → (stream : Bytes) × (perform_all rs (on_pipe [] calls) ≡ some (on_pipe stream calls))
      × (read_messages stream ≡ some (all_messages rs))
perform_all-read_messages rs calls f = (
  frames (all_messages rs),
  stream_from rs [] calls f,
  read_messages-frames (all_messages rs) (all_messages_fit rs f),
)

map_payloads :
    (u : ℕ) (ms : List Message) → map message_of (map (λ m. call_of m.kind m.payload [] u) ms) ≡ ms
map_payloads u [] = refl
map_payloads u (m ∷ ms) = rw (append-nil m.payload, map_payloads u ms)

invocations-messages : (u : ℕ) (r : Request) → map message_of (invocations u r) ≡ messages r
invocations-messages u (bitmap x y w h px) = refl
invocations-messages u (cursor x y w h []) = refl
invocations-messages u (cursor x y w h (c ∷ px)) = refl
invocations-messages u (text k t) = map_payloads u (text_messages (kind_of k) t)
invocations-messages u (connected w h) = map_payloads u (messages (connected w h))
invocations-messages u (resized w h) = map_payloads u (messages (resized w h))
invocations-messages u (disconnected e) = map_payloads u (messages (disconnected e))
invocations-messages u (error m) = map_payloads u (messages (error m))
invocations-messages u native = refl
invocations-messages u cursor_null = refl
invocations-messages u cursor_default = refl

delivered_from :
    (u : ℕ) (rs : List Request) (calls : List Call)
    → All Fits rs
    → (cs : List Call) × (perform_all rs (on_callback u calls) ≡ some (on_callback u (calls ++ cs)))
      × (map message_of cs ≡ all_messages rs)
unfolding perform_all
delivered_from u [] calls f = ([], rw (append-nil calls), refl)
delivered_from u (r ∷ rs) calls f =
    let (cs, run, same) = delivered_from u rs (calls ++ invocations u r) f.1 in
    (
      invocations u r ++ cs,
      rw (perform_callback u calls r f.0)
          (run ∙ ap (λ b. some (on_callback u b)) (append_assoc calls (invocations u r) cs)),
      rw (map-append message_of (invocations u r) cs, invocations-messages u r, same),
    )

-- With a callback in place of the pipe the same calls deliver the same messages, in the same order,
-- each by one invocation whose two parts make up the payload.
pub perform_all-callback :
    (u : ℕ) (rs : List Request)
    → All Fits rs
    → (cs : List Call) × (perform_all rs (on_callback u []) ≡ some (on_callback u cs))
      × (map message_of cs ≡ all_messages rs)
perform_all-callback u rs f = delivered_from u rs [] f
