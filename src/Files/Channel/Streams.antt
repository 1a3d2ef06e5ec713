-- ===== src/Files/Channel/Streams.antt =====
-- The stream ids of cliprdr_file.c.
use rdp_mcp.Prelude.{ℕ, ◌≤◌, Bool, List, [], ◌∷◌, All, arith}
use rdp_mcp.Files.{
  Files, Wanted, Effect, contents_request, emit, send_file_contents_request, max_stream_id,
}
use rdp_mcp.Files.Download.{finish_downloads}
use rdp_mcp.Files.Download.Rounds.{Plain, Kept, kept-response, kept-request}
use rdp_mcp.Files.Channel.{
  Event, server_has_files, fgd_response, request_download, contents_response, server_lock,
  server_unlock, cb_server_lock_clipboard_data, cb_server_unlock_clipboard_data,
  cliprdr_file_server_has_files, cliprdr_file_handle_fgd_response, step, run,
}

abbrev pub IsStream : ℕ → Type 0
IsStream i = (1 ≤ i) × (i ≤ max_stream_id)

-- A request for contents carries a stream id that the protocol allows.
abbrev pub InRange : Effect → Type 0
InRange (contents_request r) = IsStream r.stream_id
InRange e = Unit

abbrev pub Streams : Files → Type 0
Streams s = IsStream s.next_stream_id × All InRange s.effects

send-Streams :
    (accepts : ℕ → Bool) (i : ℕ) (w : Wanted) (o n : ℕ) (s : Files)
    → Streams s
    → Streams (send_file_contents_request accepts i w o n s).0
unfolding send_file_contents_request
send-Streams accepts i w o n s (fits, logged) = ground (arith, fits, logged)

finish-Streams : (s : Files) → Streams s → Streams (finish_downloads s)
unfolding finish_downloads
finish-Streams s h = ground arith

Streams-Kept : Kept Streams
Streams-Kept = record {
  moved = λ s ds n b t h. h;
  logged = quiet;
  asked = send-Streams;
  finished = finish-Streams;
}
  where
    quiet : (e : Effect) (s : Files) → Plain e → Streams s → Streams (emit e s)
    quiet (contents_request r) s impure h = absurd impure
    quiet e s plain (fits, logged) = (fits, (tt, logged))

offer-Streams :
    (accepted : Bool) (id : ℕ) (s : Files)
    → Streams s
    → Streams (cliprdr_file_server_has_files accepted id s)
unfolding cliprdr_file_server_has_files
offer-Streams accepted id s h = ground arith

step-Streams : (e : Event) (s : Files) → Streams s → Streams (step e s)
unfolding step cliprdr_file_handle_fgd_response cb_server_lock_clipboard_data
    cb_server_unlock_clipboard_data
step-Streams (server_has_files accepted id) s h = offer-Streams accepted id s h
step-Streams (fgd_response []) s h = h
step-Streams (fgd_response (f ∷ fs)) s (fits, logged) = (fits, (tt, logged))
step-Streams (request_download accepts dir) s h = kept-request Streams-Kept accepts dir s h
step-Streams (contents_response e r) s h = kept-response Streams-Kept e r s h
step-Streams (server_lock id) s h = h
step-Streams (server_unlock id) s h = ground arith

-- Every request for contents in the log of a channel carries a stream id from 1 to 0x7FFFFFFF, if the
-- log of the start does so and the next id is one of them.
pub run-InRange :
    (es : List Event) (s : Files)
    → IsStream s.next_stream_id
    → All InRange s.effects
    → All InRange (run es s).effects
unfolding run
run-InRange [] s fits logged = logged
run-InRange (e ∷ es) s fits logged =
    let (fits', logged') = step-Streams e s (fits, logged) in
    run-InRange es (step e s) fits' logged'
