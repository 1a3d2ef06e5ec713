-- ===== src/Clipboard/Responses.antt =====
-- What cliprdr.c answers over any sequence of calls.
use rdp_mcp.Prelude.{ℕ, ◌+◌, refl, true, false, List, [], ◌∷◌, arith, All}
use rdp_mcp.Files.Channel.{cliprdr_file_channel_connected, cliprdr_file_channel_disconnected}
use rdp_mcp.Clipboard.{Clipboard, Library, cb_server_format_list_response, cb_server_capabilities}
use rdp_mcp.Clipboard.Steps.{
  Event, init, disconnected, server_capabilities, connected, monitor_ready, announce_files,
  format_list, format_list_response, server_data_request, server_data_response, set_text, stage,
  step, run, cliprdr_init, cliprdr_channel_connected, cliprdr_channel_disconnected,
}
use rdp_mcp.Clipboard.Counts.{
  cb_monitor_ready-Replies, cb_server_format_list-Replies, cb_server_format_data_request-Replies,
}
use rdp_mcp.Clipboard.Answers.{
  Outcome, IsReadable, cb_server_format_data_response-Outcome, cliprdr_announce_files-Answers,
  cliprdr_set_text-Outcome,
}

-- The data requests of a sequence of calls, and its format lists.
abbrev is_request : Event → ℕ
is_request (server_data_request e id) = 1
is_request _ = 0

abbrev is_list : Event → ℕ
is_list (format_list e fs) = 1
is_list _ = 0

abbrev pub requests : List Event → ℕ
requests [] = 0
requests (e ∷ es) = is_request e + requests es

abbrev pub lists : List Event → ℕ
lists [] = 0
lists (e ∷ es) = is_list e + lists es

step-Outcome :
    (lib : Library) (e : Event) (s : Clipboard)
    → IsReadable e
    → Outcome (is_request e) (is_list e) s (step lib e s)
unfolding step cliprdr_init cliprdr_channel_connected cliprdr_channel_disconnected
    cb_server_capabilities cb_server_format_list_response cliprdr_file_channel_connected
    cliprdr_file_channel_disconnected
step-Outcome lib init s h = (_, refl, (omega arith, omega arith))
step-Outcome lib disconnected s h = (_, refl, (omega arith, omega arith))
step-Outcome lib server_capabilities s h = (_, refl, (omega arith, omega arith))
step-Outcome lib (connected c) s h = (_, refl, (omega arith, omega arith))
step-Outcome lib (monitor_ready e) s h = (_, refl, cb_monitor_ready-Replies e s)
step-Outcome lib (announce_files e) s h = (_, refl, cliprdr_announce_files-Answers e s)
step-Outcome lib (format_list e fs) s h = (_, refl, cb_server_format_list-Replies e fs s)
step-Outcome lib (format_list_response e true) s h = (_, refl, (omega arith, omega arith))
step-Outcome lib (format_list_response e false) s h = (_, refl, (omega arith, omega arith))
step-Outcome lib (server_data_request e id) s h =
    (_, refl, cb_server_format_data_request-Replies lib e id s)
step-Outcome lib (server_data_response ok bytes) s h =
    cb_server_format_data_response-Outcome lib ok bytes s
step-Outcome lib (set_text e text n) s h = cliprdr_set_text-Outcome e text n s h
step-Outcome lib (stage fs ds) s h = (_, refl, (omega arith, omega arith))

-- Whatever calls come, in whatever order: the server gets one data response for each of its data
-- requests, from cliprdr.c or from cliprdr_file.c, and one format list response for each of its format
-- lists, and no others. No call reads outside its text, if the texts that are set are as long as their
-- lengths say.
pub run-Outcome :
    (lib : Library) (es : List Event) (s : Clipboard)
    → All IsReadable es
    → Outcome (requests es) (lists es) s (run lib es s)
unfolding run
run-Outcome lib [] s h = (s, refl, (omega arith, omega arith))
run-Outcome lib (e ∷ es) s h =
    let (s', now, (answered, listed)) = step-Outcome lib e s h.0 in
    let (s'', later, (answered', listed')) = run-Outcome lib es s' h.1 in
    (s'', rw (now) later, (omega (arith, answered, answered'), omega (arith, listed, listed')))
