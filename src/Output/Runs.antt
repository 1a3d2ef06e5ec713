-- ===== src/Output/Runs.antt =====
-- Runs of output.c, and its theorems at these runs.
use rdp_mcp.Prelude.{
  ◌≡◌, refl, ◌↔◌, ◌<◌, true, none, some, List, [], ◌∷◌, Bytes, codes, length, map, pos, arith,
}
use rdp_mcp.Output.{
  Call, output_init_callback, output_send, output_send_clipboard_native, output_send_error,
  output_send_disconnected,
}
use rdp_mcp.Output.Frame.{read_messages}
use rdp_mcp.Output.Request.{
  Request, connected, bitmap, native, perform, perform_all, all_messages, on_pipe, on_callback,
  message_of,
}
use rdp_mcp.Output.Delivery.{perform_all-read_messages, perform_all-callback}
use rdp_mcp.Output.Overread.{send_printed-overread}
use rdp_mcp.Output.Lifecycle.{IsReady, Reaches, here, next, init_callback, initial, Reaches-IsReady}

abbrev two_messages : List Request
two_messages = connected (pos 800) (pos 600) ∷ bitmap 1 2 1 1 (9 ∷ 8 ∷ 7 ∷ 255 ∷ []) ∷ []

perform_all-read_messages_example :
    (stream : Bytes) × (perform_all two_messages (on_pipe [] []) ≡ some (on_pipe stream []))
    × (read_messages stream ≡ some (all_messages two_messages))
perform_all-read_messages_example =
    perform_all-read_messages two_messages [] (tt, (omega arith, tt))

perform_all-callback_example :
    (cs : List Call) × (perform_all two_messages (on_callback 5 []) ≡ some (on_callback 5 cs))
    × (map message_of cs ≡ all_messages two_messages)
perform_all-callback_example = perform_all-callback 5 two_messages (tt, (omega arith, tt))

send_printed-overread_example :
    ((output_send_error (some (codes "failed")) (on_pipe [] []) ≡ none)
      ↔ (2034 < length (codes "failed")))
    × ((output_send_disconnected (some (codes "failed")) (on_pipe [] []) ≡ none)
        ↔ (1012 < length (codes "failed")))
send_printed-overread_example =
    send_printed-overread (codes "failed") (on_pipe [] []) refl (omega arith)

native_sent :
    perform native (on_pipe [] [])
    ≡ some (on_pipe (0x0A ∷ 0 ∷ 0 ∷ 0 ∷ 2 ∷ 0 ∷ 0 ∷ 0 ∷ codes "{}") [])
unfolding perform output_send_clipboard_native output_send
native_sent = refl

with_callback : Reaches initial (output_init_callback true 7 initial)
with_callback = next here (init_callback 7) refl

Reaches-IsReady_example : IsReady (output_init_callback true 7 initial)
Reaches-IsReady_example = Reaches-IsReady with_callback
