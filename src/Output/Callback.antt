-- ===== src/Output/Callback.antt =====
-- The senders of output.c while a callback is registered.
use rdp_mcp.Prelude.{
  ℕ, ◌+◌, ◌%◌, ◌<◌, ◌≡◌, refl, Option, none, some, List, [], ◌∷◌, ◌++◌, map, Bytes, length, subst,
  arith, append-nil,
}
use rdp_mcp.Output.{
  Call, printed, dimensions_json, disconnected_json, error_json, sub_header, read_buffer,
  send_printed, send_text, output_send, output_send_connected, output_send_bitmap,
  output_send_disconnected, output_send_resized, output_send_clipboard_text,
  output_send_clipboard_file_list, output_send_clipboard_file_done,
  output_send_clipboard_file_error, output_send_clipboard_file_progress,
  output_send_clipboard_native, output_send_cursor, output_send_cursor_null,
  output_send_cursor_default, output_send_error,
}
use rdp_mcp.Output.Request.{
  Request, clipboard_text, file_list, file_done, file_error, file_progress, connected, resized,
  bitmap, cursor, disconnected, error, text, native, cursor_null, cursor_default, strlen, perform,
  text_messages, cursor_messages, messages, Shorter, Fits, on_callback,
}
use rdp_mcp.Output.Buffers.{
  read_whole, read_printed, dimensions_short, disconnected_short, error_short, call_of,
  text_positive, suc-ne-zero,
}

module _ (u : ℕ) (calls : List Call) where
  send_callback :
      (k : ℕ) (b p : Bytes)
      → read_buffer (some b) (length p) ≡ some p
      → output_send k (some b) (length p) (on_callback u calls)
        ≡ some (on_callback u (calls ++ (call_of k p [] u ∷ [])))
  unfolding output_send
  send_callback k b p e = rw e

  printed_callback :
      (k size : ℕ) (t : Bytes)
      → length t < size
      → size < 4294967296
      → send_printed k size t (on_callback u calls)
        ≡ some (on_callback u (calls ++ (call_of k t [] u ∷ [])))
  unfolding send_printed
  printed_callback k size t h hs =
      subst
        (λ n.
          output_send k (some (printed size t)) n (on_callback u calls)
          ≡ some (on_callback u (calls ++ (call_of k t [] u ∷ []))))
        (omega arith) (send_callback k (printed size t) t (read_printed size t h))

  text_callback :
      (j : ℕ) (t : Option Bytes)
      → Shorter 2147483648 t
      → send_text j t (strlen t) (on_callback u calls)
        ≡ some
            (on_callback u (calls ++ map (λ m. call_of m.kind m.payload [] u) (text_messages j t)))
  text_callback j none h = rw (append-nil calls)
  text_callback j (some []) h = rw (append-nil calls)
  text_callback j (some (c ∷ t)) h = rw (text_positive (length t)) (
      subst
        (λ n.
          output_send j (some (c ∷ t)) n (on_callback u calls)
          ≡ some (on_callback u (calls ++ (call_of j (c ∷ t) [] u ∷ []))))
        (omega arith) (send_callback j (c ∷ t) (c ∷ t) (read_whole (c ∷ t))))

  pixels_read :
      (px : Bytes)
      → 8 + length px < 4294967296
      → read_buffer (some px) (length px % 4294967296) ≡ some px
  pixels_read px fits = subst (λ n. read_buffer (some px) n ≡ some px) (omega arith) (read_whole px)

  bitmap_callback :
      (x y w h : ℕ) (px : Bytes)
      → 8 + length px < 4294967296
      → output_send_bitmap x y w h (some px) (length px) (on_callback u calls)
        ≡ some (on_callback u (calls ++ (call_of 2 (sub_header x y w h) px u ∷ [])))
  unfolding output_send_bitmap
  bitmap_callback x y w h px fits = rw (pixels_read px fits)

  cursor_callback :
      (x y w h : ℕ) (px : Bytes)
      → 8 + length px < 4294967296
      → output_send_cursor x y w h (some px) (length px) (on_callback u calls)
        ≡ some (
            on_callback u (
              calls
              ++ map
                  (λ m. call_of 11 (sub_header x y w h) px u)
                  (cursor_messages (sub_header x y w h) px)))
  unfolding output_send_cursor
  cursor_callback x y w h [] fits = rw (append-nil calls)
  cursor_callback x y w h (c ∷ px) fits = rw (suc-ne-zero (length px), pixels_read (c ∷ px) fits)

-- The invocations of the callback for a call.
abbrev pub invocations : ℕ → Request → List Call
invocations u (bitmap x y w h px) = call_of 2 (sub_header x y w h) px u ∷ []
invocations u (cursor x y w h px) =
    map (λ m. call_of 11 (sub_header x y w h) px u) (cursor_messages (sub_header x y w h) px)
invocations u r = map (λ m. call_of m.kind m.payload [] u) (messages r)

pub perform_callback :
    (u : ℕ) (calls : List Call) (r : Request)
    → Fits r
    → perform r (on_callback u calls) ≡ some (on_callback u (calls ++ invocations u r))
unfolding perform output_send_connected output_send_resized output_send_disconnected
    output_send_error output_send_clipboard_text output_send_clipboard_file_list
    output_send_clipboard_file_done output_send_clipboard_file_error
    output_send_clipboard_file_progress output_send_clipboard_native output_send_cursor_null
    output_send_cursor_default
perform_callback u calls (connected w h) f =
    printed_callback u calls 1 128 (dimensions_json w h) (dimensions_short w h) (omega arith)
perform_callback u calls (resized w h) f =
    printed_callback u calls 4 128 (dimensions_json w h) (dimensions_short w h) (omega arith)
perform_callback u calls (bitmap x y w h px) f = bitmap_callback u calls x y w h px f
perform_callback u calls (cursor x y w h px) f = cursor_callback u calls x y w h px f
perform_callback u calls (disconnected e) f =
    printed_callback u calls 3 1024 (disconnected_json e) (disconnected_short e f) (omega arith)
perform_callback u calls (error m) f =
    printed_callback u calls 255 2048 (error_json m) (error_short m f) (omega arith)
perform_callback u calls (text clipboard_text t) f = text_callback u calls 5 t f
perform_callback u calls (text file_list t) f = text_callback u calls 6 t f
perform_callback u calls (text file_done t) f = text_callback u calls 7 t f
perform_callback u calls (text file_error t) f = text_callback u calls 8 t f
perform_callback u calls (text file_progress t) f = text_callback u calls 9 t f
perform_callback u calls native f = refl
perform_callback u calls cursor_null f = refl
perform_callback u calls cursor_default f = refl
