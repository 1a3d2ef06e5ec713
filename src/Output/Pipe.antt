-- ===== src/Output/Pipe.antt =====
-- The senders of output.c while the pipe is open.
use rdp_mcp.Prelude.{
  ℕ, suc, ◌+◌, ◌<◌, ◌≡◌, refl, ap, Option, none, some, List, [], ◌∷◌, ◌++◌, Bytes, length, lt→ltb,
  subst, arith, append-nil,
}
use rdp_mcp.Output.{
  Call, printed, dimensions_json, disconnected_json, error_json, read_buffer, send_printed,
  send_text, output_send, output_send_connected, output_send_bitmap, output_send_disconnected,
  output_send_resized, output_send_clipboard_text, output_send_clipboard_file_list,
  output_send_clipboard_file_done, output_send_clipboard_file_error,
  output_send_clipboard_file_progress, output_send_clipboard_native, output_send_cursor,
  output_send_cursor_null, output_send_cursor_default, output_send_error,
}
use rdp_mcp.Output.Frame.{frames}
use rdp_mcp.Output.Request.{
  Request, clipboard_text, file_list, file_done, file_error, file_progress, connected, resized,
  bitmap, cursor, disconnected, error, text, native, cursor_null, cursor_default, strlen, perform,
  text_messages, messages, Shorter, Fits, on_pipe,
}
use rdp_mcp.Output.Buffers.{
  read_whole, read_printed, dimensions_short, disconnected_short, error_short, framed, frames_one,
  pixel_frame, text_positive, suc-ne-zero,
}

module _ (out : Bytes) (calls : List Call) where
  send_pipe :
      (k : ℕ) (b p : Bytes)
      → read_buffer (some b) (length p) ≡ some p
      → output_send k (some b) (length p) (on_pipe out calls)
        ≡ some (on_pipe (out ++ framed k p) calls)
  unfolding output_send
  send_pipe k b [] e = refl
  send_pipe k b (c ∷ p) e = rw (lt→ltb 0 (suc (length p)) (omega arith), e)

  printed_pipe :
      (k size : ℕ) (t : Bytes)
      → length t < size
      → size < 4294967296
      → send_printed k size t (on_pipe out calls)
        ≡ some (on_pipe (out ++ frames (record { kind = k; payload = t } ∷ [])) calls)
  unfolding send_printed
  printed_pipe k size t h hs = rw (frames_one k t) (
      subst
        (λ n.
          output_send k (some (printed size t)) n (on_pipe out calls)
          ≡ some (on_pipe (out ++ framed k t) calls))
        (omega arith) (send_pipe k (printed size t) t (read_printed size t h)))

  text_pipe :
      (j : ℕ) (t : Option Bytes)
      → Shorter 2147483648 t
      → send_text j t (strlen t) (on_pipe out calls)
        ≡ some (on_pipe (out ++ frames (text_messages j t)) calls)
  text_pipe j none h = rw (append-nil out)
  text_pipe j (some []) h = rw (append-nil out)
  text_pipe j (some (c ∷ t)) h =
      rw (text_positive (length t), frames_one j (c ∷ t))
        (subst
          (λ n.
            output_send j (some (c ∷ t)) n (on_pipe out calls)
            ≡ some (on_pipe (out ++ framed j (c ∷ t)) calls))
          (omega arith) (send_pipe j (c ∷ t) (c ∷ t) (read_whole (c ∷ t))))

  bitmap_pipe :
      (x y w h : ℕ) (px : Bytes)
      → 8 + length px < 4294967296
      → output_send_bitmap x y w h (some px) (length px) (on_pipe out calls)
        ≡ some (on_pipe (out ++ frames (messages (bitmap x y w h px))) calls)
  unfolding output_send_bitmap
  bitmap_pipe x y w h [] fits = refl
  bitmap_pipe x y w h (c ∷ px) fits =
      rw (append-nil px, lt→ltb 0 (suc (length px)) (omega arith), read_whole (c ∷ px))
        (ap (λ n. some (on_pipe (out ++ pixel_frame 2 n x y w h (c ∷ px)) calls)) (omega arith))

  cursor_pipe :
      (x y w h : ℕ) (px : Bytes)
      → 8 + length px < 4294967296
      → output_send_cursor x y w h (some px) (length px) (on_pipe out calls)
        ≡ some (on_pipe (out ++ frames (messages (cursor x y w h px))) calls)
  unfolding output_send_cursor
  cursor_pipe x y w h [] fits = rw (append-nil out)
  cursor_pipe x y w h (c ∷ px) fits =
      rw (append-nil px, suc-ne-zero (length px), read_whole (c ∷ px))
        (ap (λ n. some (on_pipe (out ++ pixel_frame 11 n x y w h (c ∷ px)) calls)) (omega arith))

  -- On the pipe every call adds the frames of its messages, and nothing else.
  pub perform_pipe :
      (r : Request)
      → Fits r
      → perform r (on_pipe out calls) ≡ some (on_pipe (out ++ frames (messages r)) calls)
  unfolding perform output_send_connected output_send_resized output_send_disconnected
      output_send_error output_send_clipboard_text output_send_clipboard_file_list
      output_send_clipboard_file_done output_send_clipboard_file_error
      output_send_clipboard_file_progress output_send_clipboard_native output_send_cursor_null
      output_send_cursor_default
  perform_pipe (connected w h) f =
      printed_pipe 1 128 (dimensions_json w h) (dimensions_short w h) (omega arith)
  perform_pipe (resized w h) f =
      printed_pipe 4 128 (dimensions_json w h) (dimensions_short w h) (omega arith)
  perform_pipe (bitmap x y w h px) f = bitmap_pipe x y w h px f
  perform_pipe (cursor x y w h px) f = cursor_pipe x y w h px f
  perform_pipe (disconnected e) f =
      printed_pipe 3 1024 (disconnected_json e) (disconnected_short e f) (omega arith)
  perform_pipe (error m) f = printed_pipe 255 2048 (error_json m) (error_short m f) (omega arith)
  perform_pipe (text clipboard_text t) f = text_pipe 5 t f
  perform_pipe (text file_list t) f = text_pipe 6 t f
  perform_pipe (text file_done t) f = text_pipe 7 t f
  perform_pipe (text file_error t) f = text_pipe 8 t f
  perform_pipe (text file_progress t) f = text_pipe 9 t f
  perform_pipe native f = refl
  perform_pipe cursor_null f = refl
  perform_pipe cursor_default f = refl
