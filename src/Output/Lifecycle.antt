-- ===== src/Output/Lifecycle.antt =====
-- What output_init, output_init_callback, output_cleanup and the senders of output.c keep of the
-- module's state.
use rdp_mcp.Prelude.{
  ℕ, ◌%◌, ◌≡◌, refl, Bool, true, false, ◌||◌, ◌&&◌, Option, none, some, [], Bytes, ℤ, arith, length,
  codes,
}
use rdp_mcp.Output.{
  Output, is_open, printed, dimensions_json, disconnected_json, error_json, no_sink, output_init,
  output_init_callback, output_cleanup, output_send, output_send_bitmap, output_send_cursor,
  send_printed, send_text, output_send_connected, output_send_disconnected, output_send_resized,
  output_send_clipboard_text, output_send_clipboard_file_list, output_send_clipboard_file_done,
  output_send_clipboard_file_error, output_send_clipboard_file_progress,
  output_send_clipboard_native, output_send_cursor_null, output_send_cursor_default,
  output_send_error,
}
use rdp_mcp.Output.Request.{
  Request, clipboard_text, file_list, file_done, file_error, file_progress, connected, resized,
  bitmap, cursor, disconnected, error, text, native, cursor_null, cursor_default, strlen, perform,
}

-- A sink exists only while the mutex does, and never are there two.
pub record IsReady (o : Output) : Type 0 where
  pub wired : (o.initialized || no_sink o) ≡ true
  pub exclusive : (o.callback && is_open o.binary_out) ≡ false

pub record SameSink (o o' : Output) : Type 0 where
  pub initialized : o'.initialized ≡ o.initialized
  pub callback : o'.callback ≡ o.callback
  pub stream : is_open o'.binary_out ≡ is_open o.binary_out

send_keeps :
    (k n : ℕ) (p : Option Bytes) (o o' : Output) → output_send k p n o ≡ some o' → SameSink o o'
unfolding output_send
send_keeps k n p o o' e = ground arith

bitmap_keeps :
    (x y w h n : ℕ) (p : Option Bytes) (o o' : Output)
    → output_send_bitmap x y w h p n o ≡ some o'
    → SameSink o o'
unfolding output_send_bitmap
bitmap_keeps x y w h n p o o' e = ground arith

cursor_keeps :
    (x y w h n : ℕ) (p : Option Bytes) (o o' : Output)
    → output_send_cursor x y w h p n o ≡ some o'
    → SameSink o o'
unfolding output_send_cursor
cursor_keeps x y w h n p o o' e = ground arith

text_keeps :
    (k : ℕ) (p : Option Bytes) (n : ℤ) (o o' : Output) → send_text k p n o ≡ some o' → SameSink o o'
unfolding output_send
text_keeps k p n o o' e = ground arith

printed_keeps :
    (k size : ℕ) (t : Bytes) (o o' : Output) → send_printed k size t o ≡ some o' → SameSink o o'
unfolding send_printed
printed_keeps k size t o o' e = send_keeps k (length t % 4294967296) (some (printed size t)) o o' e

-- A sender never opens, closes or exchanges a sink.
pub perform-SameSink : (r : Request) (o o' : Output) → perform r o ≡ some o' → SameSink o o'
unfolding perform output_send_connected output_send_resized output_send_disconnected
    output_send_error output_send_clipboard_text output_send_clipboard_file_list
    output_send_clipboard_file_done output_send_clipboard_file_error
    output_send_clipboard_file_progress output_send_clipboard_native output_send_cursor_null
    output_send_cursor_default
perform-SameSink (connected w h) o o' e = printed_keeps 1 128 (dimensions_json w h) o o' e
perform-SameSink (resized w h) o o' e = printed_keeps 4 128 (dimensions_json w h) o o' e
perform-SameSink (bitmap x y w h px) o o' e = bitmap_keeps x y w h (length px) (some px) o o' e
perform-SameSink (cursor x y w h px) o o' e = cursor_keeps x y w h (length px) (some px) o o' e
perform-SameSink (disconnected t) o o' e = printed_keeps 3 1024 (disconnected_json t) o o' e
perform-SameSink (error t) o o' e = printed_keeps 255 2048 (error_json t) o o' e
perform-SameSink (text clipboard_text t) o o' e = text_keeps 5 t (strlen t) o o' e
perform-SameSink (text file_list t) o o' e = text_keeps 6 t (strlen t) o o' e
perform-SameSink (text file_done t) o o' e = text_keeps 7 t (strlen t) o o' e
perform-SameSink (text file_error t) o o' e = text_keeps 8 t (strlen t) o o' e
perform-SameSink (text file_progress t) o o' e = text_keeps 9 t (strlen t) o o' e
perform-SameSink native o o' e = send_keeps 10 2 (some (codes "{}")) o o' e
perform-SameSink cursor_null o o' e = send_keeps 12 0 none o o' e
perform-SameSink cursor_default o o' e = send_keeps 13 0 none o o' e

-- The module before its first initialisation.
abbrev pub initial : Output
initial = record {
  initialized = false;
  binary_out = none;
  callback = false;
  user_data = 0;
  calls = [];
}

pub data Op : Type 0 where
  init : ℤ → Bool → Op
  init_callback : ℕ → Op
  cleanup : Op
  send : Request → Op

-- `output_init_callback` is given a callback that is not NULL: its only caller checks that.
abbrev pub run_op : Op → Output → Option Output
run_op (init fd opened) o = output_init fd opened o
run_op (init_callback u) o = some (output_init_callback true u o)
run_op cleanup o = some (output_cleanup o)
run_op (send r) o = perform r o

pub data Reaches (o : Output) : Output → Type 0 where
  here : Reaches o o
  next : {p q : Output} → Reaches o p → (op : Op) → run_op op p ≡ some q → Reaches o q

SameSink-IsReady : {o o' : Output} → SameSink o o' → IsReady o → IsReady o'
SameSink-IsReady {o} {o'} s r = record { wired = ground arith; exclusive = ground arith }

run_op-IsReady : (op : Op) (o o' : Output) → run_op op o ≡ some o' → IsReady o → IsReady o'
unfolding output_init output_init_callback output_cleanup
run_op-IsReady (init fd opened) o o' e r = ground arith
run_op-IsReady (init_callback u) o o' e r = ground arith
run_op-IsReady cleanup o o' e r = ground arith
run_op-IsReady (send q) o o' e r = SameSink-IsReady (perform-SameSink q o o' e) r

-- Whatever the history of initialisations, cleanups and sends: a sink is set only while the mutex
-- that the senders enter exists, and the pipe and the callback are never both set.
pub Reaches-IsReady : {o : Output} → Reaches initial o → IsReady o
Reaches-IsReady here = record { wired = refl; exclusive = refl }
Reaches-IsReady (next {p = p} {q = q} r op e) = run_op-IsReady op p q e (Reaches-IsReady r)

quiet : (r : Request) (o : Output) → no_sink o ≡ true → perform r o ≡ some o
unfolding perform output_send output_send_bitmap output_send_cursor output_send_connected
    output_send_resized output_send_disconnected output_send_error output_send_clipboard_text
    output_send_clipboard_file_list output_send_clipboard_file_done output_send_clipboard_file_error
    output_send_clipboard_file_progress output_send_clipboard_native output_send_cursor_null
    output_send_cursor_default
quiet (text clipboard_text t) o h = ground arith
quiet (text file_list t) o h = ground arith
quiet (text file_done t) o h = ground arith
quiet (text file_error t) o h = ground arith
quiet (text file_progress t) o h = ground arith
quiet (connected w k) o h = rw h
quiet r o h = rw h

-- After `output_cleanup`, in any state reached, every send is a no-op and a second cleanup changes
-- nothing.
pub output_cleanup-silent :
    (o : Output) (r : Request)
    → Reaches initial o
    → (perform r (output_cleanup o) ≡ some (output_cleanup o))
      × (output_cleanup (output_cleanup o) ≡ output_cleanup o)
output_cleanup-silent o r h = (
  quiet r (output_cleanup o) (silent o (Reaches-IsReady h)),
  unfold output_cleanup in ground arith,
)
  where
    silent : (o : Output) → IsReady o → no_sink (output_cleanup o) ≡ true
    silent o r = unfold output_cleanup in ground arith
