-- ===== src/Pointer/Messages.antt =====
-- The cursor messages of pointer.c.
use native.Mathlib.Nat.{mul-le-mul_right}
use rdp_mcp.Prelude.{
  ℕ, ◌+◌, ◌%◌, ◌<◌, ◌≡◌, refl, ◌∙◌, ap, sym, true, false, Option, none, some, List, [], ◌∷◌, ◌++◌,
  Bytes, get_elem?, length, ◌==◌, ◌>>=◌, arith, All, All-append, All-get_elem?, IfSome, append-nil,
  append_assoc,
}
use rdp_mcp.Output.{Output, output_send_cursor_null, output_send_cursor_default}
use rdp_mcp.Output.Frame.{frames, frames-append, read_messages, read_messages-frames}
use rdp_mcp.Output.Request.{
  Request, cursor, cursor_null, cursor_default, perform, messages, all_messages, Fits, on_pipe,
}
use rdp_mcp.Output.Pipe.{perform_pipe}
use rdp_mcp.Output.Delivery.{all_messages_fit}
use rdp_mcp.Pointer.{
  ConduitPointer, Pointers, send_image, set_pointer, forget, cb_pointer_new, cb_pointer_set,
  cb_pointer_free, cb_pointer_set_null, cb_pointer_set_default, cb_pointer_set_position, Event,
  make, new, show, free, show_null, show_default, move, make_pointer, step, run,
}
use rdp_mcp.Pointer.Shape.{
  IsShape, HasImage, IsPointer, Converts, small_image, Keeps, new-Keeps, free-Keeps,
}

abbrev image_request : ConduitPointer → Option Bytes → List Request
image_request p none = []
image_request p (some px) = cursor (p.x_pos % 65536) (p.y_pos % 65536) p.width p.height px ∷ []

abbrev pointer_request : Option ConduitPointer → List Request
pointer_request none = []
pointer_request (some p) = image_request p p.rgba_data

-- What a callback tells the embedding program: a pointer that is set, its image if it has one.
abbrev pub told : Event → Pointers → List Request
told (show k) s = pointer_request (get_elem? s.pointers k)
told show_null s = cursor_null ∷ []
told show_default s = cursor_default ∷ []
told _ s = []

abbrev pub all_told : List Event → Pointers → List Request
all_told [] s = []
all_told (e ∷ es) s = told e s ++ elim (step e s) [ none ↦ [] | some s' ↦ all_told es s' ]

-- A cursor of a good size with all of its pixels, or one of the two without.
abbrev pub IsCursor : Request → Type 0
IsCursor (cursor x y w h px) = IsShape w h px
IsCursor cursor_null = Unit
IsCursor cursor_default = Unit
IsCursor _ = ⊥

-- The state with the bytes that are on the pipe.
abbrev pub on : Bytes → Pointers → Pointers
on out s = record s { output = on_pipe out [] }

-- The messages of some calls go on the pipe.
abbrev Puts : List Request → Bytes → Option Pointers → Type 0
Puts rs out r =
    (t : Pointers) × (r ≡ some (on (out ++ frames (all_messages rs)) t))
    × All IsPointer t.pointers
    × All IsCursor rs
    × All Fits rs

kept-Puts : (out : Bytes) (s t : Pointers) → Keeps (on out s) t → Puts [] out (some t)
kept-Puts out s t (good, same) = (
  t,
  ap (λ o. some (record t { output = o })) (same ∙ ap (λ b. on_pipe b []) (sym (append-nil out))),
  good,
  tt,
  tt,
)

-- One request on the pipe.
one-Puts :
    (r : Request) (out : Bytes) (s : Pointers)
    → All IsPointer s.pointers
    → IsCursor r
    → Fits r
    → Puts (r ∷ []) out (do o ← perform r (on_pipe out []); some (record s { output = o }))
one-Puts r out s h is_cursor fits = (
  s,
  rw (perform_pipe out [] r fits)
      (ap (λ ms. some (on (out ++ frames ms) s)) (sym (append-nil (messages r)))),
  h,
  (is_cursor, tt),
  (fits, tt),
)

image_sent :
    (p : ConduitPointer) (px : Bytes) (out : Bytes) (s : Pointers)
    → HasImage p (some px)
    → forget (send_image p (some px) (on out s)) ≡ (do
      o ← perform (cursor (p.x_pos % 65536) (p.y_pos % 65536) p.width p.height px) (on_pipe out [])
      some (record s { output = o }))
unfolding perform
image_sent p px out s (shape, size) =
    let (a, b, c, d, full) = shape in
    let wide : p.width % 65536 ≡ p.width = omega (arith, b) in
    let high : p.height % 65536 ≡ p.height = omega (arith, d) in
    let some_pixels : (length px == 0) ≡ false =
      ground (arith, full, mul-le-mul_right p.height a) in
    let fits : 8 + length px < 4294967296 = omega (arith, small_image p.width p.height px shape) in
    let sent =
      perform_pipe out [] (cursor (p.x_pos % 65536) (p.y_pos % 65536) p.width p.height px) fits in
    rw (size, wide, high, some_pixels) (rw (sent) refl)

set-Puts :
    (k : ℕ) (out : Bytes) (s : Pointers)
    → All IsPointer s.pointers
    → Puts (told (show k) (on out s)) out (step (show k) (on out s))
unfolding step cb_pointer_set
set-Puts k out s h = found (get_elem? s.pointers k) (All-get_elem? IsPointer s.pointers k h)
  where
    nothing : Puts [] out (some (on out s))
    nothing = (s, ap (λ b. some (on b s)) (sym (append-nil out)), h, tt, tt)

    image :
        (p : ConduitPointer) (o : Option Bytes)
        → HasImage p o
        → Puts (image_request p o) out (forget (send_image p o (on out s)))
    image p none has = nothing
    image p (some px) (shape, size) =
        let sent = image_sent p px out s (shape, size) in
        let (t, run, kept, good, fits) =
          one-Puts (cursor (p.x_pos % 65536) (p.y_pos % 65536) p.width p.height px) out s h shape
            (omega (arith, small_image p.width p.height px shape)) in
        (t, sent ∙ run, kept, good, fits)

    found :
        (o : Option ConduitPointer)
        → IfSome IsPointer o
        → Puts (pointer_request o) out (forget (set_pointer o (on out s)))
    found none has = nothing
    found (some p) has = image p p.rgba_data has

forget-some :
    (o : Option Output) (s : Pointers)
    → forget (do x ← o; some (record s { output = x }, true))
      ≡ (do x ← o; some (record s { output = x }))
forget-some none s = refl
forget-some (some x) s = refl

step-Puts :
    (e : Event) (out : Bytes) (s : Pointers)
    → Converts e
    → All IsPointer s.pointers
    → Puts (told e (on out s)) out (step e (on out s))
unfolding step cb_pointer_set_null cb_pointer_set_default cb_pointer_set_position perform
step-Puts (make w h x y) out s converts good = (
  record s { pointers = s.pointers ++ (make_pointer w h x y ∷ []) },
  rw (append-nil out) refl,
  All-append IsPointer s.pointers (make_pointer w h x y ∷ []) good (tt, tt),
  tt,
  tt,
)
step-Puts (new e k) out s converts good =
    kept-Puts out s (cb_pointer_new e k (on out s)).0 (new-Keeps e k (on out s) converts good)
step-Puts (show k) out s converts good = set-Puts k out s good
step-Puts (free k) out s converts good =
    kept-Puts out s (cb_pointer_free k (on out s)) (free-Keeps k (on out s) good)
step-Puts show_null out s converts good =
    let (t, run, kept, is_cursor, fits) = one-Puts cursor_null out s good tt tt in
    (t, forget-some (output_send_cursor_null (on_pipe out [])) s ∙ run, kept, is_cursor, fits)
step-Puts show_default out s converts good =
    let (t, run, kept, is_cursor, fits) = one-Puts cursor_default out s good tt tt in
    (t, forget-some (output_send_cursor_default (on_pipe out [])) s ∙ run, kept, is_cursor, fits)
step-Puts (move x y) out s converts good = (s, rw (append-nil out) refl, good, tt, tt)

all_messages-append :
    (rs rs' : List Request) → all_messages (rs ++ rs') ≡ all_messages rs ++ all_messages rs'
all_messages-append [] rs' = refl
all_messages-append (r ∷ rs) rs' =
    ap (◌++◌ (messages r)) (all_messages-append rs rs')
    ∙ sym (append_assoc (messages r) (all_messages rs) (all_messages rs'))

frames_both :
    (out : Bytes) (rs rs' : List Request)
    → (out ++ frames (all_messages rs)) ++ frames (all_messages rs')
      ≡ out ++ frames (all_messages (rs ++ rs'))
frames_both out rs rs' =
    append_assoc out (frames (all_messages rs)) (frames (all_messages rs'))
    ∙ ap (◌++◌ out) (
        sym (
          ap frames (all_messages-append rs rs')
          ∙ frames-append (all_messages rs) (all_messages rs')))

run-Puts :
    (es : List Event) (out : Bytes) (s : Pointers)
    → All Converts es
    → All IsPointer s.pointers
    → Puts (all_told es (on out s)) out (run es (on out s))
unfolding run
run-Puts [] out s converts good = (s, rw (append-nil out) refl, good, tt, tt)
run-Puts (e ∷ es) out s converts good =
    let (t, now, good', shown, fits) = step-Puts e out s converts.0 good in
    let (u, later, good'', shown', fits') =
      run-Puts es (out ++ frames (all_messages (told e (on out s)))) t converts.1 good' in
    let rs = told e (on out s) in
    let rs' = all_told es (on (out ++ frames (all_messages rs)) t) in
    rw (now) (
      u,
      later ∙ ap (λ b. some (on b u)) (frames_both out rs rs'),
      good'',
      All-append IsCursor rs rs' shown shown',
      All-append Fits rs rs' fits fits',
    )

-- Before the first pointer, on a fresh pipe.
abbrev pub no_pointers : Pointers
no_pointers = record { pointers = []; output = on_pipe [] [] }

-- Whatever pointers FreeRDP makes, loads, shows and frees, in whatever order: no call reads outside the
-- pixels, and a reader of the format of output.h takes from the pipe exactly one message for each pointer
-- that is set and has an image, with its hot spot, its size and its pixels, and for each change to no
-- cursor or to the default one. Each image is 1 to 384 pixels on a side, with four bytes for each pixel.
-- FreeRDP's conversion fills the buffer that it is given.
pub run-read_messages :
    (es : List Event)
    → All Converts es
    → (t : Pointers) × (stream : Bytes) × (run es no_pointers ≡ some (on stream t))
      × (read_messages stream ≡ some (all_messages (all_told es no_pointers)))
      × All IsCursor (all_told es no_pointers)
run-read_messages es converts =
    let (t, ran, good, shown, fits) = run-Puts es [] no_pointers converts tt in
    let ms = all_messages (all_told es no_pointers) in
    (
      t,
      frames ms,
      ran,
      read_messages-frames ms (all_messages_fit (all_told es no_pointers) fits),
      shown,
    )
