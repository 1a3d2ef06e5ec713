-- ===== src/Connection/Attempts.antt =====
-- What connection_connect of connection.c tells the embedding program.
use rdp_mcp.Prelude.{
  ◌++◌, append-nil, All, ◌∙◌, ap, sym, signed32, ◌≡◌, refl, Bool, true, false, Option, none, some,
  List, [], ◌∷◌, Bytes, codes, length, arith, ◌<◌, if◌then◌else◌, ◌>>=◌,
}
use rdp_mcp.Output.Frame.{frames, frames-append, read_messages, read_messages-frames}
use rdp_mcp.Output.{Output, output_send_error}
use rdp_mcp.Output.Request.{
  Fits, Request, error, connected, perform, messages, Shorter, on_pipe, all_messages,
}
use rdp_mcp.Output.Pipe.{perform_pipe}
use rdp_mcp.Output.Delivery.{all_messages_fit}
use rdp_mcp.Connection
use rdp_mcp.Connection.{
  Key, Value, device_redirection, flag, Constants, freerdp_new, freerdp_free, freerdp_context_free,
  freerdp_disconnect, freerdp_context_new, freerdp_connect, gdi_init, register_addin_provider,
  load_channels, gdi_free, register_pointer, set_setting, add_drive, pipeline_init, pipeline_uninit,
  settings, set_all, add_drives, redirect_drives, connection_init, connection_connect, Connection,
  Posted, Attempt, cb_pre_connect, cb_post_connect, connect_callbacks, connection_free,
}
use rdp_mcp.Connection.Life.{nothing, whole, life}

-- The error that is told when the connection fails.
abbrev pub refusal : Option Bytes → Bytes
refusal none = codes "Connection failed"
refusal (some t) = t

abbrev pub posted_requests : Option Posted → List Request
posted_requests none = []
posted_requests (some p) = connected (signed32 p.width) (signed32 p.height) ∷ []

abbrev pub refusal_requests : Bool → Option Bytes → List Request
refusal_requests true t = []
refusal_requests false t = error (some (refusal t)) ∷ []

-- What the embedding program is told by connection_connect.
abbrev pub connect_requests : Attempt → Option Bytes → List Request
connect_requests f t = posted_requests f.posts ++ refusal_requests f.ok t

refusal_short : (t : Option Bytes) → Shorter 2034 t → length (refusal t) < 2034
refusal_short none h = omega arith
refusal_short (some t) h = h

-- A connection with a fresh pipe, and the calls that have made its instance.
abbrev pub opened : List Connection.Call → Connection → Connection
opened calls s = record s {
  clipboard = record s.clipboard { output = on_pipe [] [] };
  calls = calls;
}

-- What connection_connect leaves.
abbrev pub Connects : Attempt → Option Bytes → Connection → Type 0
Connects f t s =
    (after : Connection) × (stream : Bytes) × (connection_connect f t s ≡ some (after, f.ok))
    × (after.clipboard.output ≡ on_pipe stream [])
    × (read_messages stream ≡ some (all_messages (connect_requests f t)))
    × (life (connection_free after.calls) ≡ some nothing)

error_text :
    (t : Option Bytes) → elim t [ none ↦ codes "Connection failed" | some u ↦ u ] ≡ refusal t
error_text none = refl
error_text (some u) = refl

-- The instance is whole, and the pipe holds the messages of the requests.
abbrev Told : List Request → Option Connection → Type 0
Told rs r =
    (s : Connection) × (r ≡ some s)
    × (s.clipboard.output ≡ on_pipe (frames (all_messages rs)) [])
    × (life s.calls ≡ some whole)

-- Behind the message of cb_post_connect.
abbrev told_by : Output → Bool → Connection → Connection × Bool
told_by o g t =
    let told = record t {
      clipboard = record t.clipboard { output = o };
      calls = gdi_init g ∷ t.calls;
    } in
    if g
    then (
      record told { gdi = true; subscribed = true; calls = register_pointer ∷ told.calls },
      true,
    )
    else (told, false)

post-Told :
    (p : Posted) (t : Connection)
    → t.clipboard.output ≡ on_pipe [] []
    → life t.calls ≡ some whole
    → Told
        (posted_requests (some p))
        (do (u, r) ← cb_post_connect p.gdi_ok p.width p.height t; some u)
unfolding cb_post_connect perform
post-Told p t pipe h =
    let r = connected (signed32 p.width) (signed32 p.height) in
    let sent : perform r t.clipboard.output ≡ some (on_pipe (frames (all_messages (r ∷ []))) []) =
      ap (perform r) pipe ∙ perform_pipe [] [] r tt in
    rw sent (by_gdi (on_pipe (frames (all_messages (r ∷ []))) []) p.gdi_ok)
  where
    by_gdi :
        (o : Output) (g : Bool)
        → (s : Connection) × (some (told_by o g t).0 ≡ some s)
          × (s.clipboard.output ≡ o)
          × (life s.calls ≡ some whole)
    by_gdi o true = (_, refl, refl, rw (h) refl)
    by_gdi o false = (_, refl, refl, rw (h) refl)

callbacks-Told :
    (f : Attempt) (s : Connection)
    → s.clipboard.output ≡ on_pipe [] []
    → life s.calls ≡ some whole
    → Told (posted_requests f.posts) (connect_callbacks f s)
unfolding connect_callbacks cb_pre_connect
callbacks-Told f s pipe h = by_parts f.prepares f.posts
  where
    by_parts :
        (a : Bool) (o : Option Posted)
        → Told (posted_requests o) (
            let begun = if a then cb_pre_connect s else s in
            elim o [
              | none ↦ some begun
              | some p ↦ (do (t, r) ← cb_post_connect p.gdi_ok p.width p.height begun; some t)
            ])
    by_parts true none = (cb_pre_connect s, refl, pipe, rw (h) refl)
    by_parts false none = (s, refl, pipe, h)
    by_parts true (some p) = post-Told p (cb_pre_connect s) pipe (rw (h) refl)
    by_parts false (some p) = post-Told p s pipe h

posted_fit : (o : Option Posted) → All Fits (posted_requests o)
posted_fit none = tt
posted_fit (some p) = (tt, tt)

refused_pipe :
    (p : Option Posted) (t : Option Bytes) (o : Output)
    → Shorter 2034 t
    → o ≡ on_pipe (frames (all_messages (posted_requests p))) []
    → (stream : Bytes) × (output_send_error
          (some (elim t [ none ↦ codes "Connection failed" | some x ↦ x ]))
          o
        ≡ some (on_pipe stream []))
      × (read_messages stream
          ≡ some (all_messages (posted_requests p ++ error (some (refusal t)) ∷ [])))
unfolding perform
refused_pipe none t o short pipe =
    let fits = refusal_short t short in
    let r = error (some (refusal t)) in
    (
      frames (all_messages (r ∷ [])),
      rw (error_text t) (ap (perform r) pipe ∙ perform_pipe [] [] r fits),
      read_messages-frames (all_messages (r ∷ [])) (all_messages_fit (r ∷ []) (fits, tt)),
    )
refused_pipe (some p) t o short pipe =
    let fits = refusal_short t short in
    let q = connected (signed32 p.width) (signed32 p.height) in
    let r = error (some (refusal t)) in
    let rs = q ∷ r ∷ [] in
    (
      frames (all_messages rs),
      rw (error_text t) (
          ap (perform r) pipe
          ∙ perform_pipe (frames (messages q)) [] r fits
          ∙ ap (λ b. some (on_pipe b [])) (sym (frames-append (messages q) (messages r)))),
      read_messages-frames (all_messages rs) (all_messages_fit rs (tt, (fits, tt))),
    )

-- Behind the return of freerdp_connect.
abbrev answered : Bool → Option Bytes → Connection → Option (Connection × Bool)
answered k t u =
    let back = record u { calls = freerdp_connect k ∷ u.calls } in
    if k then some (back, true) else (do
      o ←
          output_send_error (some (elim t [ none ↦ codes "Connection failed" | some x ↦ x ]))
            back.clipboard.output
      some (record back { clipboard = record back.clipboard { output = o } }, false))

pub connect-Connects :
    (f : Attempt) (t : Option Bytes) (s : Connection)
    → Shorter 2034 t
    → s.clipboard.output ≡ on_pipe [] []
    → life s.calls ≡ some whole
    → Connects f t s
unfolding connection_connect connection_free
connect-Connects f t s short pipe h =
    let (u, run, told, made) = callbacks-Told f s pipe h in rw run (by_answer u told made f.ok)
  where
    by_answer :
        (u : Connection)
        → u.clipboard.output ≡ on_pipe (frames (all_messages (posted_requests f.posts))) []
        → life u.calls ≡ some whole
        → (k : Bool)
        → (after : Connection) × (stream : Bytes) × (answered k t u ≡ some (after, k))
          × (after.clipboard.output ≡ on_pipe stream [])
          × (read_messages stream
              ≡ some (all_messages (posted_requests f.posts ++ refusal_requests k t)))
          × (life (connection_free after.calls) ≡ some nothing)
    by_answer u told made true =
        let rs = posted_requests f.posts in
        (
          record u { calls = freerdp_connect true ∷ u.calls },
          frames (all_messages rs),
          refl,
          told,
          rw (append-nil rs)
              (read_messages-frames (all_messages rs) (all_messages_fit rs (posted_fit f.posts))),
          rw (made) refl,
        )
    by_answer u told made false =
        let (stream, sent, heard) = refused_pipe f.posts t u.clipboard.output short told in
        (
          record u {
            calls = freerdp_connect false ∷ u.calls;
            clipboard = record u.clipboard { output = on_pipe stream [] };
          },
          stream,
          rw sent refl,
          refl,
          heard,
          rw (made) refl,
        )
