-- ===== src/Win32/Window/Echo.antt =====
-- The flag by which cliprdr_win32.c tells its own changes of the Windows clipboard from others.
use rdp_mcp.Prelude.{
  ℕ, zero, suc, ◌≡◌, refl, ◌∙◌, ap, Bool, true, false, Option, some, List, [], ◌∷◌, ◌++◌, Bytes,
  if◌then◌else◌, if_intro, ◌>>=◌, All,
}
use rdp_mcp.Json.{CJson}
use rdp_mcp.Clipboard.{Clipboard, Env}
use rdp_mcp.Win32.{
  Win32, Windows, Wide, Message, set_text, set_files, open_clipboard_retry, post,
  cliprdr_win32_set_text, cliprdr_win32_set_files,
}
use rdp_mcp.Win32.Local.{on_local_clipboard_changed}
use rdp_mcp.Win32.Window.{notified, place_text, place_files, clipboard_wndproc, pump_round}

-- A write to the Windows clipboard.
pub data Write : Type 0 where
  text : Wide → Write
  files : List Wide → Write

abbrev pub write : Windows → Write → Win32 → Win32
write w (text t) s = cliprdr_win32_set_text w t s
write w (files ps) s = cliprdr_win32_set_files w ps s

-- Messages can be posted, and Windows is in time with its own.
abbrev pub Timely : Windows → Type 0
Timely w = (w.posts ≡ true) × (w.notifies ≡ true)

module _ {Value : Type 0} (json : CJson Value) (to_wide : Bytes → Option Wide) where
  -- So many rounds of the message pump.
  abbrev pub pumped : ℕ → Windows → Env → Win32 → Option Win32
  pumped zero w e s = some s
  pumped (suc n) w e s = do t ← pump_round json to_wide w e s; pumped n w e t

  -- No message waits or is to come, the flag is clear, and cliprdr.c and cliprdr_file.c were not called.
  abbrev pub Settles : Clipboard → Option Win32 → Type 0
  Settles c r =
      (s : Win32) × (r ≡ some s)
      × (s.queue ≡ [])
      × (s.we_set_clipboard ≡ false)
      × (s.unqueued ≡ 0)
      × (s.clipboard ≡ c)

  idle : (w : Windows) (e : Env) (s : Win32) → s.queue ≡ [] → pump_round json to_wide w e s ≡ some s
  unfolding pump_round
  idle w e s nil =
      ap
        (λ q. elim q [
          | [] ↦ some s
          | m ∷ ms ↦ clipboard_wndproc json to_wide w e m (record s { queue = ms })
        ])
        nil

  text-Settles :
      (w : Windows) (e : Env) (c : ℕ) (cs : Wide) (s : Win32)
      → Timely w
      → s.unqueued ≡ 0
      → Settles s.clipboard (pumped 3 w e (record s { queue = set_text (c ∷ cs) ∷ [] }))
  unfolding pump_round clipboard_wndproc place_text
  text-Settles w e c cs s (posts, notified) none_late = go (open_clipboard_retry w) refl
    where
      go :
          (b : Bool)
          → open_clipboard_retry w ≡ b
          → Settles s.clipboard (pumped 3 w e (record s { queue = set_text (c ∷ cs) ∷ [] }))
      go true opened = rw (opened, notified, posts) (_, refl, refl, refl, none_late, refl)
      go false opened = rw (opened, posts) (_, refl, refl, refl, none_late, refl)

  files-Settles :
      (w : Windows) (e : Env) (p : Wide) (ps : List Wide) (s : Win32)
      → Timely w
      → s.unqueued ≡ 0
      → Settles s.clipboard (pumped 3 w e (record s { queue = set_files (p ∷ ps) ∷ [] }))
  unfolding pump_round clipboard_wndproc place_files
  files-Settles w e p ps s (posts, notified) none_late = go (open_clipboard_retry w) refl
    where
      go :
          (b : Bool)
          → open_clipboard_retry w ≡ b
          → Settles s.clipboard (pumped 3 w e (record s { queue = set_files (p ∷ ps) ∷ [] }))
      go true opened = rw (opened, notified, posts) (_, refl, refl, refl, none_late, refl)
      go false opened = rw (opened, posts) (_, refl, refl, refl, none_late, refl)

  -- The state before a write.
  abbrev pub IsIdle : Win32 → Type 0
  IsIdle s = (s.queue ≡ []) × (s.we_set_clipboard ≡ false) × (s.unqueued ≡ 0)

  pumped-idle : (n : ℕ) (w : Windows) (e : Env) (s : Win32) → s.queue ≡ [] → pumped n w e s ≡ some s
  pumped-idle zero w e s nil = refl
  pumped-idle (suc n) w e s nil = rw (idle w e s nil) (pumped-idle n w e s nil)

  idle-Settles :
      (w : Windows) (e : Env) (s : Win32) → IsIdle s → Settles s.clipboard (pumped 3 w e s)
  idle-Settles w e s (nil, clear, none_late) =
      (s, pumped-idle 3 w e s nil, nil, clear, none_late, refl)

  -- A message without data is passed over.
  no_text-Settles :
      (w : Windows) (e : Env) (s : Win32)
      → s.we_set_clipboard ≡ false
      → s.unqueued ≡ 0
      → Settles s.clipboard (pumped 3 w e (record s { queue = set_text [] ∷ [] }))
  unfolding pump_round clipboard_wndproc
  no_text-Settles w e s clear none_late = (_, refl, refl, clear, none_late, refl)

  no_files-Settles :
      (w : Windows) (e : Env) (s : Win32)
      → s.we_set_clipboard ≡ false
      → s.unqueued ≡ 0
      → Settles s.clipboard (pumped 3 w e (record s { queue = set_files [] ∷ [] }))
  unfolding pump_round clipboard_wndproc
  no_files-Settles w e s clear none_late = (_, refl, refl, clear, none_late, refl)

  posted :
      (w : Windows) (m : Message) (s : Win32)
      → w.posts ≡ true
      → s.queue ≡ []
      → post w m s ≡ record s { queue = m ∷ [] }
  posted w m s posts nil =
      ap (λ b. if b then record s { queue = s.queue ++ m ∷ [] } else s) posts
      ∙ ap (λ q. record s { queue = q ++ m ∷ [] }) nil

  write-Settles :
      (w : Windows) (e : Env) (x : Write) (s : Win32)
      → Timely w
      → IsIdle s
      → Settles s.clipboard (pumped 3 w e (write w x s))
  unfolding cliprdr_win32_set_text cliprdr_win32_set_files
  write-Settles w e (text t) s timely before =
      if_intro (λ u. Settles s.clipboard (pumped 3 w e u)) {y = post w (set_text t) s} _
        (idle-Settles w e s before) (rw (posted w (set_text t) s timely.0 before.0) (by_text t))
    where
      by_text :
          (t : Wide) → Settles s.clipboard (pumped 3 w e (record s { queue = set_text t ∷ [] }))
      by_text [] = no_text-Settles w e s before.1 before.2
      by_text (c ∷ cs) = text-Settles w e c cs s timely before.2
  write-Settles w e (files ps) s timely before =
      if_intro (λ u. Settles s.clipboard (pumped 3 w e u)) {y = post w (set_files ps) s} _
        (idle-Settles w e s before) (rw (posted w (set_files ps) s timely.0 before.0) (by_files ps))
    where
      by_files :
          (ps : List Wide)
          → Settles s.clipboard (pumped 3 w e (record s { queue = set_files ps ∷ [] }))
      by_files [] = no_files-Settles w e s before.1 before.2
      by_files (p ∷ ps) = files-Settles w e p ps s timely before.2

  -- Writes one after the other, each with the environment of its rounds.
  abbrev pub writes_handled : List (Windows × Env × Write) → Win32 → Option Win32
  writes_handled [] s = some s
  writes_handled ((w, e, x) ∷ xs) s = do t ← pumped 3 w e (write w x s); writes_handled xs t

  -- Texts and files that are placed on the Windows clipboard, each when the messages of the one before
  -- have been handled, are never taken for changes of another program: cliprdr.c and cliprdr_file.c are
  -- not called, and in the end no message waits or is late, and the flag is clear. It does not matter
  -- whether the clipboard could be opened and filled. The condition is that messages can be posted, that
  -- Windows has queued its WM_CLIPBOARDUPDATE when CloseClipboard returns, and that the window begins
  -- idle, its flag clear and nothing late.
  pub writes-Settles :
      (xs : List (Windows × Env × Write)) (s : Win32)
      → All (λ x. Timely x.0) xs
      → IsIdle s
      → Settles s.clipboard (writes_handled xs s)
  writes-Settles [] s timely before = (s, refl, before.0, before.1, before.2, refl)
  writes-Settles ((w, e, x) ∷ xs) s timely before =
      let (t, handled, nil, clear, none_late, same) = write-Settles w e x s timely.0 before in
      let (u, later, nil', clear', none_late', same') =
        writes-Settles xs t timely.1 (nil, clear, none_late) in
      (u, rw (handled) later, nil', clear', none_late', same' ∙ same)

  -- A late message of a change of its own, which comes behind CLEAR_FLAG, is taken for a change of
  -- another program.
  late-heard :
      (w : Windows) (e : Env) (n : ℕ) (s : Win32)
      → IsIdle (record s { unqueued = 0 })
      → s.unqueued ≡ suc n
      → pump_round json to_wide w e (notified s)
        ≡ on_local_clipboard_changed json to_wide w e (record s { queue = []; unqueued = n })
  unfolding pump_round clipboard_wndproc
  late-heard w e n s (nil, clear, _) late = rw (late, nil, clear) refl
