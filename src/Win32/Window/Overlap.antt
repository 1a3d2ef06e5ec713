-- ===== src/Win32/Window/Overlap.antt =====
-- Two texts of the server that are placed on the Windows clipboard by cliprdr_win32.c in a row.
use rdp_mcp.Prelude.{
  ℕ, ◌≡◌, refl, ◌∙◌, ap, Bool, true, false, not, ◌||◌, Option, none, some, List, [], ◌∷◌, ◌++◌,
  Bytes, length, if◌then◌else◌, ◌>>=◌, is_nil, pos,
}
use rdp_mcp.Json.{CJson}
use rdp_mcp.Clipboard.{Clipboard, Env}
use rdp_mcp.Clipboard.Steps.{cliprdr_set_text}
use rdp_mcp.Files.Local.{cliprdr_file_clear_local_files}
use rdp_mcp.Win32.{
  Win32, Windows, Wide, Message, clipboard_update, clear_flag, set_text, message, text, post,
  open_clipboard_retry, cliprdr_win32_set_text,
}
use rdp_mcp.Win32.Local.{local_text, dropped, offer_text, on_local_clipboard_changed}
use rdp_mcp.Win32.Window.{empty_system, place_text, clipboard_wndproc, pump_round}
use rdp_mcp.Win32.Window.Echo.{pumped}

-- All calls of Windows succeed, and its message is queued when the clipboard is closed.
pub record Works (w : Windows) : Type 0 where
  pub opened : open_clipboard_retry w ≡ true
  pub given : w.gives_data ≡ true
  pub locked : w.locks ≡ true
  pub memory : w.gives_memory ≡ true
  pub taken : w.takes_data ≡ true
  pub posted : w.posts ≡ true
  pub notified : w.notifies ≡ true
  pub copied : w.allocates message ≡ true
  pub converted : w.allocates text ≡ true

module _ {Value : Type 0} (json : CJson Value) (to_wide : Bytes → Option Wide) where
  -- The window with a text of its own on the clipboard, and messages that still wait.
  abbrev placed : Wide → Bool → List Message → Win32 → Win32
  placed t flag ms s = record s {
    system = record empty_system { unicodetext = some t };
    we_set_clipboard = flag;
    queue = ms;
  }

  text_round :
      (w : Windows) (e : Env) (c : ℕ) (cs : Wide) (ms : List Message) (s : Win32)
      → Works w
      → s.queue ≡ set_text (c ∷ cs) ∷ ms
      → pump_round json to_wide w e s
        ≡ some (placed (c ∷ cs) true (ms ++ clipboard_update ∷ [] ++ clear_flag ∷ []) s)
  unfolding pump_round clipboard_wndproc place_text
  text_round w e c cs ms s v waits =
      rw (waits, v.opened, v.memory, v.locked, v.taken, v.notified, v.posted) refl

  offered :
      (w : Windows) (e : Env) (c : ℕ) (cs : Wide) (flag : Bool) (ms : List Message) (s : Win32)
      → Works w
      → is_nil (w.to_utf8 (c ∷ cs)) ≡ false
      → s.ready ≡ true
      → on_local_clipboard_changed json to_wide w e (placed (c ∷ cs) flag ms s)
        ≡ offer_text json to_wide e (w.to_utf8 (c ∷ cs)) (placed (c ∷ cs) flag ms s)
  unfolding on_local_clipboard_changed dropped local_text
  offered w e c cs flag ms s v some_bytes ready =
      ap
        (λ b.
          if not b || false || not (open_clipboard_retry w)
          then some (placed (c ∷ cs) flag ms s)
          else elim (local_text w (placed (c ∷ cs) flag ms s).system) [
            | some utf8 ↦ offer_text json to_wide e utf8 (placed (c ∷ cs) flag ms s)
            | none ↦ some (placed (c ∷ cs) flag ms s)
          ])
        ready
      ∙ rw (v.opened, v.given, v.locked, some_bytes, v.converted) refl

  ignored_round :
      (w : Windows) (e : Env) (ms : List Message) (s : Win32)
      → s.queue ≡ clipboard_update ∷ ms
      → s.we_set_clipboard ≡ true
      → pump_round json to_wide w e s ≡ some (record s { queue = ms })
  unfolding pump_round clipboard_wndproc
  ignored_round w e ms s waits flag = rw (waits, flag) refl

  clear_round :
      (w : Windows) (e : Env) (ms : List Message) (s : Win32)
      → s.queue ≡ clear_flag ∷ ms
      → pump_round json to_wide w e s ≡ some (record s { queue = ms; we_set_clipboard = false })
  unfolding pump_round clipboard_wndproc
  clear_round w e ms s waits = rw waits refl

  heard_round :
      (w : Windows) (e : Env) (ms : List Message) (s : Win32)
      → s.queue ≡ clipboard_update ∷ ms
      → s.we_set_clipboard ≡ false
      → pump_round json to_wide w e s
        ≡ on_local_clipboard_changed json to_wide w e (record s { queue = ms })
  unfolding pump_round clipboard_wndproc
  heard_round w e ms s waits flag = rw (waits, flag) refl

  -- What the clipboard channel is told when the last text is taken for one of another program.
  abbrev pub echoed : Env → Bytes → Wide → Win32 → Option Win32
  echoed e utf8 t s = do
    c ←
        cliprdr_set_text e (some utf8) (pos (length utf8))
          (record s.clipboard { files = cliprdr_file_clear_local_files s.clipboard.files })
    some (record (placed t false [] s) { clipboard = c })

  posted_text :
      (w : Windows) (c : ℕ) (cs : Wide) (s : Win32)
      → Works w
      → s.hwnd ≡ true
      → cliprdr_win32_set_text w (c ∷ cs) s ≡ record s { queue = s.queue ++ set_text (c ∷ cs) ∷ [] }
  unfolding cliprdr_win32_set_text
  posted_text w c cs s v window =
      ap
        (λ b.
          if not b || false || not (w.allocates message) then s else post w (set_text (c ∷ cs)) s)
        window
      ∙ ap (λ b. if not b then s else post w (set_text (c ∷ cs)) s) v.copied
      ∙ ap (λ b. if b then record s { queue = s.queue ++ set_text (c ∷ cs) ∷ [] } else s) v.posted

  -- The text is offered, and the flag cleared once more.
  last_rounds :
      (w : Windows) (e : Env) (utf8 : Bytes) (t : Wide) (s : Win32)
      → (do
        x ← offer_text json to_wide e utf8 (placed t false (clear_flag ∷ []) s)
        y ← pump_round json to_wide w e x
        some y)
        ≡ echoed e utf8 t s
  unfolding offer_text pump_round clipboard_wndproc
  last_rounds w e utf8 t s = go (
      cliprdr_set_text e (some utf8) (pos (length utf8))
        (record s.clipboard { files = cliprdr_file_clear_local_files s.clipboard.files }))
    where
      go :
          (o : Option Clipboard)
          → (do
            x ← (do c ← o; some (record (placed t false (clear_flag ∷ []) s) { clipboard = c }))
            y ← pump_round json to_wide w e x
            some y)
            ≡ (do c ← o; some (record (placed t false [] s) { clipboard = c }))
      go none = refl
      go (some c) = refl

  abbrev again : ℕ → Windows → Env → Option Win32 → Option Win32
  again n w e r = do t ← r; pumped json to_wide n w e t

  -- Two texts that are placed on the Windows clipboard before the messages of the first are handled: in
  -- the six rounds of the pump behind them the second one is taken for a text of another program, and is
  -- set as the client's text, as if the user had copied it. The window is ready and idle, the calls of
  -- Windows succeed, the texts are not empty, and the second one can be converted.
  pub two_texts-echoed :
      (w : Windows) (e : Env) (a c : ℕ) (es cs : Wide) (s : Win32)
      → Works w
      → s.hwnd ≡ true
      → s.ready ≡ true
      → s.queue ≡ []
      → is_nil (w.to_utf8 (c ∷ cs)) ≡ false
      → pumped json to_wide 6 w e
          (cliprdr_win32_set_text w (c ∷ cs) (cliprdr_win32_set_text w (a ∷ es) s))
        ≡ echoed e (w.to_utf8 (c ∷ cs)) (c ∷ cs) s
  two_texts-echoed w e a c es cs s v window ready nil some_bytes =
      let t = c ∷ cs in
      let own = record s { queue = set_text (a ∷ es) ∷ [] } in
      let both = record s { queue = set_text (a ∷ es) ∷ set_text t ∷ [] } in
      let first = placed (a ∷ es) true (set_text t ∷ clipboard_update ∷ clear_flag ∷ []) s in
      let second =
        placed t true (clipboard_update ∷ clear_flag ∷ clipboard_update ∷ clear_flag ∷ []) s in
      let third = record second { queue = clear_flag ∷ clipboard_update ∷ clear_flag ∷ [] } in
      let fourth = placed t false (clipboard_update ∷ clear_flag ∷ []) s in
      ap (λ u. pumped json to_wide 6 w e (cliprdr_win32_set_text w t u))
        (posted_text w a es s v window
          ∙ ap (λ q. record s { queue = q ++ set_text (a ∷ es) ∷ [] }) nil)
      ∙ ap (pumped json to_wide 6 w e) (posted_text w c cs own v window)
      ∙ ap (again 5 w e) (text_round w e a es (set_text t ∷ []) both v refl)
      ∙ ap (again 4 w e) (text_round w e c cs (clipboard_update ∷ clear_flag ∷ []) first v refl)
      ∙ ap (again 3 w e) (ignored_round w e _ second refl refl)
      ∙ ap (again 2 w e) (clear_round w e _ third refl)
      ∙ ap (again 1 w e) (
          heard_round w e _ fourth refl refl
          ∙ offered w e c cs false (clear_flag ∷ []) s v some_bytes ready)
      ∙ last_rounds w e (w.to_utf8 t) t s
