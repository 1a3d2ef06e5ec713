-- ===== src/Win32/Local/Switch.antt =====
-- A text that another program puts on the Windows clipboard after files, in cliprdr_win32.c.
use rdp_mcp.Prelude.{
  suc, ◌<◌, ◌≡◌, refl, ◌∙◌, ap, Bool, true, false, not, ◌&&◌, ◌||◌, Option, none, some, List, [],
  ◌∷◌, Bytes, length, ltb, if◌then◌else◌, ◌>>=◌, pos, arith, inr, >>=-eq-some,
}
use rdp_mcp.Json.{CJson}
use rdp_mcp.Files.{LocalFileEntry}
use rdp_mcp.Files.Local.{cliprdr_file_clear_local_files, cliprdr_file_has_local_files}
use rdp_mcp.Clipboard.{
  Clipboard, Env, client_format_list, cf_unicodetext, held_back, send_format_list_locked, announce,
}
use rdp_mcp.Clipboard.Steps.{cliprdr_set_text, replace_content, store_and_announce, is_stored}
use rdp_mcp.Clipboard.Announce.{IsActive, replace_content-IsQuiet}
use rdp_mcp.Clipboard.Exchange.{set_text-whole}
use rdp_mcp.Win32.{Win32, Windows, System, Wide, open_clipboard_retry}
use rdp_mcp.Win32.Local.{
  dropped, local_text, offer_text, offer_files, on_local_clipboard_changed, is_available,
}

-- A text that replaces staged files is announced by cliprdr_set_text, whatever was sent before.
set_text-switch :
    (e : Env) (t : Bytes) (f : LocalFileEntry) (fs : List LocalFileEntry) (s : Clipboard)
    → IsActive s
    → s.files.local_files ≡ f ∷ fs
    → e.allocates ≡ true
    → 0 < length t
    → (replace_content e t s).sent ≡ client_format_list e.after cf_unicodetext none ∷ s.sent
unfolding replace_content store_and_announce send_format_list_locked announce
    cliprdr_file_has_local_files cliprdr_file_clear_local_files
set_text-switch e t f fs s (c, channel, ready) staged alloc long =
    let some_file : ltb 0 (suc (length fs)) ≡ true = ground arith in
    let some_text : ltb 0 (length t) ≡ true = ground (arith, long) in
    rw (staged, some_file, alloc, channel, ready, some_text) refl

text_available :
    (w : Windows) (utf8 : Bytes) (s : System)
    → local_text w s ≡ some utf8
    → is_available s.unicodetext ≡ true
unfolding local_text
text_available w utf8 s has_text =
    let (units, at, rest) = >>=-eq-some s.unicodetext _ has_text in ap is_available at

-- The guard of on_local_clipboard_changed lets a text pass.
passed :
    (ready opened files text : Bool)
    → ready ≡ true
    → opened ≡ true
    → text ≡ true
    → (not ready || (not files && not text) || not opened) ≡ false
passed true true true true r o t = refl
passed true true false true r o t = refl
passed false b c d r o t = cc
passed true false c d r o t = cc
passed true true c false r o t = cc

module _ {Value : Type 0} (json : CJson Value) (to_wide : Bytes → Option Wide) where
  changed-text :
      (w : Windows) (e : Env) (utf8 : Bytes) (s : Win32)
      → s.ready ≡ true
      → open_clipboard_retry w ≡ true
      → dropped w s.system ≡ none
      → local_text w s.system ≡ some utf8
      → on_local_clipboard_changed json to_wide w e s ≡ offer_text json to_wide e utf8 s
  unfolding on_local_clipboard_changed
  changed-text w e utf8 s ready opened no_files has_text =
      ap
        (λ b. if b then some s else elim (dropped w s.system) [
          | some paths ↦ offer_files json to_wide w e paths s
          | none ↦ elim (local_text w s.system) [
            | some text ↦ offer_text json to_wide e text s
            | none ↦ some s
          ]
        ])
        (passed s.ready (open_clipboard_retry w) (is_available s.system.hdrop)
          (is_available s.system.unicodetext) ready opened
          (text_available w utf8 s.system has_text))
      ∙ ap
          (λ o. elim o [
            | some paths ↦ offer_files json to_wide w e paths s
            | none ↦ elim (local_text w s.system) [
              | some text ↦ offer_text json to_wide e text s
              | none ↦ some s
            ]
          ])
          no_files
      ∙ ap (λ o. elim o [ some text ↦ offer_text json to_wide e text s | none ↦ some s ]) has_text

  -- The text is stored, no files are staged, and no format list was sent.
  abbrev pub Silent : Bytes → Win32 → Option Win32 → Type 0
  Silent t s r =
      (s' : Win32) × (r ≡ some s')
      × (is_stored t s'.clipboard ≡ true)
      × (s'.clipboard.files.local_files ≡ [])
      × (s'.clipboard.sent ≡ s.clipboard.sent)

  -- A text that is copied while files are staged and format lists are held back replaces the files, and
  -- is stored, but the remote side is not told of it; cliprdr_set_text would have announced it, had the
  -- staged files not been cleared before the call. The channel works, the clipboard can be opened and
  -- holds a text and no files, and there is memory.
  pub copied_text-Silent :
      (w : Windows) (e : Env) (t : Bytes) (f : LocalFileEntry) (fs : List LocalFileEntry)
      (s : Win32)
      → s.ready ≡ true
      → IsActive s.clipboard
      → s.clipboard.files.local_files ≡ f ∷ fs
      → held_back e s.clipboard ≡ true
      → e.allocates ≡ true
      → open_clipboard_retry w ≡ true
      → dropped w s.system ≡ none
      → local_text w s.system ≡ some t
      → 0 < length t
      → Silent t s (on_local_clipboard_changed json to_wide w e s)
        × (c : Clipboard) × (cliprdr_set_text e (some t) (pos (length t)) s.clipboard ≡ some c)
        × (c.sent ≡ client_format_list e.after cf_unicodetext none ∷ s.clipboard.sent)
  unfolding offer_text cliprdr_file_clear_local_files
  copied_text-Silent w e t f fs s ready active staged held alloc opened no_files has_text long =
      let cleared = record s.clipboard {
        files = cliprdr_file_clear_local_files s.clipboard.files;
      } in
      let (stored, none_left, quiet) =
        replace_content-IsQuiet e t cleared refl (inr (alloc, held)) in
      (
        (
          record s { clipboard = replace_content e t cleared },
          changed-text w e t s ready opened no_files has_text
              ∙ ap (λ o. do c ← o; some (record s { clipboard = c }))
                  (set_text-whole e t cleared long),
          stored,
          none_left,
          quiet,
        ),
        replace_content e t s.clipboard,
        set_text-whole e t s.clipboard long,
        set_text-switch e t f fs s.clipboard active staged alloc long,
      )
