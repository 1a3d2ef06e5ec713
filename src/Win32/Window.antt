-- ===== src/Win32/Window.antt =====
-- native/freerdp-helper/src/cliprdr_win32.c: the window of the clipboard thread, its messages and the
-- thread itself.
pub mod Echo
pub mod Overlap
use rdp_mcp.Prelude.{
  ℕ, zero, suc, ◌+◌, Bool, true, false, not, ◌&&◌, ◌||◌, Option, none, some, List, [], ◌∷◌, ◌++◌,
  Bytes, length, if◌then◌else◌, ◌>>=◌, is_nil,
}
use rdp_mcp.Json.{CJson}
use rdp_mcp.Clipboard.{Clipboard, Env}
use rdp_mcp.Output.{output_send_clipboard_native}
use rdp_mcp.Win32.{
  Win32, Windows, System, Wide, Message, clipboard_update, clear_flag, shutdown, set_text,
  set_files, open_clipboard_retry, post, cliprdr_win32_set_text, cliprdr_win32_set_files,
  cliprdr_win32_init, cliprdr_win32_cleanup, cliprdr_win32_set_ready, cliprdr_win32_is_active,
}
use rdp_mcp.Win32.Local.{on_local_clipboard_changed}
use rdp_mcp.Win32.Drop.{drop_units}

-- The clipboard is closed after it was emptied and filled; Windows posts its message, now or later.
abbrev pub changed : Windows → System → Win32 → Win32
changed w filled s =
    let placed = record s { system = filled } in
    if w.notifies
    then record placed { queue = s.queue ++ clipboard_update ∷ [] }
    else record placed { unqueued = suc s.unqueued }

-- Windows queues a message that was late.
abbrev pub notified : Win32 → Win32
notified s = elim s.unqueued [
  | zero ↦ s
  | suc n ↦ record s { unqueued = n; queue = s.queue ++ clipboard_update ∷ [] }
]

abbrev pub empty_system : System
empty_system = record { hdrop = none; unicodetext = none }

unfoldable pub place_text : Windows → Wide → Win32 → Win32
place_text w text s =
    if open_clipboard_retry w
    then changed w
        (if w.gives_memory && w.locks && w.takes_data
          then record empty_system { unicodetext = some text }
          else empty_system)
        s
    else s

unfoldable pub place_files : Windows → List Wide → Win32 → Win32
place_files w paths s =
    if open_clipboard_retry w
    then changed w
        (if w.gives_memory && w.locks && w.takes_data
          then record empty_system { hdrop = some (drop_units paths) }
          else empty_system)
        s
    else s

module _ {Value : Type 0} (json : CJson Value) (to_wide : Bytes → Option Wide) where
  -- `none` is a write behind the end of a buffer.
  unfoldable pub clipboard_wndproc : Windows → Env → Message → Win32 → Option Win32
  unfolding place_text place_files
  clipboard_wndproc w e clipboard_update s =
      if s.we_set_clipboard then some s else on_local_clipboard_changed json to_wide w e s
  clipboard_wndproc w e (set_text text) s =
      if is_nil text
      then some s
      else some (post w clear_flag (place_text w text (record s { we_set_clipboard = true })))
  clipboard_wndproc w e (set_files paths) s =
      if is_nil paths
      then some s
      else some (post w clear_flag (place_files w paths (record s { we_set_clipboard = true })))
  clipboard_wndproc w e clear_flag s = some (record s { we_set_clipboard = false })
  clipboard_wndproc w e shutdown s = some (record s { quits = true })

  -- A round of the message pump, if a message waits.
  unfoldable pub pump_round : Windows → Env → Win32 → Option Win32
  unfolding clipboard_wndproc
  pump_round w e s = elim s.queue [
    | [] ↦ some s
    | m ∷ ms ↦ clipboard_wndproc w e m (record s { queue = ms })
  ]

-- The start of the thread, up to its message pump: whether the class is registered, the window created
-- and the listener added. The second part says that the pump is entered.
pub record Start : Type 0 where
  pub registers : Bool
  pub creates : Bool
  pub listens : Bool

unfoldable pub thread_start : Start → Win32 → Option (Win32 × Bool)
thread_start a s =
    if not a.registers
    then some (s, false)
    else if not a.creates || not a.listens
    then some (record s { hwnd = false }, false)
    else (do
      o ← output_send_clipboard_native s.clipboard.output
      some (
        record s {
          hwnd = true;
          thread_running = true;
          clipboard = record s.clipboard { output = o };
        },
        true,
      ))

-- Behind the message pump; the messages of a window that is destroyed are lost, the late ones too.
unfoldable pub thread_end : Win32 → Win32
thread_end s = record s {
  hwnd = false;
  thread_running = false;
  quits = false;
  queue = [];
  unqueued = 0;
}
