-- ===== src/Win32.antt =====
-- native/freerdp-helper/src/cliprdr_win32.c: the clipboard of Windows beside the clipboard channel. The
-- static variables are one record, with the messages posted to the window, the contents of the Windows
-- clipboard, and the state of cliprdr.c, which the code reaches by calls. What Windows answers is the
-- record `Windows`.
pub mod Listing
pub mod Local
pub mod Drop
pub mod Roots
pub mod Window
mod Runs
use rdp_mcp.Prelude.{
  ℕ, zero, suc, ◌+◌, Bool, true, false, not, ◌&&◌, ◌||◌, Option, none, some, List, [], ◌∷◌, ◌++◌,
  Bytes, length, if◌then◌else◌, map, ◌==◌, is_nil,
}
use rdp_mcp.Clipboard.{Clipboard}

-- UTF-16 text up to its terminator.
abbrev pub Wide : Type 0
Wide = List ℕ

-- The Windows clipboard: the units behind the header of CF_HDROP, and CF_UNICODETEXT.
pub record System : Type 0 where
  pub hdrop : Option Wide
  pub unicodetext : Option Wide

-- The calls of `malloc` that the code tests: for the listing, the text, and the copies that are made of
-- a path of the listing and of a message.
pub data Site : Type 0 where
  listing text message : Site
  path_copy escaped_copy message_path : ℕ → Site

-- WM_CLIPBOARDUPDATE and the messages of the program, with the data posted with them.
pub data Message : Type 0 where
  clipboard_update clear_flag shutdown : Message
  set_text : Wide → Message
  set_files : List Wide → Message

-- What Windows answers: OpenClipboard at each attempt, whether GetClipboardData, GlobalLock,
-- GlobalAlloc, SetClipboardData and PostMessageW succeed, whether closing the clipboard after a change
-- has queued WM_CLIPBOARDUPDATE by the time it returns (if not, it comes later), the files that DragQueryFileW reads, the
-- conversion to UTF-8, [] if it fails, and the directory bit and the size of a file.
pub record Windows : Type 0 where
  pub opens : ℕ → Bool
  pub gives_data : Bool
  pub locks : Bool
  pub gives_memory : Bool
  pub takes_data : Bool
  pub posts : Bool
  pub notifies : Bool
  pub drag_query : Wide → List Wide
  pub to_utf8 : Wide → Bytes
  pub attributes : Wide → Option (Bool × ℕ)
  pub allocates : Site → Bool

-- `thread` and `hwnd` say that the handles are not NULL; `queue` is oldest first, and `quits` says that
-- PostQuitMessage was called; `unqueued` are the messages WM_CLIPBOARDUPDATE for changes of its own
-- that Windows has yet to queue.
pub record Win32 : Type 0 where
  pub thread : Bool
  pub hwnd : Bool
  pub ready : Bool
  pub thread_running : Bool
  pub we_set_clipboard : Bool
  pub queue : List Message
  pub quits : Bool
  pub unqueued : ℕ
  pub system : System
  pub clipboard : Clipboard

-- `attempt` counts the attempts made.
unfoldable pub open_attempts : ℕ → ℕ → Windows → Bool
open_attempts zero attempt w = false
open_attempts (suc n) attempt w =
    let again = open_attempts n (suc attempt) w in if w.opens attempt then true else again

unfoldable pub open_clipboard_retry : Windows → Bool
unfolding open_attempts
open_clipboard_retry w = open_attempts 3 0 w

-- PostMessageW; a message that is not taken is lost.
abbrev pub post : Windows → Message → Win32 → Win32
post w m s = if w.posts then record s { queue = s.queue ++ m ∷ [] } else s

unfoldable pub cliprdr_win32_init : Bool → Win32 → Win32
cliprdr_win32_init created s =
    if s.thread then s else record s { ready = false; we_set_clipboard = false; thread = created }

-- The wait for the thread is not part of the state.
unfoldable pub cliprdr_win32_cleanup : Windows → Win32 → Win32
cliprdr_win32_cleanup w s =
    let quiet = record s { ready = false; thread = false } in
    if s.hwnd then post w shutdown quiet else quiet

unfoldable pub cliprdr_win32_set_ready : Bool → Win32 → Win32
cliprdr_win32_set_ready ready s = record s { ready = ready }

unfoldable pub cliprdr_win32_set_text : Windows → Wide → Win32 → Win32
cliprdr_win32_set_text w t s =
    if not s.hwnd || is_nil t || not (w.allocates message) then s else post w (set_text t) s

-- Whether there is memory for the copies of the paths from an index on.
abbrev pub copies : Windows → ℕ → List Wide → Bool
copies w i [] = true
copies w i (p ∷ ps) = w.allocates (message_path i) && copies w (suc i) ps

unfoldable pub cliprdr_win32_set_files : Windows → List Wide → Win32 → Win32
cliprdr_win32_set_files w paths s =
    if not s.hwnd || is_nil paths || not (w.allocates message) || not (copies w 0 paths)
    then s
    else post w (set_files paths) s

unfoldable pub cliprdr_win32_is_active : Win32 → Bool
cliprdr_win32_is_active s = s.thread_running && s.hwnd
