-- ===== src/Clipboard/Answers.antt =====
-- The responses of the calls of cliprdr.c with data, which go through.
use rdp_mcp.Prelude.{
  ℕ, ◌%◌, ◌≤◌, ◌≡◌, refl, Bool, true, false, not, ◌&&◌, Option, none, some, [], ◌∷◌, Bytes, length,
  take, ltb, ◌++◌, le→leb, if_intro, if_cases, ◌>>=◌, ℤ, pos, pos_part, leb_ℤ, signed32, u32, arith,
}
use rdp_mcp.Files.Local.{cliprdr_file_clear_local_files, cliprdr_file_has_local_files}
use rdp_mcp.Output.{
  Output, output_send, output_send_clipboard_text, no_sink, put_bytes, le32, read_buffer,
}
use rdp_mcp.MessageType.{msg_clipboard_text}
use rdp_mcp.Clipboard.{Clipboard, Env, Library}
use rdp_mcp.Clipboard.Data.{deliver, received_text, cb_server_format_data_response}
use rdp_mcp.Clipboard.Steps.{
  has_channel, is_stored, store_text, store_and_announce, replace_content, cliprdr_announce_files,
  cliprdr_set_text, Event, set_text,
}
use rdp_mcp.Clipboard.Counts.{Answers, send_format_list_locked-Replies, handle_fgd_response-effects}

-- A text that is as long as its length says is sent.
pub send_clipboard_text-some :
    (t : Bytes) (n : ℤ) (o : Output)
    → u32 n ≤ length t
    → (o' : Output) × (output_send_clipboard_text (some t) n o ≡ some o')
unfolding output_send_clipboard_text output_send
send_clipboard_text-some t n o h =
    let read : read_buffer (some t) (u32 n) ≡ some (take (u32 n) t) =
      rw (le→leb (u32 n) (length t) h) refl in
    if_intro IsSome (leb_ℤ n (pos 0)) (o, refl)
      (if_intro IsSome (no_sink o) (o, refl)
        (if_intro IsSome o.callback (rw (read) (_, refl))
          (rw (read) (if_cases IsSent (ltb 0 (u32 n)) (λ k. (_, refl)) (λ k. (_, refl))))))
  where
    IsSome : Option Output → Type 0
    IsSome r = (o' : Output) × (r ≡ some o')

    IsSent : Option Bytes → Type 0
    IsSent p =
        (o' : Output) × ((do
          b ← p
          some (put_bytes (le32 msg_clipboard_text ++ (le32 (u32 n) ++ b)) o))
          ≡ some o')

-- The call goes through, with so many answers.
abbrev pub Outcome : ℕ → ℕ → Clipboard → Option Clipboard → Type 0
Outcome d l s r = (s' : Clipboard) × (r ≡ some s') × Answers d l s s'

u32-signed32 : (n : ℕ) → u32 (signed32 (n % 4294967296)) ≡ n % 4294967296
u32-signed32 n = ground arith

deliver-Outcome : (t : Option Bytes) (s : Clipboard) → Outcome 0 0 s (deliver t s)
deliver-Outcome none s = (s, refl, (omega arith, omega arith))
deliver-Outcome (some t) s =
    let (o, sent) =
      send_clipboard_text-some t (signed32 (length t % 4294967296)) s.output
        (omega (arith, u32-signed32 (length t))) in
    rw (sent) (_, refl, (omega arith, omega arith))

pub cb_server_format_data_response-Outcome :
    (lib : Library) (ok : Bool) (bytes : Bytes) (s : Clipboard)
    → Outcome 0 0 s (cb_server_format_data_response lib ok bytes s)
unfolding cb_server_format_data_response
cb_server_format_data_response-Outcome lib false bytes s = (_, refl, (omega arith, omega arith))
cb_server_format_data_response-Outcome lib true [] s = (s, refl, (omega arith, omega arith))
cb_server_format_data_response-Outcome lib true (b ∷ bytes) s =
    if_intro (Outcome 0 0 s) s.pending_fgd
      (
        _,
        refl,
        (
          omega (arith, handle_fgd_response-effects (lib.parse_file_list (b ∷ bytes)) s.files),
          omega arith,
        ),
      )
      (deliver-Outcome (received_text lib (b ∷ bytes)) (record s { pending_fgd = false }))

pub cliprdr_announce_files-Answers :
    (e : Env) (s : Clipboard) → Answers 0 0 s (cliprdr_announce_files e s)
unfolding cliprdr_announce_files
cliprdr_announce_files-Answers e s =
    if_intro (Answers 0 0 s) (has_channel s && s.ready && cliprdr_file_has_local_files s.files)
      (send_format_list_locked-Replies true e
        (record s { client_text = none; client_text_len = 0 }))
      (omega arith, omega arith)

store_text-Answers :
    (allocates : Bool) (t : Bytes) (s : Clipboard) → Answers 0 0 s (store_text allocates t s)
store_text-Answers allocates t s =
    if_intro (Answers 0 0 s) allocates (omega arith, omega arith) (omega arith, omega arith)

store_and_announce-Answers :
    (had_files : Bool) (e : Env) (t : Bytes) (s : Clipboard)
    → Answers 0 0 s (store_and_announce had_files e t s)
unfolding store_and_announce
store_and_announce-Answers had_files e t s =
    let stored = store_text e.allocates t s in
    let (answered, listed) = store_text-Answers e.allocates t s in
    let (answered', listed') = send_format_list_locked-Replies had_files e stored in
    if_intro (Answers 0 0 s) (has_channel stored && stored.ready && ltb 0 stored.client_text_len)
      (omega (arith, answered, answered'), omega (arith, listed, listed')) (answered, listed)

-- The length of a text that is set is not above that of its buffer.
abbrev pub IsReadable : Event → Type 0
IsReadable (set_text e (some t) n) = pos_part n ≤ length t
IsReadable _ = Unit

replace_content-Answers :
    (e : Env) (t : Bytes) (s : Clipboard) → Answers 0 0 s (replace_content e t s)
unfolding replace_content cliprdr_file_clear_local_files
replace_content-Answers e t s =
    let had_files = cliprdr_file_has_local_files s.files in
    let cleared = record s { files = cliprdr_file_clear_local_files s.files } in
    if_intro (Answers 0 0 s) (not had_files && is_stored t cleared) (omega arith, omega arith)
      (store_and_announce-Answers had_files e t cleared)

pub cliprdr_set_text-Outcome :
    (e : Env) (text : Option Bytes) (n : ℤ) (s : Clipboard)
    → IsReadable (set_text e text n)
    → Outcome 0 0 s (cliprdr_set_text e text n s)
unfolding cliprdr_set_text
cliprdr_set_text-Outcome e none n s h = (s, refl, (omega arith, omega arith))
cliprdr_set_text-Outcome e (some t) n s h = rw (le→leb (pos_part n) (length t) h) (
    if_intro (Outcome 0 0 s) (leb_ℤ n (pos 0)) (s, refl, (omega arith, omega arith))
      (_, refl, replace_content-Answers e (take (pos_part n) t) s))
