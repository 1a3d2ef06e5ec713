-- ===== src/Clipboard/Exchange.antt =====
-- Text between two clipboards of cliprdr.c.
use rdp_mcp.Prelude.{
  ℕ, ◌+◌, ◌*◌, ◌%◌, ◌/◌, ◌<◌, ◌≡◌, refl, ◌∙◌, ap, sym, Bool, true, false, not, ◌&&◌, Option, none,
  some, List, [], ◌∷◌, ◌++◌, Bytes, length, take, ltb, le→leb, ◌==◌, same_text, same_text→eq,
  if_intro, if_cases, pos, leb_ℤ, signed32, arith, Option-cases, inl, inr, All, take_all,
  All-append, ◌≢◌, length-append,
}
use rdp_mcp.Files.Channel.{cliprdr_file_get_fgd_format_id}
use rdp_mcp.Files.Local.{cliprdr_file_clear_local_files, cliprdr_file_has_local_files}
use rdp_mcp.Output.{Output, output_send_clipboard_text}
use rdp_mcp.Clipboard.{
  Clipboard, Env, Library, client_format_data_response, announce, send_format_list_locked,
  held_back, cf_unicodetext,
}
use rdp_mcp.Clipboard.Data.{
  wide_bytes, from_wide_bytes, strip_terminator, text_response, converted, deliver, received_text,
  cb_server_format_data_request, cb_server_format_data_response,
}
use rdp_mcp.Clipboard.Answers.{send_clipboard_text-some}
use rdp_mcp.Clipboard.Steps.{
  has_channel, is_stored, same_stored, store_and_announce, replace_content, cliprdr_set_text,
}

-- The clipboard holds a text, and has no files.
abbrev pub Holds : Bytes → ℕ → Clipboard → Type 0
Holds t fgd s =
    (t' : Bytes) × (s.client_text ≡ some t')
    × (s.client_text_len ≡ length t)
    × (take (length t) t' ≡ t)
    × (s.files.fgd_format_id ≡ fgd)

abbrev HoldsAfter : Bytes → ℕ → Clipboard × ℕ → Type 0
HoldsAfter t fgd r = Holds t fgd r.0

-- All of a text.
pub take_whole : (t : Bytes) → take (length t) t ≡ t
take_whole t = take_all (length t) t (omega arith)

send_format_list_locked-Holds :
    (t : Bytes) (fgd : ℕ) (b : Bool) (e : Env) (s : Clipboard)
    → s.files.local_files ≡ []
    → Holds t fgd s
    → HoldsAfter t fgd (send_format_list_locked b e s)
unfolding send_format_list_locked announce cliprdr_file_has_local_files
send_format_list_locked-Holds t fgd b e s no_files (t', text, len, same, id) =
    elim (Option-cases s.cliprdr) [
      | inl n ↦ rw (n) (t', text, len, same, id)
      | inr (c, k) ↦ rw (k) (
          if_intro (HoldsAfter t fgd) (not b && held_back e s) (t', text, len, same, id)
            (rw (no_files) (t', text, len, same, id)))
    ]

-- A whole text that is not empty is set.
pub set_text-whole :
    (e : Env) (t : Bytes) (s : Clipboard)
    → 0 < length t
    → cliprdr_set_text e (some t) (pos (length t)) s ≡ some (replace_content e t s)
unfolding cliprdr_set_text
set_text-whole e t s h =
    let positive : leb_ℤ (pos (length t)) (pos 0) ≡ false = ground arith in
    rw (positive, le→leb (length t) (length t) (omega arith))
      (ap (λ b. some (replace_content e b s)) (take_whole t))

same_stored-take :
    (t : Bytes) (n : ℕ) (o : Option Bytes)
    → same_stored t n o ≡ true
    → (t' : Bytes) × (o ≡ some t') × (n ≡ length t) × (take (length t) t' ≡ t)
same_stored-take t n none h = absurd (ground (arith, h))
same_stored-take t n (some t') h =
    let long : n ≡ length t = ground (arith, h) in
    let same : same_text (take n t') t ≡ true = ground (arith, h) in
    (t', refl, long, ap (λ m. take m t') (sym long) ∙ same_text→eq (take n t') t same)

is_stored-Holds :
    (t : Bytes) (s : Clipboard) → is_stored t s ≡ true → Holds t s.files.fgd_format_id s
is_stored-Holds t s h =
    let (t', text, len, same) = same_stored-take t s.client_text_len s.client_text h in
    (t', text, len, same, refl)

store_and_announce-Holds :
    (b : Bool) (e : Env) (t : Bytes) (s : Clipboard)
    → e.allocates ≡ true
    → s.files.local_files ≡ []
    → Holds t s.files.fgd_format_id (store_and_announce b e t s)
unfolding store_and_announce
store_and_announce-Holds b e t s alloc no_files =
    let stored = record s { client_text = some t; client_text_len = length t } in
    let fgd = s.files.fgd_format_id in
    rw (alloc) (
      if_intro (Holds t fgd) (has_channel stored && stored.ready && ltb 0 stored.client_text_len)
        (send_format_list_locked-Holds t fgd b e stored no_files
          (t, refl, refl, take_whole t, refl))
        (t, refl, refl, take_whole t, refl))

replace_content-Holds :
    (e : Env) (t : Bytes) (s : Clipboard)
    → e.allocates ≡ true
    → Holds t s.files.fgd_format_id (replace_content e t s)
unfolding replace_content cliprdr_file_clear_local_files
replace_content-Holds e t s alloc =
    let had_files = cliprdr_file_has_local_files s.files in
    let cleared = record s { files = cliprdr_file_clear_local_files s.files } in
    let fgd = s.files.fgd_format_id in
    if_cases (Holds t fgd) (not had_files && is_stored t cleared)
      (λ k. is_stored-Holds t cleared (ground (arith, k)))
      (λ k. store_and_announce-Holds had_files e t cleared alloc refl)

from_wide_bytes-wide_bytes :
    (w : List ℕ) → All (λ c. c < 65536) w → from_wide_bytes (wide_bytes w) ≡ w
from_wide_bytes-wide_bytes [] h = refl
from_wide_bytes-wide_bytes (c ∷ w) h =
    let unit : c % 256 + 256 * (c / 256 % 256) ≡ c = omega (arith, h.0) in
    rw (unit, from_wide_bytes-wide_bytes w h.1) refl

strip_terminator-append : (w : List ℕ) → strip_terminator (w ++ (0 ∷ [])) ≡ w
strip_terminator-append [] = refl
strip_terminator-append (c ∷ []) = refl
strip_terminator-append (c ∷ d ∷ w) = ap (◌∷◌ c) (strip_terminator-append (d ∷ w))

length-wide_bytes : (w : List ℕ) → length (wide_bytes w) ≡ length w * 2
length-wide_bytes [] = omega arith
length-wide_bytes (c ∷ w) = omega (arith, length-wide_bytes w)

text_response-Holds :
    (lib : Library) (t : Bytes) (c : ℕ) (w : List ℕ) (fgd : ℕ) (s : Clipboard)
    → Holds t fgd s
    → 0 < length t
    → lib.utf8_to_wide t ≡ some (c ∷ w)
    → (length (c ∷ w) + 1) * 2 < 4294967296
    → text_response lib s ≡ some (wide_bytes ((c ∷ w) ++ (0 ∷ [])))
unfolding text_response
text_response-Holds lib t c w fgd s (t', text, len, same, id) some_text wide fits =
    let units = (c ∷ w) ++ (0 ∷ []) in
    let count : length (wide_bytes units) ≡ (length (c ∷ w) + 1) * 2 =
      omega (arith, length-wide_bytes units, length-append w (0 ∷ [])) in
    let positive : (length t == 0) ≡ false = ground arith in
    let small : (length (c ∷ w) + 1) * 2 % 4294967296 ≡ length (wide_bytes units) = omega arith in
    rw (text, len, positive, same, wide, small) (ap some (take_whole (wide_bytes units)))

request-Holds :
    (lib : Library) (e : Env) (t : Bytes) (c : ℕ) (w : List ℕ) (fgd : ℕ) (s : Clipboard)
    → Holds t fgd s
    → 0 < length t
    → lib.utf8_to_wide t ≡ some (c ∷ w)
    → (length (c ∷ w) + 1) * 2 < 4294967296
    → fgd ≢ cf_unicodetext
    → (cb_server_format_data_request lib e cf_unicodetext s).0.sent
      ≡ client_format_data_response (some (wide_bytes ((c ∷ w) ++ (0 ∷ [])))) ∷ s.sent
unfolding cb_server_format_data_request cliprdr_file_get_fgd_format_id
request-Holds lib e t c w fgd s holds some_text wide fits other =
    let (t', text, len, same, id) = holds in
    let no_match : (not (s.files.fgd_format_id == 0) && 13 == s.files.fgd_format_id) ≡ false =
      ground (arith, id, other) in
    rw (no_match, text_response-Holds lib t c w fgd s holds some_text wide fits) refl

received_text-wide_bytes :
    (lib : Library) (b : ℕ) (t : Bytes) (c : ℕ) (w : List ℕ)
    → All (λ c. c < 65536) (c ∷ w)
    → lib.wide_to_utf8 (c ∷ w) ≡ some (b ∷ t)
    → received_text lib (wide_bytes ((c ∷ w) ++ (0 ∷ []))) ≡ some (b ∷ t)
received_text-wide_bytes lib b t c w units utf8 =
    ap (λ u. converted lib (strip_terminator u))
      (from_wide_bytes-wide_bytes ((c ∷ w) ++ (0 ∷ []))
        (All-append (λ c. c < 65536) (c ∷ w) (0 ∷ []) units (omega arith, tt)))
    ∙ ap (converted lib) (strip_terminator-append (c ∷ w))
    ∙ rw (utf8, converted) refl

-- Text from one helper to another: it is set in the first, which then answers a request for
-- CF_UNICODETEXT; the second takes the bytes of the answer, and sends exactly the text on to its
-- embedding program. For a text below 2 ^ 31 bytes whose conversions by WinPR are inverse to each other,
-- with memory for it, no registered format under the number of CF_UNICODETEXT, and no answer with files
-- awaited by the second.
pub set_text-response :
    (lib : Library) (e e' : Env) (b c : ℕ) (t : Bytes) (w : List ℕ) (from to : Clipboard)
    → lib.utf8_to_wide (b ∷ t) ≡ some (c ∷ w)
    → lib.wide_to_utf8 (c ∷ w) ≡ some (b ∷ t)
    → All (λ u. u < 65536) (c ∷ w)
    → (length (c ∷ w) + 1) * 2 < 4294967296
    → length (b ∷ t) < 2147483648
    → e.allocates ≡ true
    → from.files.fgd_format_id ≢ cf_unicodetext
    → to.pending_fgd ≡ false
    → (from' : Clipboard) × (bytes : Bytes) × (o : Output) × (cliprdr_set_text e
          (some (b ∷ t))
          (pos (length (b ∷ t)))
          from
        ≡ some from')
      × ((cb_server_format_data_request lib e' cf_unicodetext from').0.sent
          ≡ client_format_data_response (some bytes) ∷ from'.sent)
      × (output_send_clipboard_text (some (b ∷ t)) (pos (length (b ∷ t))) to.output ≡ some o)
      × (cb_server_format_data_response lib true bytes to ≡ some (record to { output = o }))
unfolding cb_server_format_data_response
set_text-response lib e e' b c t w from to wide utf8 units fits small alloc other free =
    let holds = replace_content-Holds e (b ∷ t) from alloc in
    let some_text : 0 < length (b ∷ t) = omega arith in
    let whole : signed32 (length (b ∷ t) % 4294967296) ≡ pos (length (b ∷ t)) = ground arith in
    let (o, sent) =
      send_clipboard_text-some (b ∷ t) (pos (length (b ∷ t))) to.output (omega arith) in
    let text = received_text-wide_bytes lib b t c w units utf8 in
    (
      replace_content e (b ∷ t) from,
      wide_bytes ((c ∷ w) ++ (0 ∷ [])),
      o,
      set_text-whole e (b ∷ t) from some_text,
      request-Holds lib e' (b ∷ t) c w from.files.fgd_format_id (replace_content e (b ∷ t) from)
          holds some_text wide fits other,
      sent,
      rw (free)
          (ap (λ u. deliver u (record to { pending_fgd = false })) text ∙ rw (whole, sent) refl),
    )
