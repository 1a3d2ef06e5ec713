-- ===== src/Clipboard/Announce.antt =====
-- The format lists of cliprdr.c, and what is behind them.
use rdp_mcp.Prelude.{
  ℕ, suc, ◌<◌, ◌≡◌, ◌≢◌, refl, ◌∙◌, true, false, not, ◌&&◌, Option, none, some, List, [], ◌∷◌,
  Bytes, length, ltb, ◌==◌, same_text_refl, if_intro, if_cases, pos, arith, Option-cases, ◌⊎◌, inl,
  inr,
}
use rdp_mcp.Files.{LocalFileEntry, format_data_response}
use rdp_mcp.Files.Channel.{cliprdr_file_get_fgd_format_id, cliprdr_file_set_fgd_format_id}
use rdp_mcp.Files.Local.{
  cliprdr_file_clear_local_files, cliprdr_file_has_local_files, cliprdr_file_handle_fgd_request,
}
use rdp_mcp.Clipboard.{
  Clipboard, Env, Library, client_format_list, client_format_data_response, announce,
  send_format_list_locked, held_back, cf_unicodetext, fgd_id, file_group_descriptor,
}
use rdp_mcp.Clipboard.Data.{text_response, cb_server_format_data_request}
use rdp_mcp.Clipboard.Steps.{
  Event, has_channel, set_text, is_stored, same_stored, replace_content, store_and_announce,
  cliprdr_announce_files, step, run,
}
use rdp_mcp.Clipboard.Exchange.{set_text-whole, take_whole}

-- The state is on a channel that works.
abbrev pub IsActive : Clipboard → Type 0
IsActive s = (c : ℕ) × (s.cliprdr ≡ some c) × (s.ready ≡ true)

fgd_id_some : (s : Clipboard) → fgd_id s ≢ 0
unfolding cliprdr_file_get_fgd_format_id
fgd_id_some s h = ground (arith, h)

-- The state after the announcement of staged files.
abbrev announced : Env → Clipboard → Clipboard
announced e s = record s {
  client_text = none;
  client_text_len = 0;
  last_format_list_ms = e.after;
  format_list_rejected = false;
  files = record s.files { fgd_format_id = fgd_id s };
  sent = client_format_list e.after (fgd_id s) (some file_group_descriptor) ∷ s.sent;
}

cliprdr_announce_files_lem :
    (e : Env) (f : LocalFileEntry) (fs : List LocalFileEntry) (s : Clipboard)
    → IsActive s
    → s.files.local_files ≡ f ∷ fs
    → cliprdr_announce_files e s ≡ announced e s
unfolding cliprdr_announce_files send_format_list_locked announce cliprdr_file_has_local_files
    cliprdr_file_set_fgd_format_id
cliprdr_announce_files_lem e f fs s (c, channel, ready) staged =
    let some_file : ltb 0 (suc (length fs)) ≡ true = ground arith in
    rw (channel, ready, staged, some_file) refl

request-announced :
    (lib : Library) (e e' : Env) (f : LocalFileEntry) (fs : List LocalFileEntry) (s : Clipboard)
    → s.files.local_files ≡ f ∷ fs
    → (cb_server_format_data_request lib e' (fgd_id s) (announced e s)).0.files.effects
      ≡ format_data_response (lib.serialize_file_list s.files.local_descriptors) ∷ s.files.effects
unfolding cb_server_format_data_request cliprdr_file_get_fgd_format_id
    cliprdr_file_handle_fgd_request
request-announced lib e e' f fs s staged =
    let id_some : (not (fgd_id s == 0) && fgd_id s == fgd_id s) ≡ true =
      ground (arith, fgd_id_some s) in
    rw (id_some, staged) refl

request-text :
    (lib : Library) (e e' : Env) (s : Clipboard)
    → fgd_id s ≢ cf_unicodetext
    → (cb_server_format_data_request lib e' cf_unicodetext (announced e s)).0.sent
      ≡ client_format_data_response none ∷ (announced e s).sent
unfolding cb_server_format_data_request cliprdr_file_get_fgd_format_id text_response
request-text lib e e' s other =
    let no_match : (not (fgd_id s == 0) && 13 == fgd_id s) ≡ false = ground (arith, other) in
    rw (no_match) refl

-- Files that are staged are announced at once on a working channel, whatever was sent and rejected
-- before; a request with the id of the announcement, which is not 0, is answered with their descriptors,
-- and a request for text with a failure, as no text is left.
pub announce_files-request :
    (lib : Library) (e e' : Env) (f : LocalFileEntry) (fs : List LocalFileEntry) (s : Clipboard)
    → IsActive s
    → s.files.local_files ≡ f ∷ fs
    → fgd_id s ≢ cf_unicodetext
    → ((cliprdr_announce_files e s).sent
        ≡ client_format_list e.after (fgd_id s) (some file_group_descriptor) ∷ s.sent)
      × (fgd_id s ≢ 0)
      × ((cb_server_format_data_request lib e'
            (fgd_id s)
            (cliprdr_announce_files e s)).0.files.effects
          ≡ format_data_response (lib.serialize_file_list s.files.local_descriptors)
            ∷ s.files.effects)
      × ((cb_server_format_data_request lib e' cf_unicodetext (cliprdr_announce_files e s)).0.sent
          ≡ client_format_data_response none ∷ (cliprdr_announce_files e s).sent)
announce_files-request lib e e' f fs s active staged other =
    rw (cliprdr_announce_files_lem e f fs s active staged)
      (refl, fgd_id_some s, request-announced lib e e' f fs s staged, request-text lib e e' s other)

-- The text is stored, there are no files, and nothing more was sent.
abbrev pub IsQuiet : Bytes → Clipboard → Clipboard → Type 0
IsQuiet t s s' = (is_stored t s' ≡ true) × (s'.files.local_files ≡ []) × (s'.sent ≡ s.sent)

abbrev IsQuietAfter : Bytes → Clipboard → Clipboard × ℕ → Type 0
IsQuietAfter t s r = IsQuiet t s r.0

stored_again : (t : Bytes) → same_stored t (length t) (some t) ≡ true
stored_again t =
    let same_length : (length t == length t) ≡ true = ground arith in
    rw (same_length, take_whole t) (same_text_refl t)

held_back-IsQuiet :
    (e : Env) (t : Bytes) (s : Clipboard)
    → e.allocates ≡ true
    → s.files.local_files ≡ []
    → held_back e s ≡ true
    → IsQuiet t s (store_and_announce false e t s)
unfolding store_and_announce send_format_list_locked
held_back-IsQuiet e t s alloc no_files held =
    let stored = record s { client_text = some t; client_text_len = length t } in
    rw (alloc) (
      if_intro (IsQuiet t s) (has_channel stored && stored.ready && ltb 0 stored.client_text_len)
        (elim (Option-cases s.cliprdr) [
          | inl n ↦ rw (n) (stored_again t, no_files, refl)
          | inr (c, k) ↦ rw (k, held) (stored_again t, no_files, refl)
        ])
        (stored_again t, no_files, refl))

pub replace_content-IsQuiet :
    (e : Env) (t : Bytes) (s : Clipboard)
    → s.files.local_files ≡ []
    → is_stored t s ≡ true ⊎ ((e.allocates ≡ true) × (held_back e s ≡ true))
    → IsQuiet t s (replace_content e t s)
unfolding replace_content cliprdr_file_clear_local_files cliprdr_file_has_local_files
replace_content-IsQuiet e t s no_files h =
    let cleared = record s { files = cliprdr_file_clear_local_files s.files } in
    rw (no_files) (
      if_cases (IsQuiet t s) (is_stored t cleared) (λ k. (k, refl, refl))
        (λ k. elim h [
          | inl same ↦ absurd (ground (arith, same, k))
          | inr (alloc, held) ↦ held_back-IsQuiet e t cleared alloc refl held
        ]))

-- The same text set again and again.
abbrev pub repeats : Bytes → List Env → List Event
repeats t [] = []
repeats t (e ∷ es) = set_text e (some t) (pos (length t)) ∷ repeats t es

abbrev pub Unannounced : Bytes → Clipboard → Option Clipboard → Type 0
Unannounced t s r = (s' : Clipboard) × (r ≡ some s') × (is_stored t s' ≡ true) × (s'.sent ≡ s.sent)

repeats-Unannounced :
    (lib : Library) (t : Bytes) (es : List Env) (s : Clipboard)
    → 0 < length t
    → s.files.local_files ≡ []
    → is_stored t s ≡ true
    → Unannounced t s (run lib (repeats t es) s)
unfolding run step
repeats-Unannounced lib t [] s some_text no_files stored = (s, refl, stored, refl)
repeats-Unannounced lib t (e ∷ es) s some_text no_files stored =
    let (stored', no_files', quiet) = replace_content-IsQuiet e t s no_files (inl stored) in
    let (s', later, kept, same) =
      repeats-Unannounced lib t es (replace_content e t s) some_text no_files' stored' in
    (s', rw (set_text-whole e t s some_text) later, kept, same ∙ quiet)

-- A text that is set while the rate limit or the backoff holds format lists back is stored but not
-- announced, and is not announced later either, however often and whenever the same text is set again;
-- no files are staged, and there is memory for the text.
pub set_text-Unannounced :
    (lib : Library) (e : Env) (es : List Env) (t : Bytes) (s : Clipboard)
    → 0 < length t
    → e.allocates ≡ true
    → s.files.local_files ≡ []
    → held_back e s ≡ true
    → Unannounced t s (run lib (repeats t (e ∷ es)) s)
unfolding run step
set_text-Unannounced lib e es t s some_text alloc no_files held =
    let (stored, no_files', quiet) = replace_content-IsQuiet e t s no_files (inr (alloc, held)) in
    let (s', later, kept, same) =
      repeats-Unannounced lib t es (replace_content e t s) some_text no_files' stored in
    (s', rw (set_text-whole e t s some_text) later, kept, same ∙ quiet)
