-- ===== src/Clipboard/Counts.antt =====
-- The responses of the callbacks of cliprdr.c, on the channel by itself and through cliprdr_file.c.
use rdp_mcp.Prelude.{
  is_nil, ℕ, suc, ◌+◌, ◌≡◌, refl, Bool, true, false, not, ◌&&◌, ◌||◌, Option, List, [], ◌∷◌, Bytes,
  ◌==◌, if_intro, arith, Option-cases, inl, inr,
}
use rdp_mcp.Files.{Files, Descriptor, LocalDescriptor, Effect, format_data_response}
use rdp_mcp.Files.Channel.{
  cliprdr_file_set_fgd_format_id, cliprdr_file_get_fgd_format_id, cliprdr_file_server_has_files,
  cliprdr_file_handle_fgd_response,
}
use rdp_mcp.Files.Local.{cliprdr_file_handle_fgd_request, cliprdr_file_has_local_files}
use rdp_mcp.Clipboard.{
  Clipboard, Pdu, Env, Library, Offer, client_capabilities, client_format_list,
  client_format_list_response, client_format_data_request, client_format_data_response, send,
  announce, general_flags, Format, handshake, scan_formats, no_offer, send_format_list_locked,
  complete_handshake, cb_monitor_ready, request_offer, cb_server_format_list, held_back,
}
use rdp_mcp.Clipboard.Data.{cb_server_format_data_request}

-- The data responses of a log.
abbrev pub data_responses : List Pdu → ℕ
data_responses [] = 0
data_responses (client_format_data_response d ∷ ps) = suc (data_responses ps)
data_responses (client_capabilities f ∷ ps) = data_responses ps
data_responses (client_format_list t id n ∷ ps) = data_responses ps
data_responses (client_format_list_response ∷ ps) = data_responses ps
data_responses (client_format_data_request id ∷ ps) = data_responses ps

abbrev pub list_responses : List Pdu → ℕ
list_responses [] = 0
list_responses (client_format_list_response ∷ ps) = suc (list_responses ps)
list_responses (client_format_data_response d ∷ ps) = list_responses ps
list_responses (client_capabilities f ∷ ps) = list_responses ps
list_responses (client_format_list t id n ∷ ps) = list_responses ps
list_responses (client_format_data_request id ∷ ps) = list_responses ps

abbrev is_data_response : Effect → ℕ
is_data_response (format_data_response d) = 1
is_data_response _ = 0

-- The data responses that cliprdr_file.c sends.
abbrev pub file_responses : List Effect → ℕ
file_responses [] = 0
file_responses (e ∷ es) = is_data_response e + file_responses es

abbrev pub answers : Clipboard → ℕ
answers s = data_responses s.sent + file_responses s.files.effects

-- What a call answers: data requests and format lists.
abbrev pub Answers : ℕ → ℕ → Clipboard → Clipboard → Type 0
Answers d l s s' =
    (answers s' ≡ d + answers s) × (list_responses s'.sent ≡ l + list_responses s.sent)

abbrev pub Replies : ℕ → ℕ → Clipboard → Clipboard × ℕ → Type 0
Replies d l s r = Answers d l s r.0

pub send_format_list_locked-Replies :
    (b : Bool) (e : Env) (s : Clipboard) → Replies 0 0 s (send_format_list_locked b e s)
unfolding send_format_list_locked announce cliprdr_file_set_fgd_format_id
send_format_list_locked-Replies b e s = elim (Option-cases s.cliprdr) [
  | inl n ↦ rw (n) (omega arith, omega arith)
  | inr (c, k) ↦ rw (k) (
      if_intro (Replies 0 0 s) (not b && held_back e s) (omega arith, omega arith)
        (if_intro (Replies 0 0 s) (cliprdr_file_has_local_files s.files) (omega arith, omega arith)
          (omega arith, omega arith)))
]

pub cb_monitor_ready-Replies : (e : Env) (s : Clipboard) → Replies 0 0 s (cb_monitor_ready e s)
unfolding cb_monitor_ready complete_handshake
cb_monitor_ready-Replies e s =
    if_intro (Replies 0 0 s) (not (e.returns (client_capabilities general_flags) == 0))
      (omega arith, omega arith)
      (send_format_list_locked-Replies true e
        (handshake (send e (client_capabilities general_flags) s).0))

server_has_files-effects :
    (ok : Bool) (id : ℕ) (f : Files)
    → file_responses (cliprdr_file_server_has_files ok id f).effects ≡ file_responses f.effects
unfolding cliprdr_file_server_has_files
server_has_files-effects ok id f =
    let Same : Files → Type 0 =
      λ r. 0 + (0 + file_responses r.effects) ≡ file_responses f.effects in
    if_intro (λ (r : Files). file_responses r.effects ≡ file_responses f.effects) ok
      (if_intro Same f.our_lock_active (omega arith) (omega arith))
      (if_intro Same f.our_lock_active (omega arith) (omega arith))

request_offer-Answers : (e : Env) (o : Offer) (s : Clipboard) → Answers 0 0 s (request_offer e o s)
unfolding request_offer
request_offer-Answers e o s =
    if_intro (Answers 0 0 s) (not (o.fgd_format_id == 0))
      (
        omega (
          arith,
          server_has_files-effects (e.returns (client_format_data_request o.fgd_format_id) == 0)
              o.fgd_format_id s.files,
        ),
        omega arith,
      )
      (if_intro (Answers 0 0 s) (o.has_unicode || o.has_text) (omega arith, omega arith)
        (omega arith, omega arith))

pub cb_server_format_list-Replies :
    (e : Env) (fs : List Format) (s : Clipboard) → Replies 0 1 s (cb_server_format_list e fs s)
unfolding cb_server_format_list
cb_server_format_list-Replies e fs s =
    if_intro (Replies 0 1 s) (not (e.returns client_format_list_response == 0))
      (omega arith, omega arith)
      (let told =
          (send e client_format_list_response (record s { format_list_rejected = false })).0 in
        let (answered, listed) = request_offer-Answers e (scan_formats fs no_offer) told in
        (omega (arith, answered), omega (arith, listed)))

handle_fgd_request-effects :
    (serialize : List LocalDescriptor → Option Bytes) (f : Files)
    → file_responses (cliprdr_file_handle_fgd_request serialize f).effects
      ≡ suc (file_responses f.effects)
unfolding cliprdr_file_handle_fgd_request
handle_fgd_request-effects serialize f =
    if_intro (λ (r : Files). file_responses r.effects ≡ suc (file_responses f.effects))
      (is_nil f.local_files) (omega arith) (omega arith)

pub cb_server_format_data_request-Replies :
    (lib : Library) (e : Env) (id : ℕ) (s : Clipboard)
    → Replies 1 0 s (cb_server_format_data_request lib e id s)
unfolding cb_server_format_data_request cliprdr_file_get_fgd_format_id
cb_server_format_data_request-Replies lib e id s =
    if_intro (Replies 1 0 s) (not (s.files.fgd_format_id == 0) && id == s.files.fgd_format_id)
      (omega (arith, handle_fgd_request-effects lib.serialize_file_list s.files), omega arith)
      (omega arith, omega arith)

pub handle_fgd_response-effects :
    (ds : List Descriptor) (f : Files)
    → file_responses (cliprdr_file_handle_fgd_response ds f).effects ≡ file_responses f.effects
unfolding cliprdr_file_handle_fgd_response
handle_fgd_response-effects [] f = refl
handle_fgd_response-effects (d ∷ ds) f = omega arith
