-- ===== src/Clipboard/Pending.antt =====
-- The flag of cliprdr.c that sends a data response to cliprdr_file.c.
use rdp_mcp.Prelude.{
  ℕ, ◌≡◌, refl, ◌∙◌, ap, true, not, ◌||◌, some, List, [], ◌∷◌, Bytes, ◌==◌, if_intro,
}
use rdp_mcp.Files.Channel.{cliprdr_file_handle_fgd_response}
use rdp_mcp.Clipboard.{
  Clipboard, Env, Library, Format, no_offer, scan_formats, request_offer, cb_server_format_list,
  client_format_list_response,
}
use rdp_mcp.Clipboard.Data.{cb_server_format_data_response}
use rdp_mcp.Clipboard.Steps.{format_list, server_data_response, step, run}

-- What a list without files leaves alone.
abbrev Leaves : Clipboard → Clipboard → Type 0
Leaves s s' = (s'.pending_fgd ≡ s.pending_fgd) × (s'.files ≡ s.files) × (s'.output ≡ s.output)

abbrev LeavesAfter : Clipboard → Clipboard × ℕ → Type 0
LeavesAfter s r = Leaves s r.0

list-Leaves :
    (e : Env) (fs : List Format) (s : Clipboard)
    → (scan_formats fs no_offer).fgd_format_id ≡ 0
    → Leaves s (cb_server_format_list e fs s).0
unfolding cb_server_format_list request_offer
list-Leaves e fs s h =
    let o = scan_formats fs no_offer in
    rw (h) (
      if_intro (LeavesAfter s) (not (e.returns client_format_list_response == 0)) (refl, refl, refl)
        (if_intro (Leaves s) (o.has_unicode || o.has_text) (refl, refl, refl) (refl, refl, refl)))

-- While a file list is awaited, an accepted data response that is empty and a new format list without
-- files, whatever text it offers, do not end the wait: the data response that follows, to the request
-- for that text, goes to the file list parser and not to the embedding program.
pub run-fgd_response :
    (lib : Library) (e : Env) (fs : List Format) (b : ℕ) (text : Bytes) (s : Clipboard)
    → s.pending_fgd ≡ true
    → (scan_formats fs no_offer).fgd_format_id ≡ 0
    → (s' : Clipboard) × (run lib
          (server_data_response true []
            ∷ format_list e fs
            ∷ server_data_response true (b ∷ text)
            ∷ [])
          s
        ≡ some s')
      × (s'.files ≡ cliprdr_file_handle_fgd_response (lib.parse_file_list (b ∷ text)) s.files)
      × (s'.output ≡ s.output)
unfolding run step cb_server_format_data_response
run-fgd_response lib e fs b text s waiting no_files =
    let (still, files, output) = list-Leaves e fs s no_files in
    rw (still ∙ waiting) (
      _,
      refl,
      ap (cliprdr_file_handle_fgd_response (lib.parse_file_list (b ∷ text))) files,
      output,
    )
