-- ===== src/Clipboard/Runs.antt =====
-- Runs of cliprdr.c, and the theorems about it at these runs.
use rdp_mcp.Prelude.{
  ℕ, ◌≡◌, ◌≢◌, refl, true, false, none, some, List, [], ◌∷◌, Bytes, codes, length, pos, arith,
}
use rdp_mcp.Samples.{connected_files, active_clipboard}
use rdp_mcp.Files.{LocalFileEntry, format_data_response}
use rdp_mcp.Files.Channel.{cliprdr_file_handle_fgd_response, cliprdr_file_get_fgd_format_id}
use rdp_mcp.Output.{Output, output_send_clipboard_text}
use rdp_mcp.Output.Request.{on_callback}
use rdp_mcp.Clipboard.{
  Clipboard, Env, Library, Format, cf_unicodetext, client_format_list, client_format_data_response,
  file_group_descriptor, fgd_id, scan_formats,
}
use rdp_mcp.Clipboard.Data.{cb_server_format_data_request, cb_server_format_data_response}
use rdp_mcp.Clipboard.Steps.{
  Event, format_list, server_data_request, server_data_response, set_text, run, cliprdr_set_text,
  cliprdr_announce_files,
}
use rdp_mcp.Clipboard.Answers.{Outcome}
use rdp_mcp.Clipboard.Responses.{requests, lists, run-Outcome}
use rdp_mcp.Clipboard.Exchange.{set_text-response}
use rdp_mcp.Clipboard.Announce.{Unannounced, repeats, set_text-Unannounced, announce_files-request}
use rdp_mcp.Clipboard.Pending.{run-fgd_response}

-- ASCII is its own wide text.
abbrev ascii : Library
ascii = record {
  utf8_to_wide = λ t. some t;
  wide_to_utf8 = λ w. some w;
  parse_file_list = λ bytes. [];
  serialize_file_list = λ ds. some (codes "FGD");
}

abbrev at : ℕ → Env
at t = record { now = t; after = t; allocates = true; returns = λ p. 0 }

abbrev text : Bytes
text = codes "text"

-- The server offers text, the text of the helper is set, and the server asks for it.
abbrev both_ways : List Event
both_ways =
    format_list (at 5100) ((13, none) ∷ [])
    ∷ server_data_response true text
    ∷ set_text (at 6200) (some text) (pos 4)
    ∷ server_data_request (at 6300) 13
    ∷ []

run-Outcome_example :
    Outcome
      (requests both_ways)
      (lists both_ways)
      active_clipboard
      (run ascii both_ways active_clipboard)
run-Outcome_example =
    run-Outcome ascii both_ways active_clipboard (tt, (tt, (omega arith, (tt, tt))))

set_text-response_example :
    (from' : Clipboard) × (bytes : Bytes) × (o : Output) × (cliprdr_set_text
        (at 6200)
        (some text)
        (pos (length text))
        active_clipboard
      ≡ some from')
    × ((cb_server_format_data_request ascii (at 6300) cf_unicodetext from').0.sent
        ≡ client_format_data_response (some bytes) ∷ from'.sent)
    × (output_send_clipboard_text (some text) (pos (length text)) active_clipboard.output ≡ some o)
    × (cb_server_format_data_response ascii true bytes active_clipboard
        ≡ some (record active_clipboard { output = o }))
set_text-response_example =
    set_text-response ascii (at 6200) (at 6300) b't' b't' (codes "ext") (codes "ext")
      active_clipboard active_clipboard refl refl
      (omega arith, (omega arith, (omega arith, (omega arith, tt)))) (omega arith) (omega arith)
      refl (λ h. omega (arith, h)) refl

set_text-Unannounced_example :
    Unannounced text active_clipboard
      (run ascii (repeats text (at 5500 ∷ at 9000 ∷ [])) active_clipboard)
set_text-Unannounced_example =
    set_text-Unannounced ascii (at 5500) (at 9000 ∷ []) text active_clipboard (omega arith) refl
      refl refl

abbrev one_file : LocalFileEntry
one_file = record {
  path = codes "/a";
  name = codes "a";
  size = 3;
  is_directory = false;
  bytes_served = 0;
}

abbrev staged : Clipboard
staged = record active_clipboard {
  client_text = some text;
  client_text_len = 4;
  files = record connected_files { local_allocated = true; local_files = one_file ∷ [] };
}

announce_files-request_example :
    ((cliprdr_announce_files (at 5100) staged).sent
      ≡ client_format_list 5100 (fgd_id staged) (some file_group_descriptor) ∷ [])
    × (fgd_id staged ≢ 0)
    × ((cb_server_format_data_request ascii
          (at 5200)
          (fgd_id staged)
          (cliprdr_announce_files (at 5100) staged)).0.files.effects
        ≡ format_data_response (some (codes "FGD")) ∷ [])
    × ((cb_server_format_data_request ascii
          (at 5200)
          cf_unicodetext
          (cliprdr_announce_files (at 5100) staged)).0.sent
        ≡ client_format_data_response none ∷ (cliprdr_announce_files (at 5100) staged).sent)
unfolding cliprdr_file_get_fgd_format_id
announce_files-request_example =
    announce_files-request ascii (at 5100) (at 5200) one_file [] staged (1, refl, refl) refl
      (λ h. omega (arith, h))

-- A file list is awaited.
abbrev waiting : Clipboard
waiting = record active_clipboard { pending_fgd = true }

abbrev offers_text : List Format
offers_text = (13, none) ∷ []

run-fgd_response_example :
    (s' : Clipboard) × (run ascii
        (server_data_response true []
          ∷ format_list (at 5100) offers_text
          ∷ server_data_response true text
          ∷ [])
        waiting
      ≡ some s')
    × (s'.files ≡ cliprdr_file_handle_fgd_response [] connected_files)
    × (s'.output ≡ on_callback 0 [])
unfolding scan_formats
run-fgd_response_example =
    run-fgd_response ascii (at 5100) offers_text b't' (codes "ext") waiting refl refl
