-- ===== src/Files/Download/Runs.antt =====
-- Runs of whole downloads of cliprdr_file.c, and the theorem about them at one of them.
use rdp_mcp.Prelude.{
  not, Bool, ℕ, ◌≡◌, refl, true, false, some, [], ◌∷◌, Bytes, codes, arith, ◌==◌, if◌then◌else◌,
}
use rdp_mcp.Files.{Files, Descriptor}
use rdp_mcp.Files.Download.{
  cliprdr_file_request_download, start_next_download, download_loop, download_round, size_round,
  range_round, finish_downloads, new_entries,
}
use rdp_mcp.Files.Responses.{
  entry_response, size_response, range_response, range_data, find_stream,
  cb_server_file_contents_response,
}
use rdp_mcp.Files.{send_file_contents_request}
use rdp_mcp.Files.Download.Exchange.{all_accepted, serve, all_reports, reports}
use rdp_mcp.Files.Download.Whole.{Reports, download-Reports}
use rdp_mcp.Samples.{connected_files}

abbrev described : Bytes → Descriptor
described name = record { name = some name; is_directory = false; size_high = 0; size_low = 0 }

-- A directory with a file in it that is refused, a file of five bytes, and an empty file.
abbrev offered : Files
offered = record connected_files {
  server_descriptors =
      record (described (codes "docs")) { is_directory = true }
      ∷ described (codes "docs\\secret")
      ∷ described (codes "a")
      ∷ described (codes "b")
      ∷ [];
}

abbrev five_bytes : ℕ → Bytes
five_bytes i = if i == 2 then codes "hello" else []

abbrev offers : ℕ → Bool
offers i = not (i == 1)

abbrev begun : Files
begun = cliprdr_file_request_download all_accepted (some (codes "t")) offered

-- Four answers are enough: a refusal, two sizes, and the five bytes.
run-over : (serve 4 offers five_bytes begun).downloading ≡ false
unfolding cliprdr_file_request_download start_next_download download_loop download_round size_round
    range_round entry_response size_response range_response range_data find_stream finish_downloads
    cb_server_file_contents_response new_entries serve send_file_contents_request
    rdp_mcp.Files.Download.directory_round rdp_mcp.Files.Responses.refused
run-over = refl

download-Reports_example :
    Reports
      (all_reports offers five_bytes
        (codes "t")
        0
        offered.server_descriptors
        (reports offered.effects))
      (serve 20 offers five_bytes begun)
download-Reports_example =
    download-Reports offers five_bytes (codes "t") 1 20 offered refl refl
      (
        (λ e o. (omega arith, λ h. refl)),
        (
          (λ e o. (omega arith, λ h. refl)),
          (
            (λ e o. (omega arith, λ h. absurd (omega (arith, h)))),
            ((λ e o. (omega arith, λ h. refl)), tt),
          ),
        ),
      )
      (omega arith) (omega arith) (omega arith)
