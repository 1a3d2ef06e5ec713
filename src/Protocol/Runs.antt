-- ===== src/Protocol/Runs.antt =====
-- Tests of protocol.c's parser and the runs that its theorems are applied to.
use rdp_mcp.Prelude.{
  ◌+◌, ◌≤◌, ◌≡◌, refl, ◌↔◌, some, [], ◌∷◌, ◌++◌, codes, if◌then◌else◌, ◌==◌, pos, arith,
}
use rdp_mcp.Json.{empty_heap}
use rdp_mcp.Samples.{echo_json, all_granted}
use rdp_mcp.Protocol.{fill_command, protocol_parse_command, strip_line}
use rdp_mcp.Command.{CommandType, clipboard_set, command_type}
use rdp_mcp.Protocol.Names.{command_type_iff, wire_name}
use rdp_mcp.Protocol.Ownership.{count, freed_blocks, parse-free}
use rdp_mcp.Protocol.Lines.{strip_line_lem}

strip_crlf : strip_line (codes "ab\r\n") ≡ codes "ab"
unfolding strip_line
strip_crlf = refl

strip_lf : strip_line (codes "ab\n") ≡ codes "ab"
unfolding strip_line
strip_lf = refl

parse_clipboard_set :
    protocol_parse_command echo_json all_granted (some (codes "clipboard_set")) empty_heap ≡ (
      some (clipboard_set (some (record { block = 0; text = codes "clipboard_set" })) (pos 13)),
      record { next = 1; blocks = 0 ∷ [] },
    )
unfolding protocol_parse_command command_type fill_command
parse_clipboard_set = refl

command_type_iff_example :
    (command_type (codes "resize") ≡ CommandType.resize)
    ↔ (codes "resize" ≡ wire_name CommandType.resize)
command_type_iff_example = command_type_iff CommandType.resize (codes "resize") (λ e. cc)

parse-free_example :
    let (c, h) =
      protocol_parse_command echo_json all_granted (some (codes "clipboard_set")) empty_heap in
    (count 0 h.blocks ≡ count 0 (freed_blocks c) + count 0 empty_heap.blocks)
    × (count 0 h.blocks ≤ 1)
parse-free_example =
    parse-free echo_json all_granted (some (codes "clipboard_set")) empty_heap 0
      (λ b. (omega arith, λ late. refl))

strip_line_lem_example :
    (strip_line (codes "ab" ++ (b'\r' ∷ b'\n' ∷ [])) ≡ (
      if b'\r' == b'\r'
      then codes "ab"
      else if b'\n' == b'\n'
      then codes "ab" ++ (b'\r' ∷ [])
      else codes "ab" ++ (b'\r' ∷ b'\n' ∷ [])))
    × (strip_line (b'\n' ∷ []) ≡ (if b'\n' == b'\n' then [] else b'\n' ∷ []))
    × (strip_line [] ≡ [])
strip_line_lem_example = strip_line_lem (codes "ab") b'\r' b'\n'
