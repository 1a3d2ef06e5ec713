-- ===== src/Pointer/Runs.antt =====
-- A cursor of one pixel, shown before and after it is loaded.
use rdp_mcp.Prelude.{◌≡◌, refl, true, some, List, [], ◌∷◌, All, Bytes}
use rdp_mcp.Output.Frame.{read_messages}
use rdp_mcp.Output.Request.{all_messages}
use rdp_mcp.Pointer.{Pointers, Env, Event, make, new, show, free, show_null, run}
use rdp_mcp.Pointer.Messages.{on, no_pointers, all_told, IsCursor, run-read_messages}

-- The conversion leaves the zeros.
abbrev loads : Env
loads = record { gdi = true; allocates = true; copy_from_pointer_data = λ b. some b }

abbrev one_pixel : List Event
one_pixel = make 1 1 70000 0 ∷ show 0 ∷ new loads 0 ∷ show 0 ∷ show_null ∷ free 0 ∷ show 0 ∷ []

run-read_messages_example :
    (t : Pointers) × (stream : Bytes) × (run one_pixel no_pointers ≡ some (on stream t))
    × (read_messages stream ≡ some (all_messages (all_told one_pixel no_pointers)))
    × All IsCursor (all_told one_pixel no_pointers)
run-read_messages_example =
    run-read_messages one_pixel (tt, (tt, (λ b. refl, (tt, (tt, (tt, (tt, tt)))))))
