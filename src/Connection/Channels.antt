-- ===== src/Connection/Channels.antt =====
-- The channel events of connection.c, and the contexts that disp.c, cliprdr.c and cliprdr_file.c keep.
use rdp_mcp.Prelude.{
  ℕ, ◌≡◌, ◌≢◌, refl, ◌∙◌, sym, Bool, true, false, Option, none, some, List, [], ◌∷◌, Bytes,
  same_text, same_text→eq, if◌then◌else◌, Bool-cases, inl, inr, ◌⊎◌, if_intro,
}
use rdp_mcp.Disp.{disp_channel_connected, disp_channel_disconnected}
use rdp_mcp.Files.Channel.{cliprdr_file_channel_connected, cliprdr_file_channel_disconnected}
use rdp_mcp.Clipboard.Steps.{cliprdr_channel_connected, cliprdr_channel_disconnected}
use rdp_mcp.Connection.{Constants, Connection, cb_channel_connected, cb_channel_disconnected}

pub data Event : Type 0 where
  connected disconnected : Bytes → ℕ → Event

unfoldable pub step : Constants → Event → Connection → Connection
step k (connected name c) s = cb_channel_connected k name c s
step k (disconnected name c) s = cb_channel_disconnected k name c s

unfoldable pub run : Constants → List Event → Connection → Connection
run k [] s = s
run k (e ∷ es) s = run k es (step k e s)

-- The context of a channel after an event, and after all of them: that of the last connection under its
-- name, if no disconnection came behind it.
abbrev pub context_then : Bytes → Event → Option ℕ → Option ℕ
context_then channel (connected name c) o = if same_text name channel then some c else o
context_then channel (disconnected name c) o = if same_text name channel then none else o

abbrev pub context_after : Bytes → List Event → Option ℕ → Option ℕ
context_after channel [] o = o
context_after channel (e ∷ es) o = context_after channel es (context_then channel e o)

-- The three contexts of the program.
abbrev pub Contexts : Option ℕ → Option ℕ → Connection → Type 0
Contexts d c s = (s.disp.disp ≡ d) × (s.clipboard.cliprdr ≡ c) × (s.clipboard.files.cliprdr ≡ c)

another_name : (name a b : Bytes) → a ≢ b → same_text name a ≡ true → same_text name b ≡ false
another_name name a b apart h = elim (Bool-cases (same_text name b)) [
  | inl same ↦ absurd (apart (sym (same_text→eq name a h) ∙ same_text→eq name b same))
  | inr other ↦ other
]

-- The names of the channels are three.
abbrev pub AreApart : Constants → Type 0
AreApart k =
    (k.rdpgfx_channel ≢ k.disp_channel)
    × (k.rdpgfx_channel ≢ k.cliprdr_channel)
    × (k.disp_channel ≢ k.cliprdr_channel)

-- Which of the three tests a name meets.
abbrev Tests : Constants → Bytes → Bool → Bool → Bool → Type 0
Tests k name gfx disp clip =
    (same_text name k.rdpgfx_channel ≡ gfx)
    × (same_text name k.disp_channel ≡ disp)
    × (same_text name k.cliprdr_channel ≡ clip)

name_cases :
    (k : Constants) (name : Bytes)
    → AreApart k
    → (Tests k name true false false ⊎ Tests k name false true false)
      ⊎ (Tests k name false false true ⊎ Tests k name false false false)
name_cases k name (gd, gc, dc) = elim (Bool-cases (same_text name k.rdpgfx_channel)) [
  | inl gfx ↦ inl (
      inl (
        gfx,
        another_name name k.rdpgfx_channel k.disp_channel gd gfx,
        another_name name k.rdpgfx_channel k.cliprdr_channel gc gfx,
      ))
  | inr beside ↦ elim (Bool-cases (same_text name k.disp_channel)) [
    | inl disp ↦
        inl (inr (beside, disp, another_name name k.disp_channel k.cliprdr_channel dc disp))
    | inr other ↦ elim (Bool-cases (same_text name k.cliprdr_channel)) [
      | inl clip ↦ inr (inl (beside, other, clip))
      | inr no_channel ↦ inr (inr (beside, other, no_channel))
    ]
  ]
]

step-Contexts :
    (k : Constants) (e : Event) (d c : Option ℕ) (s : Connection)
    → AreApart k
    → Contexts d c s
    → Contexts (context_then k.disp_channel e d) (context_then k.cliprdr_channel e c) (step k e s)
unfolding step cb_channel_connected cb_channel_disconnected disp_channel_connected
    disp_channel_disconnected cliprdr_channel_connected cliprdr_channel_disconnected
    cliprdr_file_channel_connected cliprdr_file_channel_disconnected
step-Contexts k (connected name n) d c s apart h = elim (name_cases k name apart) [
  | inl (inl (gfx, disp, clip)) ↦ rw (gfx, disp, clip) (if_intro (Contexts d c) s.gdi h h)
  | inl (inr (gfx, disp, clip)) ↦ rw (gfx, disp, clip) (refl, h.1, h.2)
  | inr (inl (gfx, disp, clip)) ↦ rw (gfx, disp, clip) (h.0, refl, refl)
  | inr (inr (gfx, disp, clip)) ↦ rw (gfx, disp, clip) h
]
step-Contexts k (disconnected name n) d c s apart h = elim (name_cases k name apart) [
  | inl (inl (gfx, disp, clip)) ↦ rw (gfx, disp, clip) (if_intro (Contexts d c) s.gdi h h)
  | inl (inr (gfx, disp, clip)) ↦ rw (gfx, disp, clip) (refl, h.1, h.2)
  | inr (inl (gfx, disp, clip)) ↦ rw (gfx, disp, clip) (h.0, refl, refl)
  | inr (inr (gfx, disp, clip)) ↦ rw (gfx, disp, clip) h
]

-- After any channel events disp.c, cliprdr.c and cliprdr_file.c hold the context of the last connection
-- under the name of their channel, or none if it was disconnected after that; events of other channels
-- change none of them. The three names are different.
pub run-Contexts :
    (k : Constants) (es : List Event) (d c : Option ℕ) (s : Connection)
    → AreApart k
    → Contexts d c s
    → Contexts
        (context_after k.disp_channel es d)
        (context_after k.cliprdr_channel es c)
        (run k es s)
unfolding run
run-Contexts k [] d c s apart h = h
run-Contexts k (e ∷ es) d c s apart h =
    run-Contexts k es (context_then k.disp_channel e d) (context_then k.cliprdr_channel e c)
      (step k e s) apart (step-Contexts k e d c s apart h)
