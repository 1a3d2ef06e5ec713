-- ===== src/Connection/Life.antt =====
-- The life of an instance of FreeRDP in connection.c, read off the calls that the code makes.
use rdp_mcp.Prelude.{
  ℕ, ◌≡◌, refl, Bool, true, false, ◌&&◌, Option, none, some, List, [], ◌∷◌, if◌then◌else◌, ◌>>=◌,
}
use rdp_mcp.Command.{ConnectConfig, DriveConfig}
use rdp_mcp.Connection
use rdp_mcp.Connection.{
  Key, Value, device_redirection, flag, Constants, freerdp_new, freerdp_free, freerdp_context_free,
  freerdp_disconnect, freerdp_context_new, freerdp_connect, gdi_init, register_addin_provider,
  load_channels, gdi_free, register_pointer, set_setting, add_drive, pipeline_init, pipeline_uninit,
  settings, set_all, add_drives, redirect_drives, connection_init, connection_connect, Connection,
  Posted, Attempt, cb_pre_connect, cb_post_connect, connect_callbacks, connection_free,
}

-- No instance, one without a context, and one with it.
pub data Life : Type 0 where
  nothing bare whole : Life

abbrev with_context : Life → Option Life
with_context whole = some whole
with_context _ = none

-- What a call makes of it; `none` is a call on what is not there, or over what is there already.
abbrev pub advance : Connection.Call → Life → Option Life
advance freerdp_new nothing = some bare
advance freerdp_new _ = none
advance (freerdp_context_new ok) bare = some (if ok then whole else bare)
advance (freerdp_context_new ok) _ = none
advance freerdp_context_free whole = some bare
advance freerdp_context_free _ = none
advance freerdp_free bare = some nothing
advance freerdp_free _ = none
advance freerdp_disconnect l = with_context l
advance (freerdp_connect ok) l = with_context l
advance (gdi_init ok) l = with_context l
advance register_addin_provider l = with_context l
advance load_channels l = with_context l
advance gdi_free l = with_context l
advance register_pointer l = with_context l
advance (set_setting k v) l = with_context l
advance (add_drive n p) l = with_context l
advance (pipeline_init c) l = with_context l
advance (pipeline_uninit c) l = with_context l

-- The life after the calls of a log, newest first.
abbrev pub life : List Connection.Call → Option Life
life [] = some nothing
life (c ∷ cs) = life cs >>= advance c

set_all-life :
    (xs : List (Key × Value)) (calls : List Connection.Call)
    → life calls ≡ some whole
    → life (set_all xs calls) ≡ some whole
set_all-life [] calls h = h
set_all-life ((k, v) ∷ xs) calls h = set_all-life xs (set_setting k v ∷ calls) (rw (h) refl)

add_drives-life :
    (ds : List DriveConfig) (calls : List Connection.Call)
    → life calls ≡ some whole
    → life (add_drives ds calls) ≡ some whole
add_drives-life [] calls h = h
add_drives-life (d ∷ ds) calls h = add_drives-life ds _ (rw (h) refl)

drives-life :
    (c : ConnectConfig) (calls : List Connection.Call)
    → life calls ≡ some whole
    → life (redirect_drives c calls) ≡ some whole
unfolding redirect_drives
drives-life c calls h = by_drives c.drives
  where
    by_drives :
        (o : Option (ℕ × List DriveConfig))
        → life (elim o [
          | none ↦ calls
          | some (block, []) ↦ calls
          | some (block, d ∷ ds) ↦
              add_drives (d ∷ ds) (set_setting device_redirection (flag true) ∷ calls)
        ])
          ≡ some whole
    by_drives none = h
    by_drives (some (block, [])) = h
    by_drives (some (block, d ∷ ds)) = add_drives-life (d ∷ ds) _ (rw (h) refl)

pub init-life :
    (k : Constants) (a b : Bool) (c : ConnectConfig) (calls : List Connection.Call)
    → life calls ≡ some nothing
    → life (connection_init k a b c calls).0 ≡ some (if a && b then whole else nothing)
unfolding connection_init
init-life k false b c calls h = h
init-life k true false c calls h = rw (h) refl
init-life k true true c calls h = drives-life c _ (set_all-life (settings k c) _ (rw (h) refl))

pub init-given :
    (k : Constants) (a b : Bool) (c : ConnectConfig) (calls : List Connection.Call)
    → (connection_init k a b c calls).1 ≡ (a && b)
unfolding connection_init
init-given k false b c calls = refl
init-given k true false c calls = refl
init-given k true true c calls = refl
