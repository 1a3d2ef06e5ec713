-- ===== src/Files/Channel/Locks.antt =====
-- The locks on the server's clipboard data of cliprdr_file.c.
use rdp_mcp.Prelude.{ℕ, ◌≡◌, List, [], ◌∷◌, ◌==◌, if◌then◌else◌}
use rdp_mcp.Files.{Files, Effect, lock_clip_data, unlock_clip_data}

-- The list without the first occurrence of a number.
abbrev pub erase : ℕ → List ℕ → List ℕ
erase i [] = []
erase i (j ∷ js) = let rest = erase i js in if j == i then js else j ∷ rest

-- The locks that a log, newest first, has taken and not given back.
abbrev pub held : List Effect → List ℕ
held [] = []
held (lock_clip_data i ∷ es) = i ∷ held es
held (unlock_clip_data i ∷ es) = erase i (held es)
held (e ∷ es) = held es

-- The lock that the state speaks of.
abbrev pub own_lock : Files → List ℕ
own_lock s = if s.our_lock_active then s.our_lock_id ∷ [] else []

abbrev pub Locked : Files → Type 0
Locked s = held s.effects ≡ own_lock s
