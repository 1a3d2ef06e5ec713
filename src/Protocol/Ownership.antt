-- ===== src/Protocol/Ownership.antt =====
-- The heap blocks of a parsed command of protocol.c.
use rdp_mcp.Prelude.{
  ℕ, ◌+◌, ◌≤◌, ◌≡◌, Bool, String, Option, none, some, List, [], ◌∷◌, ◌++◌, Bytes, arith, ◌==◌,
  if◌then◌else◌, subst, append_assoc,
}
use rdp_mcp.Json.{CJson, Heap, allocate}
use rdp_mcp.Protocol.{
  safe_strdup, cjson_get_string, get_item, parse_drive, parse_drive_list, parse_drives,
  parse_config, fill_command, fill_drives, drive_items, parse_connect, parse_clipboard, parse_files,
  typed_command, parsed_command, protocol_parse_command, free, free_drive_list, free_drives,
  protocol_free_command,
}
use rdp_mcp.Command.{CommandType, Command, command_type}

-- How often a block stands in a list.
abbrev pub count : ℕ → List ℕ → ℕ
count b [] = 0
count b (x ∷ xs) = (if x == b then 1 else 0) + count b xs

pub count-append : (b : ℕ) (xs ys : List ℕ) → count b (xs ++ ys) ≡ count b xs + count b ys
count-append b [] ys = omega arith
count-append b (x ∷ xs) ys = omega (arith, count-append b xs ys)

-- Blocks come with rising numbers, each once.
abbrev pub Fresh : Heap → Type 0
Fresh h = (b : ℕ) → (count b h.blocks ≤ 1) × (h.next ≤ b → count b h.blocks ≡ 0)

-- From `h` to `h'` exactly the blocks of `owned` were allocated, and the heap stays fresh.
abbrev pub Grows : Heap → Heap → List ℕ → Type 0
Grows h h' owned = ((b : ℕ) → count b h'.blocks ≡ count b owned + count b h.blocks) × Fresh h'

abbrev CommandGrows : Heap → Command × Heap → Type 0
CommandGrows h r = Grows h r.1 (protocol_free_command r.0)

abbrev block_list : Option ℕ → List ℕ
block_list none = []
block_list (some b) = b ∷ []

-- What is freed for the result of the parser; nothing if it is `false`.
abbrev pub freed_blocks : Option Command → List ℕ
freed_blocks none = []
freed_blocks (some c) = protocol_free_command c

module _ {Item : Type 0} (json : CJson Item) (grants : ℕ → Bool) where
  strdup-Grows :
      (t : Option Bytes) (h : Heap)
      → Fresh h
      → let (p, h') = safe_strdup json grants t h in Grows h h' (free p)
  strdup-Grows none h f = (λ b. omega arith, f)
  strdup-Grows (some t) h f = (λ b. ground arith, λ b. ground (arith, f b))

  Grows-trans :
      (h₀ h₁ h₂ : Heap) (xs ys : List ℕ) → Grows h₀ h₁ xs → Grows h₁ h₂ ys → Grows h₀ h₂ (xs ++ ys)
  Grows-trans h₀ h₁ h₂ xs ys g k = (λ b. omega (arith, g.0 b, k.0 b, count-append b xs ys), k.1)

  Grows-refl : (h : Heap) → Fresh h → Grows h h []
  Grows-refl h f = (λ b. omega arith, f)

  drive-Grows :
      (item : Option Item) (h : Heap)
      → Fresh h
      → let (d, h') = parse_drive json grants item h in Grows h h' (free d.name ++ free d.path)
  unfolding parse_drive
  drive-Grows item h f =
      let t = cjson_get_string json grants item "name" in
      let u = cjson_get_string json grants item "path" in
      let g = strdup-Grows t h f in
      let h₁ = (safe_strdup json grants t h).1 in
      Grows-trans h h₁ (safe_strdup json grants u h₁).1 (free (safe_strdup json grants t h).0)
        (free (safe_strdup json grants u h₁).0) g (strdup-Grows u h₁ g.1)

  drive_list-Grows :
      (items : List Item) (h : Heap)
      → Fresh h
      → let (ds, h') = parse_drive_list json grants items h in Grows h h' (free_drive_list ds)
  unfolding parse_drive_list
  drive_list-Grows [] h f = Grows-refl h f
  drive_list-Grows (item ∷ items) h f =
      let g = drive-Grows (some item) h f in
      let (d, h₁) = parse_drive json grants (some item) h in
      let (ds, h₂) = parse_drive_list json grants items h₁ in
      subst (λ xs. Grows h h₂ xs) (append_assoc (free d.name) (free d.path) (free_drive_list ds))
        (Grows-trans h h₁ h₂ (free d.name ++ free d.path) (free_drive_list ds) g
          (drive_list-Grows items h₁ g.1))

  allocate-Grows :
      (h : Heap) → Fresh h → let (r, h') = allocate grants h in Grows h h' (block_list r)
  allocate-Grows h f = (λ b. ground arith, λ b. ground (arith, f b))

  fill_drives-Grows :
      (items : List Item) (h : Heap) (r : Option ℕ × Heap)
      → Grows h r.1 (block_list r.0)
      → let (ds, h') = fill_drives json grants items r in Grows h h' (free_drives ds)
  fill_drives-Grows items h (none, h₁) g = g
  fill_drives-Grows items h (some block, h₁) g =
      let (ds, h₂) = parse_drive_list json grants items h₁ in
      let k = drive_list-Grows items h₁ g.1 in
      (λ b. omega (arith, g.0 b, k.0 b, count-append b (free_drive_list ds) (block ∷ [])), k.1)

  drive_items-Grows :
      (items : Option (List Item)) (h : Heap)
      → Fresh h
      → let (ds, h') = drive_items json grants items h in Grows h h' (free_drives ds)
  drive_items-Grows none h f = Grows-refl h f
  drive_items-Grows (some []) h f = Grows-refl h f
  drive_items-Grows (some (i ∷ is)) h f =
      fill_drives-Grows (i ∷ is) h (allocate grants h) (allocate-Grows h f)

  drives-Grows :
      (item : Option Item) (h : Heap)
      → Fresh h
      → let (ds, h') = parse_drives json grants item h in Grows h h' (free_drives ds)
  unfolding parse_drives
  drives-Grows none h f = Grows-refl h f
  drives-Grows (some item) h f = drive_items-Grows (json.array_items item) h f

  config-Grows :
      (item : Item) (h : Heap)
      → Fresh h
      → let (c, h') = parse_config json grants item h in
        Grows h h' (
          free c.host
          ++ (free c.username ++ (free c.password ++ (free c.domain ++ free_drives c.drives))))
  unfolding parse_config
  config-Grows item h₀ f =
      let key = λ (k : String). cjson_get_string json grants (some item) k in
      let (host, h₁) = safe_strdup json grants (key "host") h₀ in
      let (username, h₂) = safe_strdup json grants (key "username") h₁ in
      let (password, h₃) = safe_strdup json grants (key "password") h₂ in
      let (domain, h₄) = safe_strdup json grants (key "domain") h₃ in
      let (drives, h₅) = parse_drives json grants (get_item json grants (some item) "drives") h₄ in
      let g₁ = strdup-Grows (key "host") h₀ f in
      let g₂ = strdup-Grows (key "username") h₁ g₁.1 in
      let g₃ = strdup-Grows (key "password") h₂ g₂.1 in
      let g₄ = strdup-Grows (key "domain") h₃ g₃.1 in
      let g₅ = drives-Grows (get_item json grants (some item) "drives") h₄ g₄.1 in
      let k₄ = Grows-trans h₃ h₄ h₅ (free domain) (free_drives drives) g₄ g₅ in
      let k₃ = Grows-trans h₂ h₃ h₅ (free password) (free domain ++ free_drives drives) g₃ k₄ in
      let k₂ =
        Grows-trans h₁ h₂ h₅ (free username) (free password ++ (free domain ++ free_drives drives))
          g₂ k₃ in
      Grows-trans h₀ h₁ h₅ (free host)
        (free username ++ (free password ++ (free domain ++ free_drives drives))) g₁ k₂

  fill-Grows :
      (t : CommandType) (j : Option Item) (h : Heap)
      → Fresh h
      → CommandGrows h (fill_command json grants t j h)
  unfolding fill_command protocol_free_command
  fill-Grows CommandType.connect j h f = connect-Grows (get_item json grants j "config")
    where
      connect-Grows : (c : Option Item) → CommandGrows h (parse_connect json grants c h)
      connect-Grows none = Grows-refl h f
      connect-Grows (some c) = config-Grows c h f
  fill-Grows CommandType.clipboard_set j h f =
      clipboard-Grows (cjson_get_string json grants j "text")
    where
      clipboard-Grows : (t : Option Bytes) → CommandGrows h (parse_clipboard json grants t h)
      clipboard-Grows none = Grows-refl h f
      clipboard-Grows (some t) = strdup-Grows (some t) h f
  fill-Grows CommandType.clipboard_set_files j h f = files-Grows (get_item json grants j "files")
    where
      files-Grows : (i : Option Item) → CommandGrows h (parse_files json grants i h)
      files-Grows none = Grows-refl h f
      files-Grows (some i) = strdup-Grows (json.print_unformatted i) h f
  fill-Grows CommandType.clipboard_request_files j h f =
      strdup-Grows (cjson_get_string json grants j "tempDir") h f
  fill-Grows _ j h f = Grows-refl h f

  typed-Grows :
      (j : Item) (t : Option Bytes) (h : Heap)
      → Fresh h
      → CommandGrows h (typed_command json grants j t h)
  unfolding protocol_free_command
  typed-Grows j none h f = Grows-refl h f
  typed-Grows j (some t) h f = fill-Grows (command_type t) (some j) h f

  parsed-Grows :
      (j : Option Item) (h : Heap) → Fresh h → CommandGrows h (parsed_command json grants j h)
  unfolding protocol_free_command
  parsed-Grows none h f = Grows-refl h f
  parsed-Grows (some j) h f = typed-Grows j (cjson_get_string json grants (some j) "type") h f

  -- Whatever the text and whichever allocations fail, on a heap whose blocks are numbered in the order
  -- of their allocation: freeing the command that was parsed gives back every block that parsing it
  -- allocated, none twice, and no other block.
  pub parse-free :
      (text : Option Bytes) (h : Heap) (b : ℕ)
      → Fresh h
      → let (c, h') = protocol_parse_command json grants text h in
        (count b h'.blocks ≡ count b (freed_blocks c) + count b h.blocks) × (count b h'.blocks ≤ 1)
  unfolding protocol_parse_command
  parse-free none h b f = (omega arith, (f b).0)
  parse-free (some []) h b f = (omega arith, (f b).0)
  parse-free (some (c ∷ t)) h b f =
      let g = parsed-Grows (json.parse (c ∷ t)) h f in (g.0 b, (g.1 b).0)
