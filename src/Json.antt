-- ===== src/Json.antt =====
-- What the program uses of cJSON and of malloc, as a parameter. cJSON is another project's library:
-- its items are an abstract type, and each field is a call of it with the test that the program
-- makes on the result.
use rdp_mcp.Prelude.{
  ℕ, suc, Bool, Option, none, some, List, [], ◌∷◌, ℤ, String, Bytes, if◌then◌else◌,
}

pub record CJson (Item : Type 0) : Type 0 where
  -- cJSON_Parse
  pub parse : Bytes → Option Item
  -- cJSON_GetObjectItemCaseSensitive of an item that is not NULL
  pub get_object_item : Item → String → Option Item
  -- `valuestring`, if cJSON_IsString
  pub string_value : Item → Option Bytes
  -- `valueint`, if cJSON_IsNumber
  pub int_value : Item → Option ℤ
  -- `(UINT64)valuedouble`, if cJSON_IsNumber
  pub uint64_value : Item → Option ℕ
  -- cJSON_IsTrue, if cJSON_IsBool
  pub bool_value : Item → Option Bool
  -- the items by cJSON_GetArrayItem, if cJSON_IsArray
  pub array_items : Item → Option (List Item)
  -- cJSON_PrintUnformatted, `none` for NULL
  pub print_unformatted : Item → Option Bytes

-- The heap as the program sees it: how many allocations were asked for, and the blocks that it got,
-- newest first. `grants k` says that the allocation with number `k` succeeds.
pub record Heap : Type 0 where
  pub next : ℕ
  pub blocks : List ℕ

-- A heap string: its block and its bytes.
pub record Ptr : Type 0 where
  pub block : ℕ
  pub text : Bytes

abbrev pub empty_heap : Heap
empty_heap = record { next = 0; blocks = [] }

-- `malloc`, `calloc`, or a library call that allocates its result.
abbrev pub allocate : (ℕ → Bool) → Heap → Option ℕ × Heap
allocate grants h =
    if grants h.next
    then (some h.next, record { next = suc h.next; blocks = h.next ∷ h.blocks })
    else (none, record { next = suc h.next; blocks = h.blocks })

abbrev pub with_text : Bytes → Option ℕ × Heap → Option Ptr × Heap
with_text t (none, h) = (none, h)
with_text t (some b, h) = (some (record { block = b; text = t }), h)
