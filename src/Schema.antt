-- ===== src/Schema.antt =====
-- Decoded JSON documents (`map[string]any`) and `schemasMatch` of
-- server/internal/topic/topic_manager.go. A document is what encoding/json makes of the bytes: a
-- number is an integer here, and the bytes themselves are not modelled.
pub mod Keys
pub mod Paths
use data_loom.Common.{
  ℕ, suc, String, Bool, true, false, ◌&&◌, Option, none, some, ◌==◌, if◌then◌else◌, nat_eq,
  string_eq,
}

-- The dynamic types that a value of type `any` holds after decoding.
mutual
  pub data Fields : Type 0 where
    end : Fields
    field : String → Value → Fields → Fields

  pub data Value : Type 0 where
    null : Value
    bool : Bool → Value
    num : ℕ → Value
    str : String → Value
    obj : Fields → Value
    arr : Items → Value

  pub data Items : Type 0 where
    nil : Items
    cons : Value → Items → Items

-- len(m)
unfoldable pub size : Fields → ℕ
size end = 0
size (field k v fs) = suc (size fs)

-- m[key], with its `ok`
unfoldable pub lookup : String → Fields → Option Value
lookup k end = none
lookup k (field j v fs) = if j == k then some v else lookup k fs

-- `val.(map[string]any)`, with its `ok`
abbrev pub as_map : Value → Option Fields
as_map (obj fs) = some fs
as_map _ = none

abbrev pub same_size : Fields → Fields → Bool
same_size a b = size a == size b

-- The loop over the fields of the first map, and the test of one field: the key is there, and a
-- nested map has a nested map with its guard on the lengths and its loop.
unfoldable mutual
  pub match_fields : Fields → Fields → Bool
  match_fields end m = true
  match_fields (field k v s) m = match_value v (lookup k m) && match_fields s m

  pub match_value : Value → Option Value → Bool
  match_value v none = false
  match_value (obj s) (some (obj m)) = same_size s m && match_fields s m
  match_value (obj s) (some w) = false
  match_value _ (some w) = true

unfoldable pub schemas_match : Fields → Fields → Bool
unfolding match_fields size lookup
schemas_match s m = same_size s m && match_fields s m
