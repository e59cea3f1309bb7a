-- ===== src/Json.antt =====
-- The values of serde_json, and how the services read them. A string is its bytes; a number is
-- `number` where it is a u64, and `other_number` where it is negative or a float.
use ckb_controller.Base.{ℕ, Bool, true, false, Option, none, some, List, [], ◌∷◌, if◌then◌else◌}
use ckb_controller.Bytes.{Bytes}
use ckb_controller.Bytes.Equality.{bytes_eq}

mutual
  pub data Json : Type 0 where
    null other_number : Json
    boolean : Bool → Json
    number : ℕ → Json
    string : Bytes → Json
    array : Items → Json
    object : Fields → Json

  pub data Items : Type 0 where
    nil : Items
    cons : Json → Items → Items

  pub data Fields : Type 0 where
    end : Fields
    field : Bytes → Json → Fields → Fields

unfoldable pub find_field : Bytes → Fields → Option Json
find_field key end = none
find_field key (field k v fs) = if bytes_eq k key then some v else find_field key fs

-- `v.get(key)`
unfoldable pub get : Bytes → Json → Option Json
get key (object fs) = find_field key fs
get key v = none

abbrev pub or_null : Option Json → Json
or_null none = null
or_null (some v) = v

-- `v[key]`, which is null where there is no such field.
abbrev pub at_key : Bytes → Json → Json
at_key key v = or_null (get key v)

abbrev pub as_str : Json → Option Bytes
as_str (string s) = some s
as_str v = none

abbrev pub as_u64 : Json → Option ℕ
as_u64 (number n) = some n
as_u64 v = none

abbrev pub as_array : Json → Option Items
as_array (array xs) = some xs
as_array v = none

abbrev pub is_null : Json → Bool
is_null null = true
is_null v = false

-- `v.get(key).and_then(..)`
abbrev pub get_str : Bytes → Json → Option Bytes
get_str key v = as_str (at_key key v)

abbrev pub get_u64 : Bytes → Json → Option ℕ
get_u64 key v = as_u64 (at_key key v)

-- `json!` on an optional string.
abbrev pub optional : Option Bytes → Json
optional none = null
optional (some s) = string s

-- The list of a JSON array.
abbrev pub items_of : List Json → Items
items_of [] = nil
items_of (v ∷ vs) = cons v (items_of vs)
