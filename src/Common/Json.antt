-- ===== src/Common/Json.antt =====
-- `serde_json::Value` as the code reads it: a number that `as_u64` gives, or any other number by its
-- text; a map's order is not looked at.
use dbgflow.Prelude.{
  ℕ, String, ◌≡◌, Bool, Option, none, some, arith, text_eq, eq_iff, if◌then◌else◌,
}

mutual
  pub data Json : Type 0 where
    null : Json
    bool : Bool → Json
    number : ℕ → Json
    other_number : String → Json
    string : String → Json
    array : Items → Json
    object : Fields → Json

  pub data Items : Type 0 where
    nil : Items
    cons : Json → Items → Items

  pub data Fields : Type 0 where
    end : Fields
    field : String → Json → Fields → Fields

-- `map.get(key)`.
unfoldable pub get_field : String → Fields → Option Json
get_field key end = none
get_field key (field k v fs) = if text_eq k key then some v else get_field key fs

-- `map.insert(key, value)`.
unfoldable pub insert_field : String → Json → Fields → Fields
insert_field key value end = field key value end
insert_field key value (field k v fs) =
    let rest = insert_field key value fs in
    if text_eq k key then field key value fs else field k v rest

-- `value.get(key)`.
unfoldable pub get : String → Json → Option Json
unfolding get_field
get key (object fields) = get_field key fields
get key _ = none

abbrev pub as_bool : Json → Option Bool
as_bool (bool b) = some b
as_bool _ = none

abbrev pub as_u64 : Json → Option ℕ
as_u64 (number n) = some n
as_u64 _ = none

abbrev pub as_str : Json → Option String
as_str (string s) = some s
as_str _ = none

abbrev pub as_array : Json → Option Items
as_array (array items) = some items
as_array _ = none

abbrev pub first : Items → Option Json
first nil = none
first (cons item items) = some item

pub get_field-insert_field :
    (key : String) (value : Json) (fs : Fields)
    → get_field key (insert_field key value fs) ≡ some value
unfolding get_field insert_field
get_field-insert_field key value end = ground (arith, eq_iff key key)
get_field-insert_field key value (field k v fs) =
    ground (arith, eq_iff key key, eq_iff k key, get_field-insert_field key value fs)
