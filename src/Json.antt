-- ===== src/Json.antt =====
-- The part of `serde_json::Value` that the source constructs and matches on. Parsing and printing of
-- JSON text are the serde_json package's, and stay parameters where they are used.
use redis_driver_for_per_wor.Text.Order.{text_leb}
use redis_driver_for_per_wor.Prelude.{ℕ, Bool, Option, none, some, String, ◌==◌, if◌then◌else◌}

-- An unsigned integer, a negative integer `-(n + 1)`, or a float by its text.
pub data Number : Type 0 where
  unsigned : ℕ → Number
  negative : ℕ → Number
  float : String → Number

mutual
  pub data Json : Type 0 where
    null : Json
    bool : Bool → Json
    number : Number → Json
    string : String → Json
    array : Items → Json
    object : Members → Json

  pub data Items : Type 0 where
    no_items : Items
    item : Json → Items → Items

  pub data Members : Type 0 where
    no_members : Members
    member : String → Json → Members → Members

-- `Map::get`
unfoldable pub get : Members → String → Option Json
get no_members key = none
get (member k v rest) key = if k == key then some v else get rest key

-- `Map::remove`
unfoldable pub remove : Members → String → Members
remove no_members key = no_members
remove (member k v rest) key = if k == key then remove rest key else member k v (remove rest key)

abbrev pub as_object : Json → Option Members
as_object (object members) = some members
as_object _ = none

abbrev pub as_str : Json → Option String
as_str (string s) = some s
as_str _ = none

-- `Number::as_u64` on a value.
abbrev pub as_u64 : Json → Option ℕ
as_u64 (number (unsigned n)) = some n
as_u64 _ = none

-- `Map::insert`: the members stay in the order of their keys, and the value of a present key is
-- replaced.
unfoldable pub insert : Members → String → Json → Members
insert no_members key value = member key value no_members
insert (member k v rest) key value =
    let later = insert rest key value in
    if k == key
    then member k value rest
    else if text_leb key k
    then member key value (member k v rest)
    else member k v later
