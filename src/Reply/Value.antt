-- ===== src/Reply/Value.antt =====
-- Conversion of one Redis reply, `reply_rows`, `cell` and `to_json` of src/redis_service.rs. `Reply`
-- has the variants of `redis::Value` that the source matches on, and one for the variants that it
-- leaves to its last arm. Bytes are decoded, floats printed and JSON serialized by parameters.
use redis_driver_for_per_wor.Prelude.{
  ℕ, suc, ◌+◌, ℤ, pos, negsuc, Bool, true, false, List, [], ◌∷◌, Option, none, some, String,
}
use redis_driver_for_per_wor.Text.{format}
use redis_driver_for_per_wor.Text.Decimal.{show}
use redis_driver_for_per_wor.Json.{
  Json, null, bool, number, string, object, no_items, item, no_members, Items, Members, Number,
  unsigned, negative, insert,
}
use redis_driver_for_per_wor.Dto.Result.{Cell}

mutual
  pub data Reply : Type 0 where
    nil okay : Reply
    int : ℤ → Reply
    bulk_string : List ℕ → Reply
    simple_string big_number server_error : String → Reply
    double : String → Reply
    boolean : Bool → Reply
    verbatim_string : String → String → Reply
    array set : Replies → Reply
    push : String → Replies → Reply
    map : Pairs → Reply
    attribute : Reply → Pairs → Reply
    unknown : Reply

  pub data Replies : Type 0 where
    no_replies : Replies
    reply : Reply → Replies → Replies

  pub data Pairs : Type 0 where
    no_pairs : Pairs
    pair : Reply → Reply → Pairs → Pairs

-- `i64::to_string`
abbrev pub show_ℤ : ℤ → String
show_ℤ (pos n) = show n
show_ℤ (negsuc n) = format ("-" ∷ show (suc n) ∷ [])

abbrev show_bool : Bool → String
show_bool true = "true"
show_bool false = "false"

abbrev int_number : ℤ → Number
int_number (pos n) = unsigned n
int_number (negsuc n) = negative n

-- `Number::from_f64(f).map(Value::Number).unwrap_or(Value::Null)`
abbrev float_json : Option Number → Json
float_json none = null
float_json (some n) = number n

abbrev pub or_null : Cell → String
or_null none = "null"
or_null (some s) = s

abbrev pub to_list : Replies → List Reply
to_list no_replies = []
to_list (reply v rest) = v ∷ to_list rest

-- What the conversion calls outside the program: `String::from_utf8_lossy`, the printing of an `f64`
-- (a double is kept by its text), `Number::from_f64`, and the compact JSON of a value.
pub record Printers : Type 0 where
  pub from_utf8_lossy : List ℕ → String
  pub show_f64 : String → String
  pub from_f64 : String → Option Number
  pub json_to_string : Json → String

module _ (p : Printers) where
  open p use {from_utf8_lossy, show_f64, from_f64, json_to_string}

  -- `cell`, given the value's JSON for the compound values.
  unfoldable pub cell_with : Json → Reply → Cell
  cell_with json nil = none
  cell_with json (int i) = some (show_ℤ i)
  cell_with json (bulk_string b) = some (from_utf8_lossy b)
  cell_with json (simple_string s) = some s
  cell_with json okay = some "OK"
  cell_with json (double f) = some (show_f64 f)
  cell_with json (boolean b) = some (show_bool b)
  cell_with json (verbatim_string form text) = some text
  cell_with json (big_number b) = some b
  cell_with json (server_error e) = some e
  cell_with json _ = some (json_to_string json)

  unfoldable mutual
    unfolding cell_with

    pub to_json : Reply → Json
    to_json nil = null
    to_json (int i) = number (int_number i)
    to_json (bulk_string b) = string (from_utf8_lossy b)
    to_json (simple_string s) = string s
    to_json okay = string "OK"
    to_json (double f) = float_json (from_f64 f)
    to_json (boolean b) = bool b
    to_json (verbatim_string form text) = string text
    to_json (big_number b) = string b
    to_json (server_error e) = string e
    to_json (array items) = Json.array (items_json items)
    to_json (set items) = Json.array (items_json items)
    to_json (push kind items) = Json.array (items_json items)
    to_json (map pairs) = object (pairs_json pairs no_members)
    to_json (attribute v attributes) = to_json v
    to_json unknown = null

    pub items_json : Replies → Items
    items_json no_replies = no_items
    items_json (reply v rest) = item (to_json v) (items_json rest)

    -- The loop over the pairs of a map, with the object built so far.
    pub pairs_json : Pairs → Members → Members
    pairs_json no_pairs obj = obj
    pairs_json (pair k v rest) obj =
        pairs_json rest (insert obj (or_null (cell_with (to_json k) k)) (to_json v))

  unfoldable pub cell : Reply → Cell
  unfolding to_json cell_with
  cell v = cell_with (to_json v) v

  unfoldable pub index_rows : ℕ → Replies → List (List Cell)
  index_rows i no_replies = []
  index_rows i (reply v rest) = (some (show i) ∷ cell v ∷ []) ∷ index_rows (i + 1) rest

  unfoldable pub key_rows : Pairs → List (List Cell)
  key_rows no_pairs = []
  key_rows (pair k v rest) = (some (or_null (cell k)) ∷ cell v ∷ []) ∷ key_rows rest

  unfoldable pub reply_rows : Reply → List String × List (List Cell)
  unfolding index_rows key_rows
  reply_rows (array items) = ("index" ∷ "value" ∷ [], index_rows 0 items)
  reply_rows (set items) = ("index" ∷ "value" ∷ [], index_rows 0 items)
  reply_rows (push kind items) = ("index" ∷ "value" ∷ [], index_rows 0 items)
  reply_rows (map pairs) = ("key" ∷ "value" ∷ [], key_rows pairs)
  reply_rows (attribute v attributes) = reply_rows v
  reply_rows v = ("value" ∷ [], (cell v ∷ []) ∷ [])
