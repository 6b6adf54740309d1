-- ===== src/Redis/Previews.antt =====
-- Value previews of src/redis_service.rs: bounded reads of one key.
pub mod Zset
use Prim.Native.String.{slice}
use redis_driver_for_per_wor.Prelude.{
  ℕ, ◌-◌, pos, Bool, true, false, ◌&&◌, List, [], ◌∷◌, Option, none, some, String, ◌==◌,
  if◌then◌else◌, map, Result, ok, err,
}
use redis_driver_for_per_wor.Text.Decimal.{show}
use redis_driver_for_per_wor.Text.Sort.{sort_by_key}
use redis_driver_for_per_wor.Json
use redis_driver_for_per_wor.Json.{Json, Items, Members, item, no_items, no_members, object}
use redis_driver_for_per_wor.Dto.Result.{Cell}
use redis_driver_for_per_wor.Reply.Value.{
  Reply, Replies, array, no_replies, reply, cell, items_json, or_null, to_json, to_list,
}
use redis_driver_for_per_wor.Service.Errors.{ServiceError}
use redis_driver_for_per_wor.Redis.{Crate, RedisService, World}
use redis_driver_for_per_wor.Redis.Action.{Action, attempt, pure, ◌>>=◌}
use redis_driver_for_per_wor.Redis.Query.{query, value}

abbrev pub preview_bytes : ℕ
preview_bytes = 1024

abbrev pub preview_elements : ℕ
preview_elements = 64

abbrev pub array_items : Reply → Option Replies
array_items (array items) = some items
array_items _ = none

-- `items.get(1)`, when it is an array.
abbrev pub second_array : Replies → Option Replies
second_array (reply first (reply (array items) rest)) = some items
second_array _ = none

-- `reply[1]`, when the reply and that are arrays.
abbrev pub scanned : Reply → Option Replies
scanned v = elim (array_items v) [ none ↦ none | some items ↦ second_array items ]

abbrev is_array : Reply → Bool
is_array (array items) = true
is_array _ = false

abbrev all_arrays : Replies → Bool
all_arrays no_replies = true
all_arrays (reply v rest) = is_array v && all_arrays rest

abbrev items_of : List Json → Items
items_of [] = no_items
items_of (v ∷ rest) = item v (items_of rest)

module _ {C B : Type 0} (crate : Crate C B) (this : RedisService) where
  open crate use {printers, from_string, from_bytes}
  open printers use {from_utf8_lossy, json_to_string}

  abbrev pub member_name : Reply → String
  member_name v = or_null (cell printers v)

  -- The pairs of the nested shape: elements that are not pairs are left out.
  abbrev pub nested_pairs : Replies → List (String × Reply)
  nested_pairs no_replies = []
  nested_pairs (reply (array (reply member (reply v no_replies))) rest) =
      (member_name member, v) ∷ nested_pairs rest
  nested_pairs (reply _ rest) = nested_pairs rest

  -- The pairs of the flat shape, in chunks of two.
  abbrev pub flat_pairs : Replies → List (String × Reply)
  flat_pairs no_replies = []
  flat_pairs (reply member no_replies) = []
  flat_pairs (reply member (reply v rest)) = (member_name member, v) ∷ flat_pairs rest

  unfoldable pub pairs_from_scan : Reply → List (String × Reply)
  pairs_from_scan v = elim (scanned v) [
    | none ↦ []
    | some pairs ↦ if all_arrays pairs then nested_pairs pairs else flat_pairs pairs
  ]

  -- The loop over the pairs, with the object built so far.
  abbrev insert_pairs : List (String × Reply) → Members → Members
  insert_pairs [] obj = obj
  insert_pairs ((name, v) ∷ rest) obj =
      insert_pairs rest (Json.insert obj name (to_json printers v))

  abbrev pairs_text : Reply → String
  pairs_text v = json_to_string (object (insert_pairs (pairs_from_scan v) no_members))

  -- A failed read is no preview.
  abbrev pub or_none : {A : Type 0} → (A → Option String) → Result ServiceError A → Option String
  or_none f (ok a) = f a
  or_none f (err e) = none

  -- The prefix of whole characters within the bytes: `&s[..end]`, with `end` moved down from the
  -- limit to a character boundary.
  unfoldable pub preview_string : String → Action (World C B) (Option String)
  preview_string key = do
    got ←
        attempt
          (query crate this from_bytes ("GETRANGE" ∷ key ∷ "0" ∷ show (preview_bytes - 1) ∷ []))
    pure (or_none (λ bytes. some (slice (from_utf8_lossy bytes) 0 preview_bytes)) got)

  unfoldable pub preview_hash : String → Action (World C B) (Option String)
  preview_hash key = do
    got ←
        attempt
          (query crate this value ("HSCAN" ∷ key ∷ "0" ∷ "COUNT" ∷ show preview_elements ∷ []))
    pure (or_none (λ v. some (pairs_text v)) got)

  abbrev list_text : Reply → Option String
  list_text v = elim (array_items v) [
    | none ↦ none
    | some items ↦ some (json_to_string (Json.array (items_json printers items)))
  ]

  unfoldable pub preview_list : String → Action (World C B) (Option String)
  preview_list key = do
    got ← attempt (query crate this value ("LRANGE" ∷ key ∷ "0" ∷ show (preview_elements - 1) ∷ []))
    pure (or_none list_text got)

  abbrev json_members : Option Replies → List Json
  json_members none = []
  json_members (some items) = map (to_json printers) (to_list items)

  abbrev set_text : Reply → Option String
  set_text v = some (
      json_to_string
        (Json.array (items_of (sort_by_key json_to_string (json_members (scanned v))))))

  unfoldable pub preview_set : String → Action (World C B) (Option String)
  preview_set key = do
    got ←
        attempt
          (query crate this value ("SSCAN" ∷ key ∷ "0" ∷ "COUNT" ∷ show preview_elements ∷ []))
    pure (or_none set_text got)

  unfoldable pub preview_zset : String → Action (World C B) (Option String)
  preview_zset key = do
    got ← attempt (
        query crate this value
          ("ZRANGE" ∷ key ∷ "0" ∷ show (preview_elements - 1) ∷ "WITHSCORES" ∷ []))
    pure (or_none (λ v. some (pairs_text v)) got)

  -- The preview that fits the type.
  unfoldable pub preview_of : String → String → Action (World C B) (Option String)
  preview_of type_ key =
      if type_ == "string"
      then preview_string key
      else if type_ == "hash"
      then preview_hash key
      else if type_ == "list"
      then preview_list key
      else if type_ == "set"
      then preview_set key
      else if type_ == "zset"
      then preview_zset key
      else pure none

  abbrev pub preview_for :
      String → Result ServiceError String → Action (World C B) (String × Option String)
  preview_for key (err e) = pure ("unknown", none)
  preview_for key (ok type_) = do preview ← preview_of type_ key; pure (type_, preview)

  unfoldable pub fetch_preview : String → Action (World C B) (String × Option String)
  fetch_preview key = do
    type_ ← attempt (query crate this from_string ("TYPE" ∷ key ∷ []))
    preview_for key type_
