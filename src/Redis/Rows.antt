-- ===== src/Redis/Rows.antt =====
-- The row writes of src/redis_service.rs: `delete_row`, `insert_row` and `update_row`.
pub mod Guard
pub mod Update
use Prim.Native.String.{count}
use redis_driver_for_per_wor.Prelude.{
  ℕ, ℤ, to_ℕ, is_positive, not, ◌&&◌, List, [], ◌∷◌, Option, none, some, String, ◌==◌, ltb,
  if◌then◌else◌, Result, ok, err,
}
use redis_driver_for_per_wor.Text.{format}
use redis_driver_for_per_wor.Text.Decimal.{show}
use redis_driver_for_per_wor.Statement.{is_some}
use redis_driver_for_per_wor.Reply.{max_cell}
use redis_driver_for_per_wor.Reply.Value.{Reply, nil, int, bulk_string}
use redis_driver_for_per_wor.Service.Errors.{ServiceError, operation}
use redis_driver_for_per_wor.Redis.{Crate, RedisService, World}
use redis_driver_for_per_wor.Redis.Action.{Action, pure, raise, lift, reject_if, ◌>>=◌, ◌>>◌}
use redis_driver_for_per_wor.Redis.Guidance.{render_command}
use redis_driver_for_per_wor.Redis.Query.{query, run_command, value, with_connection}
use redis_driver_for_per_wor.Redis.Script.{update_script}

-- `option.unwrap_or(fallback)`
abbrev pub unwrap_or : Option String → String → String
unwrap_or none fallback = fallback
unwrap_or (some s) fallback = s

abbrev pub script_args : String → Option String → Option String → List String
script_args destination expected new =
    destination ∷ (if is_some new then "1" else "0") ∷ unwrap_or expected "" ∷ unwrap_or new "" ∷ []

abbrev pub taken : String → ServiceError
taken destination = operation (format ("destination key already exists: " ∷ destination ∷ []))

abbrev pub not_a_string : String → String → ServiceError
not_a_string key type_ =
    operation (format ("cannot edit value: " ∷ key ∷ " is a " ∷ type_ ∷ ", not a string" ∷ []))

abbrev pub too_long : String → ℕ → ServiceError
too_long key runes = operation (
    format (
      "cannot edit value: the current value of "
      ∷ key
      ∷ " has "
      ∷ show runes
      ∷ " characters, more than the "
      ∷ show max_cell
      ∷ " the workbench displays; use SET for large strings"
      ∷ []))

module _ {C B : Type 0} (crate : Crate C B) (this : RedisService) where
  open crate use {debug, quote, from_string, from_i64, from_utf8, invoke_async}

  unexpected_del : Reply → ServiceError
  unexpected_del other = operation (format ("unexpected DEL reply: " ∷ debug other ∷ []))

  -- The count of a DEL reply.
  abbrev pub deleted_count : Reply → Result ServiceError ℕ
  unfolding unexpected_del
  deleted_count (int count) = ok (to_ℕ count)
  deleted_count other = err (unexpected_del other)

  unfoldable pub delete_row : String → Action (World C B) (ℕ × String)
  delete_row key = do
    (duration, found) ← run_command crate this ("DEL" ∷ key ∷ [])
    deleted ← lift (deleted_count found)
    pure (deleted, render_command quote ("DEL" ∷ key ∷ []))

  abbrev pub inserted : String → String → Reply → Result ServiceError (ℕ × String)
  inserted key new nil = err (operation (format ("key already exists: " ∷ key ∷ [])))
  inserted key new _ = ok (1, render_command quote ("SET" ∷ key ∷ new ∷ "NX" ∷ []))

  unfoldable pub insert_row : String → String → Action (World C B) (ℕ × String)
  insert_row key new = do
    (duration, found) ← run_command crate this ("SET" ∷ key ∷ new ∷ "NX" ∷ [])
    lift (inserted key new found)

  -- The text that a GET reply holds.
  abbrev pub decoded : String → Option String → Result ServiceError String
  decoded key none = err (
      operation
        (format ("cannot edit value: the current value of " ∷ key ∷ " is not valid UTF-8" ∷ [])))
  decoded key (some current) = ok current

  abbrev pub current_of : String → Reply → Result ServiceError String
  current_of key (bulk_string bytes) = decoded key (from_utf8 bytes)
  current_of key nil = err (operation (format ("key not found: " ∷ key ∷ [])))
  current_of key other =
      err (operation (format ("unexpected GET reply for " ∷ key ∷ ": " ∷ debug other ∷ [])))

  -- The reads before a new value: the complete current value, when it is an editable string.
  unfoldable pub editable : String → Action (World C B) String
  editable key = do
    type_ ← query crate this from_string ("TYPE" ∷ key ∷ [])
    reject_if (not (type_ == "string")) (not_a_string key type_)
    found ← query crate this value ("GET" ∷ key ∷ [])
    current ← lift (current_of key found)
    reject_if (ltb max_cell (count current)) (too_long key (count current))
    pure current

  abbrev pub expected_value : String → Option String → Action (World C B) (Option String)
  expected_value key none = pure none
  expected_value key (some new) = do current ← editable key; pure (some current)

  -- The read before a rename: the destination is free.
  unfoldable pub free_destination : String → Action (World C B) (Unit {0})
  free_destination destination = do
    exists ← query crate this from_i64 ("EXISTS" ∷ destination ∷ [])
    reject_if (is_positive exists) (taken destination)

  abbrev pub checked_destination : String → String → Action (World C B) (Unit {0})
  checked_destination key destination =
      if not (destination == key) then free_destination destination else pure tt

  unfoldable pub invoke : String → List String → Action (World C B) ℤ
  invoke key args =
      with_connection crate this (λ conn b. invoke_async conn update_script key args b)

  -- The rest of an update, once its new value is validated.
  abbrev pub write_update :
      String → Option String → Option String → Option String → Action (World C B) (ℕ × String)
  write_update key rename_to new expected = do
    let destination = unwrap_or rename_to key
    checked_destination key destination
    let args = script_args destination expected new
    affected ← invoke key args
    pure (to_ℕ affected, render_command quote ("EVAL" ∷ update_script ∷ "1" ∷ key ∷ args))

  unfoldable pub update_row :
      String → Option String → Option String → Action (World C B) (ℕ × String)
  update_row key rename_to new = do
    expected ← expected_value key new
    write_update key rename_to new expected
