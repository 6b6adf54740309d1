-- ===== src/Server/Methods.antt =====
-- `run_session_method` of src/server.rs: decode the request, run the handler, encode its result.
use redis_driver_for_per_wor.Prelude.{
  Option, none, some, String, ◌==◌, [], ◌∷◌, Result, ok, err, if◌then◌else◌,
}
use redis_driver_for_per_wor.Text.{format}
use redis_driver_for_per_wor.Json.{Json, null, get, as_object}
use redis_driver_for_per_wor.Service.Errors.{ServiceError, invalid_params, method_not_found}
use redis_driver_for_per_wor.Service.Handlers.{Handler, SessionService, Serde}

abbrev pub encoded :
    {B W : Type 0} → (B → Json) → Result ServiceError B × W → Result ServiceError Json × W
encoded encode (ok b, w) = (ok (encode b), w)
encoded encode (err e, w) = (err e, w)

module _ {S W : Type 0} where
  -- The macro `call!`, without its race against cancellation.
  abbrev pub call :
      {A B : Type 0}
      → (Json → Result String A)
      → Handler S W A B
      → (B → Json)
      → Json
      → S
      → W
      → Result ServiceError Json × W
  call decode handler encode rest session w = elim (decode rest) [
    | err e ↦ (err (invalid_params (format ("invalid params: " ∷ e ∷ []))), w)
    | ok request ↦ encoded encode (handler request session w)
  ]

-- `rest.get("request").cloned().unwrap_or(Value::Null)`
abbrev or_null : Option Json → Json
or_null none = null
or_null (some v) = v

abbrev nested_request : Json → Json
nested_request rest = elim (as_object rest) [
  | none ↦ null
  | some members ↦ or_null (get members "request")
]

module _ {S W : Type 0} (service : SessionService S W) (serde : Serde) where
  open service use {
    execute, execute_read_only, validate, list_schema, table_info, list_indexes, create_index,
    replace_index, drop_index, list_foreign_keys, list_referencing_foreign_keys,
    list_foreign_keys_all, list_indexes_all, create_foreign_key, replace_foreign_key,
    drop_foreign_key, alter_column, drop_column, add_column, browse_table, row_write,
    workspace_view,
  }
  open serde use {
    statement_request, empty_request, table_request, index_change_request, replace_index_request,
    drop_request, foreign_key_change_request, replace_foreign_key_request, column_change_request,
    add_column_request, browse_table_request, workspace_view_request, row_write_request, unit,
    query_result, schema_objects, columns, indexes, foreign_keys, referencing_foreign_keys,
    foreign_keys_by_table, indexes_by_table, row_write_response,
  }

  unfoldable pub run_session_method : String → Json → S → W → Result ServiceError Json × W
  run_session_method method rest session w =
      if method == "perk/v1/execute"
      then call statement_request execute query_result rest session w
      else if method == "perk/v1/execute_read_only"
      then call statement_request execute_read_only query_result rest session w
      else if method == "perk/v1/validate"
      then call statement_request validate unit rest session w
      else if method == "perk/v1/row_write"
      then call row_write_request row_write row_write_response (nested_request rest) session w
      else if method == "perk/v1/list_schema"
      then call empty_request list_schema schema_objects rest session w
      else if method == "perk/v1/table_info"
      then call table_request table_info columns rest session w
      else if method == "perk/v1/list_indexes"
      then call table_request list_indexes indexes rest session w
      else if method == "perk/v1/create_index"
      then call index_change_request create_index unit rest session w
      else if method == "perk/v1/replace_index"
      then call replace_index_request replace_index unit rest session w
      else if method == "perk/v1/drop_index"
      then call drop_request drop_index unit rest session w
      else if method == "perk/v1/list_foreign_keys"
      then call table_request list_foreign_keys foreign_keys rest session w
      else if method == "perk/v1/list_referencing_foreign_keys"
      then call table_request list_referencing_foreign_keys referencing_foreign_keys rest session w
      else if method == "perk/v1/list_foreign_keys_all"
      then call empty_request list_foreign_keys_all foreign_keys_by_table rest session w
      else if method == "perk/v1/list_indexes_all"
      then call empty_request list_indexes_all indexes_by_table rest session w
      else if method == "perk/v1/create_foreign_key"
      then call foreign_key_change_request create_foreign_key unit rest session w
      else if method == "perk/v1/replace_foreign_key"
      then call replace_foreign_key_request replace_foreign_key unit rest session w
      else if method == "perk/v1/drop_foreign_key"
      then call drop_request drop_foreign_key unit rest session w
      else if method == "perk/v1/alter_column"
      then call column_change_request alter_column unit rest session w
      else if method == "perk/v1/drop_column"
      then call drop_request drop_column unit rest session w
      else if method == "perk/v1/add_column"
      then call add_column_request add_column unit rest session w
      else if method == "perk/v1/browse_table"
      then call browse_table_request browse_table query_result rest session w
      else if method == "perk/v1/workspace_view"
      then call workspace_view_request workspace_view query_result rest session w
      else (err (method_not_found (format ("method not found: " ∷ method ∷ []))), w)
