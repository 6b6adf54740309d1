-- ===== src/Redis/Handlers.antt =====
-- The handlers of `SessionService for RedisService` in src/redis_service.rs. `fuel` bounds the SCAN
-- calls of a browse.
pub mod Closed
pub mod Reads
pub mod Commands
pub mod Readers
pub mod ReadOnly
pub mod Slots
use redis_driver_for_per_wor.Prelude.{
  ℕ, to_ℕ, Bool, true, false, not, List, [], ◌∷◌, Option, none, some, String, ◌==◌, if◌then◌else◌,
  length, ltb, Result, ok, err,
}
use redis_driver_for_per_wor.Text.{format, upper}
use redis_driver_for_per_wor.Dto.Capabilities.{WorkspaceViewScope}
use redis_driver_for_per_wor.Dto.Request.{
  BrowseTableRequest, StatementRequest, TableRequest, WorkspaceViewRequest,
}
use redis_driver_for_per_wor.Dto.Result.{
  ColumnInfo, IndexInfo, ForeignKeyInfo, QueryResult, SchemaObject, redis_metadata,
}
use redis_driver_for_per_wor.Dto.Write.{RowWriteRequest, RowWriteResponse, with_statement}
use redis_driver_for_per_wor.Reply.{finalize, max_rows}
use redis_driver_for_per_wor.Reply.Value.{Reply, reply_rows, show_ℤ}
use redis_driver_for_per_wor.RowWrite.{RowWrite, delete, update, insert, parse_row_write}
use redis_driver_for_per_wor.Service.Errors.{ServiceError, unsupported, validation}
use redis_driver_for_per_wor.Statement.{
  Statement, command_metadata, is_some, keys_table, parse_statement, redis, select_keys,
}
use redis_driver_for_per_wor.Statement.Verbs.{is_read_only}
use redis_driver_for_per_wor.Redis.{Crate, RedisService, World}
use redis_driver_for_per_wor.Redis.Action.{Action, lift, pure, raise, reject_if, ◌>>=◌, ◌>>◌}
use redis_driver_for_per_wor.Redis.Browse.{run_select}
use redis_driver_for_per_wor.Redis.Guidance.{render_command, run_command_guided}
use redis_driver_for_per_wor.Redis.Query.{query}
use redis_driver_for_per_wor.Redis.Rows.{delete_row, insert_row, update_row}
use redis_driver_for_per_wor.Redis.View.{Race, server_view}

abbrev pub primary_index : IndexInfo
primary_index = record { name = "PRIMARY"; unique = true; primary_key = true; columns = "key" ∷ [] }

-- A column of the `keys` table.
abbrev column : String → Bool → ℕ → List ℕ → ColumnInfo
column name nullable primary_key indexes = record {
  name = name;
  type_ = "string";
  attributes = "";
  nullable = nullable;
  default_value = none;
  primary_key = primary_key;
  indexes = indexes;
}

abbrev pub keys_columns : List ColumnInfo
keys_columns =
    column "key" false 1 (1 ∷ []) ∷ column "type" false 0 [] ∷ column "value" true 0 [] ∷ []

abbrev pub fixed_schema_error : ServiceError
fixed_schema_error = unsupported "Redis keys has a fixed virtual schema"

abbrev pub unknown_table : String → ServiceError
unknown_table table = unsupported (format ("unknown table: " ∷ table ∷ []))

abbrev unwrap_or_zero : Option ℕ → ℕ
unwrap_or_zero none = 0
unwrap_or_zero (some n) = n

abbrev pub is_schema : WorkspaceViewScope → Bool
is_schema WorkspaceViewScope.schema = true
is_schema _ = false

-- The answers of the handlers that do no Redis I/O.
unfoldable pub table_info : TableRequest → Result ServiceError (List ColumnInfo)
table_info request =
    if not (request.table == keys_table) then err (unknown_table request.table) else ok keys_columns

unfoldable pub list_indexes : TableRequest → Result ServiceError (List IndexInfo)
list_indexes request =
    if not (request.table == keys_table)
    then err (unknown_table request.table)
    else ok (primary_index ∷ [])

abbrev pub list_indexes_all : Result ServiceError (List (String × List IndexInfo))
list_indexes_all = ok ((keys_table, primary_index ∷ []) ∷ [])

module _ {C B : Type 0} (crate : Crate C B) (this : RedisService) where
  open crate use {printers, quote, split, from_i64}

  -- The result of one command.
  abbrev pub command_result : List String → ℕ × Reply → QueryResult
  command_result tokens (duration, found) =
      let (columns, full_rows) = reply_rows printers found in
      finalize columns full_rows duration (ltb max_rows (length full_rows))
        (some (render_command quote tokens)) (some (command_metadata tokens))

  abbrev pub run_tokens : List String → Action (World C B) QueryResult
  run_tokens tokens = do
    done ← run_command_guided crate this tokens
    pure (command_result tokens done)

  abbrev pub execute_statement : ℕ → Statement → Action (World C B) QueryResult
  execute_statement fuel (redis []) = raise (validation "empty statement")
  execute_statement fuel (redis (verb ∷ arguments)) = run_tokens (verb ∷ arguments)
  execute_statement fuel (select_keys offset limit) = run_select crate this fuel offset limit

  unfoldable pub execute : ℕ → StatementRequest → Action (World C B) QueryResult
  execute fuel request = do
    statement ← lift (parse_statement split request.statement)
    execute_statement fuel statement

  abbrev not_allowed : String → ServiceError
  not_allowed verb = unsupported (format ("read-only: " ∷ verb ∷ " is not allowed" ∷ []))

  abbrev pub read_statement : ℕ → Statement → Action (World C B) QueryResult
  read_statement fuel (select_keys offset limit) = run_select crate this fuel offset limit
  read_statement fuel (redis []) = raise (validation "empty statement")
  read_statement fuel (redis (verb ∷ arguments)) =
      if not (is_read_only (upper verb))
      then raise (not_allowed (upper verb))
      else run_tokens (verb ∷ arguments)

  unfoldable pub execute_read_only : ℕ → StatementRequest → Action (World C B) QueryResult
  execute_read_only fuel request = do
    statement ← lift (parse_statement split request.statement)
    read_statement fuel statement

  unfoldable pub validate : StatementRequest → Action (World C B) (Unit {0})
  validate request = do statement ← lift (parse_statement split request.statement); pure tt

  unfoldable pub list_schema : Action (World C B) (List SchemaObject)
  list_schema = do
    dbsize ← query crate this from_i64 ("DBSIZE" ∷ [])
    let database = format ("db" ∷ show_ℤ this.database ∷ [])
    let database_object : SchemaObject = record {
      database = database;
      type_ = "database";
      name = database;
      row_count = some (to_ℕ dbsize);
    }
    let table_object : SchemaObject = record {
      database = database;
      type_ = "table";
      name = keys_table;
      row_count = some (to_ℕ dbsize);
    }
    pure (database_object ∷ table_object ∷ [])

  unfoldable pub browse_table : ℕ → BrowseTableRequest → Action (World C B) QueryResult
  browse_table fuel request = do
    reject_if (not (request.table == keys_table)) (unknown_table request.table)
    run_select crate this fuel (unwrap_or_zero request.options.offset) request.options.limit

  unfoldable pub workspace_view :
      (String → Race) → WorkspaceViewRequest → Action (World C B) QueryResult
  workspace_view races request = do
    reject_if (not (request.view_id == "server"))
        (unsupported (format ("unknown view: " ∷ request.view_id ∷ [])))
    reject_if (is_schema request.target.kind)
        (unsupported "view server is not available for schema targets")
    server_view crate this races

  abbrev pub row_response : Bool → ℕ × String → RowWriteResponse
  row_response value_shown (rows_affected, statement) = record {
    result = with_statement rows_affected statement (redis_metadata (not value_shown) value_shown);
  }

  abbrev pub apply_write : RowWrite → Action (World C B) RowWriteResponse
  apply_write (delete key) = do done ← delete_row crate this key; pure (row_response false done)
  apply_write (update key rename_to value) = do
    done ← update_row crate this key rename_to value
    pure (row_response (is_some value) done)
  apply_write (insert key value) = do
    done ← insert_row crate this key value
    pure (row_response true done)

  unfoldable pub row_write : RowWriteRequest → Action (World C B) RowWriteResponse
  row_write request = do write ← lift (parse_row_write request); apply_write write
