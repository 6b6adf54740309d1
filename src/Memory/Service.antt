-- ===== src/Memory/Service.antt =====
-- `SessionService for MemoryService` and `MemoryFactory` of src/service.rs, as values of the
-- interfaces that the server uses. `cancelled` tells whether the token of the request fires before
-- the end of its sleep.
use redis_driver_for_per_wor.Prelude.{
  ℕ, suc, Bool, true, false, not, ◌&&◌, List, [], ◌∷◌, none, some, String, ◌==◌, Result, ok, err,
  if◌then◌else◌, length,
}
use redis_driver_for_per_wor.Assoc.{insert}
use redis_driver_for_per_wor.Text.{format, trim}
use redis_driver_for_per_wor.Text.Decimal.{show}
use redis_driver_for_per_wor.Dto.Capabilities.{FormValues, WorkspaceViewScope}
use redis_driver_for_per_wor.Dto.Request.{BuildTargetResult, WorkspaceViewRequest}
use redis_driver_for_per_wor.Dto.Result.{
  ColumnInfo, DatabaseInfo, IndexInfo, QueryResult, SchemaObject,
}
use redis_driver_for_per_wor.Dto.Write.{RowWriteResponse}
use redis_driver_for_per_wor.Service.Errors.{ServiceError, canceled, unsupported}
use redis_driver_for_per_wor.Service.Handlers.{SessionFactory, SessionService}
use redis_driver_for_per_wor.Redis.Target.{filled, unwrap_or}
use redis_driver_for_per_wor.Text.Map.{Map}
use redis_driver_for_per_wor.Memory.{MemoryService, Stores, on_store, store_of, stub_result}
use redis_driver_for_per_wor.Memory.Rows.{Written, browse_entries, write_row}
use redis_driver_for_per_wor.Memory.Statement.{run_statement}

abbrev kv_column : String → Bool → ℕ → List ℕ → ColumnInfo
kv_column name nullable primary_key indexes = record {
  name = name;
  type_ = "string";
  attributes = "";
  nullable = nullable;
  default_value = none;
  primary_key = primary_key;
  indexes = indexes;
}

abbrev kv_columns : List ColumnInfo
kv_columns = kv_column "key" false 1 (1 ∷ []) ∷ kv_column "value" true 0 [] ∷ []

abbrev kv_primary_index : IndexInfo
kv_primary_index = record {
  name = "PRIMARY";
  unique = true;
  primary_key = true;
  columns = "key" ∷ [];
}

abbrev schema_object : String → String → String → ℕ → SchemaObject
schema_object database type_ name row_count = record {
  database = database;
  type_ = type_;
  name = name;
  row_count = some row_count;
}

unfoldable pub memory_schema : MemoryService → Stores → List SchemaObject
memory_schema this w =
    let row_count = length (store_of this w) in
    schema_object this.name "database" this.name row_count
    ∷ schema_object this.name "table" "kv" row_count
    ∷ []

-- The response of a row write, from the affected count.
abbrev pub written_response : Written → Result ServiceError RowWriteResponse × Map
written_response (err e, m) = (err e, m)
written_response (ok affected, m) = (
  ok (record {
    result = record { rows_affected = affected; statement = ""; statement_metadata = none };
  }),
  m,
)

abbrev is_schema_target : WorkspaceViewScope → Bool
is_schema_target WorkspaceViewScope.schema = true
is_schema_target _ = false

unfoldable pub memory_view : Bool → WorkspaceViewRequest → Map → Result ServiceError QueryResult
memory_view cancelled request m =
    if request.view_id == "block" && cancelled
    then err (canceled "request canceled")
    else if not (request.view_id == "server")
    then err (unsupported (format ("unknown view: " ∷ request.view_id ∷ [])))
    else if is_schema_target request.target.kind
    then err (unsupported "view server is not available for schema targets")
    else ok (
        stub_result ("Field" ∷ "Value" ∷ [])
          ((some "keyspace.keys" ∷ some (show (length m)) ∷ [])
            ∷ (some "server.redis_version" ∷ some "7.4.7" ∷ [])
            ∷ [])
          0)

-- The answer to a change of what the store has fixed.
abbrev fixed_in_demo :
    {A : Type 0} → String → A → MemoryService → Stores → Result ServiceError (Unit {0}) × Stores
fixed_in_demo message request this w = (err (unsupported message), w)

unfoldable pub memory_service : Bool → SessionService MemoryService Stores
memory_service cancelled = record {
  execute = λ request. on_store (run_statement cancelled true request.statement);
  execute_read_only = λ request. on_store (run_statement cancelled false request.statement);
  validate = λ request this w. (ok tt, w);
  list_schema = λ request this w. (ok (memory_schema this w), w);
  table_info = λ request this w. (ok kv_columns, w);
  list_indexes = λ request this w. (ok (kv_primary_index ∷ []), w);
  create_index = fixed_in_demo "the demo store has a fixed primary index";
  replace_index = fixed_in_demo "the demo store has a fixed primary index";
  drop_index = fixed_in_demo "the demo store has a fixed primary index";
  list_foreign_keys = λ request this w. (ok [], w);
  list_referencing_foreign_keys = λ request this w. (ok [], w);
  list_foreign_keys_all = λ request this w. (ok [], w);
  list_indexes_all = λ request this w. (ok (("kv", kv_primary_index ∷ []) ∷ []), w);
  create_foreign_key = fixed_in_demo "the demo store has no foreign keys";
  replace_foreign_key = fixed_in_demo "the demo store has no foreign keys";
  drop_foreign_key = fixed_in_demo "the demo store has no foreign keys";
  alter_column = fixed_in_demo "the demo store has a fixed schema";
  drop_column = fixed_in_demo "the demo store has a fixed schema";
  add_column = fixed_in_demo "the demo store has a fixed schema";
  browse_table = λ request. on_store (λ m. (ok (browse_entries request.options m), m));
  row_write = λ request. on_store (λ m. written_response (write_row request m));
  workspace_view = λ request. on_store (λ m. (memory_view cancelled request m, m));
  close = λ this w. w;
}

unfoldable pub build_memory_target : FormValues → BuildTargetResult
build_memory_target values =
    let host = unwrap_or (filled values.host) "127.0.0.1" in
    let port = unwrap_or (filled values.port) "6379" in
    let database = unwrap_or (filled values.database) "0" in
    record {
      target = format ("redis:redis://" ∷ host ∷ ":" ∷ port ∷ "/" ∷ database ∷ []);
      ok = true;
    }

-- `MemoryService::new`: every session has an empty store of its own.
unfoldable pub new_memory_service : String → Stores → MemoryService × Stores
new_memory_service name w = (
  record { name = name; store = w.next_store },
  record { stores = insert w.next_store [] w.stores; next_store = suc w.next_store },
)

unfoldable pub open_memory :
    String → Stores → Result ServiceError (DatabaseInfo × MemoryService) × Stores
open_memory target w =
    let (service, opened) = new_memory_service (trim target) w in
    (ok (record { product = "Redis (stub)"; version = "0.0.0" }, service), opened)

unfoldable pub memory_factory : SessionFactory MemoryService Stores
memory_factory = record { build_target = build_memory_target; open_session = open_memory }
