-- ===== src/Service/Handlers.antt =====
-- The traits `SessionService` and `SessionFactory` of src/service.rs, and the JSON conversions of
-- their requests and results. `S` is a session and `W` what it acts on (the backend); a handler
-- returns its result and the world that it leaves.
use redis_driver_for_per_wor.Prelude.{ℕ, List, Option, String, Result}
use redis_driver_for_per_wor.Json.{Json}
use redis_driver_for_per_wor.Service.Errors.{ServiceError}
use redis_driver_for_per_wor.Dto.Capabilities.{FormValues, InitializeResult}
use redis_driver_for_per_wor.Dto.Request.{
  OpenRequest, CloseRequest, CancelRequest, BuildTargetResult, OpenResult, StatementRequest,
  TableRequest, IndexChangeRequest, ReplaceIndexRequest, DropRequest, ForeignKeyChangeRequest,
  ReplaceForeignKeyRequest, ColumnChangeRequest, AddColumnRequest, BrowseTableRequest,
  WorkspaceViewRequest, EmptyRequest,
}
use redis_driver_for_per_wor.Dto.Result.{
  DatabaseInfo, SchemaObject, QueryResult, ColumnInfo, IndexInfo, ForeignKeyInfo,
  ReferencingForeignKeyInfo,
}
use redis_driver_for_per_wor.Dto.Write.{RowWriteRequest, RowWriteResponse}

-- A handler: the outcome of the future that it returns, once that is driven to its end.
abbrev pub Handler : Type 0 → Type 0 → Type 0 → Type 0 → Type 0
Handler S W A B = A → S → W → Result ServiceError B × W

pub record SessionService (S W : Type 0) : Type 0 where
  pub execute : Handler S W StatementRequest QueryResult
  pub execute_read_only : Handler S W StatementRequest QueryResult
  pub validate : Handler S W StatementRequest (Unit {0})
  pub list_schema : Handler S W EmptyRequest (List SchemaObject)
  pub table_info : Handler S W TableRequest (List ColumnInfo)
  pub list_indexes : Handler S W TableRequest (List IndexInfo)
  pub create_index : Handler S W IndexChangeRequest (Unit {0})
  pub replace_index : Handler S W ReplaceIndexRequest (Unit {0})
  pub drop_index : Handler S W DropRequest (Unit {0})
  pub list_foreign_keys : Handler S W TableRequest (List ForeignKeyInfo)
  pub list_referencing_foreign_keys : Handler S W TableRequest (List ReferencingForeignKeyInfo)
  pub list_foreign_keys_all : Handler S W EmptyRequest (List (String × List ForeignKeyInfo))
  pub list_indexes_all : Handler S W EmptyRequest (List (String × List IndexInfo))
  pub create_foreign_key : Handler S W ForeignKeyChangeRequest (Unit {0})
  pub replace_foreign_key : Handler S W ReplaceForeignKeyRequest (Unit {0})
  pub drop_foreign_key : Handler S W DropRequest (Unit {0})
  pub alter_column : Handler S W ColumnChangeRequest (Unit {0})
  pub drop_column : Handler S W DropRequest (Unit {0})
  pub add_column : Handler S W AddColumnRequest (Unit {0})
  pub browse_table : Handler S W BrowseTableRequest QueryResult
  pub row_write : Handler S W RowWriteRequest RowWriteResponse
  pub workspace_view : Handler S W WorkspaceViewRequest QueryResult
  pub close : S → W → W

pub record SessionFactory (S W : Type 0) : Type 0 where
  pub build_target : FormValues → BuildTargetResult
  pub open_session : String → W → Result ServiceError (DatabaseInfo × S) × W

-- serde's derived conversions, by type. A failed decode carries its text. The parameters of
-- `initialize` decode to the protocol version.
pub record Serde : Type 0 where
  pub initialize_params : Json → Option ℕ
  pub cancel_request : Json → Option CancelRequest
  pub form_values : Json → Result String FormValues
  pub open_request : Json → Result String OpenRequest
  pub close_request : Json → Result String CloseRequest
  pub statement_request : Json → Result String StatementRequest
  pub empty_request : Json → Result String EmptyRequest
  pub table_request : Json → Result String TableRequest
  pub index_change_request : Json → Result String IndexChangeRequest
  pub replace_index_request : Json → Result String ReplaceIndexRequest
  pub drop_request : Json → Result String DropRequest
  pub foreign_key_change_request : Json → Result String ForeignKeyChangeRequest
  pub replace_foreign_key_request : Json → Result String ReplaceForeignKeyRequest
  pub column_change_request : Json → Result String ColumnChangeRequest
  pub add_column_request : Json → Result String AddColumnRequest
  pub browse_table_request : Json → Result String BrowseTableRequest
  pub workspace_view_request : Json → Result String WorkspaceViewRequest
  pub row_write_request : Json → Result String RowWriteRequest
  pub initialize_result : InitializeResult → Json
  pub build_target_result : BuildTargetResult → Json
  pub open_result : OpenResult → Json
  pub unit : Unit {0} → Json
  pub query_result : QueryResult → Json
  pub schema_objects : List SchemaObject → Json
  pub columns : List ColumnInfo → Json
  pub indexes : List IndexInfo → Json
  pub foreign_keys : List ForeignKeyInfo → Json
  pub referencing_foreign_keys : List ReferencingForeignKeyInfo → Json
  pub foreign_keys_by_table : List (String × List ForeignKeyInfo) → Json
  pub indexes_by_table : List (String × List IndexInfo) → Json
  pub row_write_response : RowWriteResponse → Json
