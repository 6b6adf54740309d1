-- ===== src/Dto/Request.antt =====
-- src/dto/request.rs: the parameters of the session handlers, without `session_id`.
use redis_driver_for_per_wor.Prelude.{ℕ, Bool, String}
use redis_driver_for_per_wor.Dto.Capabilities.{WorkspaceViewScope}
use redis_driver_for_per_wor.Dto.Result.{
  BrowseOptions, ColumnChange, ColumnDef, DatabaseInfo, ForeignKeyChange, IndexChange,
}

pub record OpenRequest : Type 0 where
  pub target : String

pub record CloseRequest : Type 0 where
  pub session_id : ℕ

pub record CancelRequest : Type 0 where
  pub id : ℕ

pub record BuildTargetResult : Type 0 where
  pub target : String
  pub ok : Bool

pub record OpenResult : Type 0 where
  pub session_id : ℕ
  pub info : DatabaseInfo

pub record StatementRequest : Type 0 where
  pub statement : String

pub record TableRequest : Type 0 where
  pub table : String

pub record IndexChangeRequest : Type 0 where
  pub table : String
  pub change : IndexChange

pub record ReplaceIndexRequest : Type 0 where
  pub table : String
  pub old_name : String
  pub change : IndexChange

pub record DropRequest : Type 0 where
  pub table : String
  pub name : String

pub record ForeignKeyChangeRequest : Type 0 where
  pub table : String
  pub change : ForeignKeyChange

pub record ReplaceForeignKeyRequest : Type 0 where
  pub table : String
  pub old_name : String
  pub change : ForeignKeyChange

pub record ColumnChangeRequest : Type 0 where
  pub table : String
  pub change : ColumnChange

pub record AddColumnRequest : Type 0 where
  pub table : String
  pub def : ColumnDef

pub record BrowseTableRequest : Type 0 where
  pub table : String
  pub options : BrowseOptions

pub record WorkspaceViewTarget : Type 0 where
  pub kind : WorkspaceViewScope
  pub database : String
  pub schema : String
  pub table : String

pub record WorkspaceViewRequest : Type 0 where
  pub view_id : String
  pub target : WorkspaceViewTarget

pub record EmptyRequest : Type 0 where
