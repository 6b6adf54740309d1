-- ===== src/Dto/Result.antt =====
-- src/dto/service.rs: query results, schema objects and browse options.
use redis_driver_for_per_wor.Prelude.{ℕ, Bool, List, Option, String}

pub record DatabaseInfo : Type 0 where
  pub product : String
  pub version : String

pub record SchemaObject : Type 0 where
  pub database : String
  pub type_ : String
  pub name : String
  pub row_count : Option ℕ

pub record StatementMetadata : Type 0 where
  pub language : String
  pub replayable : Bool
  pub sensitive : Bool

-- `StatementMetadata::redis`
abbrev pub redis_metadata : Bool → Bool → StatementMetadata
redis_metadata replayable sensitive = record {
  language = "redis";
  replayable = replayable;
  sensitive = sensitive;
}

-- Document bytes; `bytes` is the field `data`.
pub record DocumentPayload : Type 0 where
  pub format : String
  pub bytes : String

abbrev pub Cell : Type 0
Cell = Option String

pub record QueryResult : Type 0 where
  pub columns : List String
  pub column_types : List String
  pub rows : List (List Cell)
  pub untruncated_rows : List (List Cell)
  pub rows_affected : ℕ
  pub has_more : Bool
  pub duration_ns : ℕ
  pub truncated : Bool
  pub document_ids : Option (List DocumentPayload)
  pub statement : Option String
  pub statement_metadata : Option StatementMetadata

pub record ColumnInfo : Type 0 where
  pub name : String
  pub type_ : String
  pub attributes : String
  pub nullable : Bool
  pub default_value : Option String
  pub primary_key : ℕ
  pub indexes : List ℕ

pub record ColumnDef : Type 0 where
  pub name : String
  pub type_ : String
  pub nullable : Bool
  pub default_value : Option String
  pub attributes : Option String

pub record ColumnChange : Type 0 where
  pub previous_name : String
  pub name : String
  pub type_ : String
  pub nullable : Bool
  pub default_value : Option String
  pub attributes : Option String

pub record IndexInfo : Type 0 where
  pub name : String
  pub unique : Bool
  pub primary_key : Bool
  pub columns : List String

abbrev pub IndexChange : Type 0
IndexChange = IndexInfo

pub record ForeignKeyInfo : Type 0 where
  pub id : String
  pub columns : List String
  pub reference_table : String
  pub reference_columns : List String
  pub on_delete : String
  pub on_update : String

pub record ReferencingForeignKeyInfo : Type 0 where
  pub id : String
  pub columns : List String
  pub reference_table : String
  pub reference_columns : List String
  pub on_delete : String
  pub on_update : String
  pub table : String

pub record ForeignKeyChange : Type 0 where
  pub columns : List String
  pub reference_table : String
  pub reference_columns : List String
  pub on_delete : String
  pub on_update : String

pub record BrowseFilter : Type 0 where
  pub column : String
  pub operator : String
  pub value : String

pub record BrowseSort : Type 0 where
  pub column : String
  pub descending : Bool

pub record BrowseOptions : Type 0 where
  pub columns : Option (List String)
  pub filters : Option (List BrowseFilter)
  pub sorts : Option (List BrowseSort)
  pub offset : Option ℕ
  pub limit : Option ℕ
