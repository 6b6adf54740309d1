-- ===== src/Dto/Write.antt =====
-- src/dto/write.rs: row writes and document writes. A `float` payload is kept by its text.
use redis_driver_for_per_wor.Prelude.{
  ℕ, ℤ, Bool, List, Option, none, some, String, ◌==◌, if◌then◌else◌,
}
use redis_driver_for_per_wor.Text.{trim}
use redis_driver_for_per_wor.Dto.Result.{DocumentPayload, StatementMetadata}

mutual
  pub data Value : Type 0 where
    value :
        String
        → Option String
        → Option Bool
        → Option ℤ
        → Option String
        → Option String
        → Option String
        → Option String
        → Values
        → NamedValues
        → Value

  -- An absent `array` and its elements.
  pub data Values : Type 0 where
    no_array : Values
    end_array : Values
    element : Value → Values → Values

  -- An absent `object` and its members.
  pub data NamedValues : Type 0 where
    no_object : NamedValues
    end_object : NamedValues
    named : String → Value → NamedValues → NamedValues

-- The fields `kind` and `string`.
abbrev pub kind : Value → String
kind (value k s b i f bytes d t a o) = k

abbrev pub string : Value → Option String
string (value k s b i f bytes d t a o) = s

pub record RowValue : Type 0 where
  pub name : String
  pub value : Value

pub record RowWriteRequest : Type 0 where
  pub operation : String
  pub table : String
  pub key : Option (List RowValue)
  pub values : Option (List RowValue)

pub record RowsAffected : Type 0 where
  pub rows_affected : ℕ
  pub statement : String
  pub statement_metadata : Option StatementMetadata

-- A blank statement carries no metadata.
unfoldable pub with_statement : ℕ → String → StatementMetadata → RowsAffected
with_statement rows_affected statement metadata = record {
  rows_affected = rows_affected;
  statement = statement;
  statement_metadata = if trim statement == "" then none else some metadata;
}

pub record RowWriteResponse : Type 0 where
  pub result : RowsAffected

-- The document writes, which the driver does not advertise: no handler takes or makes one.
record DocumentWriteRequest : Type 0 where
  operation : String
  collection : String
  id : Option DocumentPayload
  document : Option DocumentPayload

record DocumentWriteResponse : Type 0 where
  result : RowsAffected
  document : Option DocumentPayload
