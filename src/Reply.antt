-- ===== src/Reply.antt =====
-- Reply conversion of src/redis_service.rs: cells, rows and the bounded wire result.
pub mod Value
pub mod Bounds
pub mod Rows
use Prim.Native.String.{count}
use Prim.Native.String
use redis_driver_for_per_wor.Prelude.{
  ℕ, zero, suc, ◌%◌, ◌-◌, ◌^◌, Bool, List, [], ◌∷◌, Option, none, some, String, length, ltb, map,
  replicate, take, if◌then◌else◌,
}
use redis_driver_for_per_wor.Dto.Result.{Cell, QueryResult, StatementMetadata}

abbrev pub max_rows : ℕ
max_rows = 500

abbrev pub max_cell : ℕ
max_cell = 300

-- `chars().take(n)`
unfoldable pub take_chars : ℕ → String → String
take_chars zero s = String.[]
take_chars (suc n) String.[] = String.[]
take_chars (suc n) (String.◌∷◌ c s) = String.◌∷◌ c (take_chars n s)

unfoldable pub cap_cell : String → String
unfolding take_chars
cap_cell s = if ltb max_cell (count s) then String.◌++◌ (take_chars (max_cell - 1) s) "…" else s

abbrev pub cap_row : List Cell → List Cell
cap_row [] = []
cap_row (none ∷ row) = none ∷ cap_row row
cap_row (some s ∷ row) = some (cap_cell s) ∷ cap_row row

-- `duration` in nanoseconds, before its cast to `u64`.
unfoldable pub finalize :
    List String
    → List (List Cell)
    → ℕ
    → Bool
    → Option String
    → Option StatementMetadata
    → QueryResult
finalize columns full_rows duration has_more statement statement_metadata =
    let truncated = ltb max_rows (length full_rows) in
    let shown = if truncated then take max_rows full_rows else full_rows in
    record {
      columns = columns;
      column_types = replicate (length columns) "string";
      rows = map cap_row shown;
      untruncated_rows = shown;
      rows_affected = 0;
      has_more = has_more;
      duration_ns = duration % 2 ^ 64;
      truncated = truncated;
      document_ids = none;
      statement = statement;
      statement_metadata = statement_metadata;
    }
