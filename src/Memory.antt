-- ===== src/Memory.antt =====
-- The in-memory service of src/service.rs: its state, and the validation of its row writes.
pub mod Statement
pub mod Rows
pub mod Service
pub mod Fields
pub mod Entries
pub mod Update
pub mod Distinct
pub mod Listing
pub mod RoundTrip
use redis_driver_for_per_wor.Prelude.{
  ℕ, Bool, true, false, not, ◌&&◌, List, [], ◌∷◌, Option, none, some, String, ◌==◌, Result, ok, err,
  ◌>>=◌, ◌>>◌, ok_or, reject_if, if◌then◌else◌, map, replicate, length,
}
use redis_driver_for_per_wor.Assoc.{Assoc, lookup, insert}
use redis_driver_for_per_wor.Text.{format}
use redis_driver_for_per_wor.Text.Map.{Map}
use redis_driver_for_per_wor.Dto.Result.{Cell, QueryResult}
use redis_driver_for_per_wor.Dto.Write.{RowValue, kind, string}
use redis_driver_for_per_wor.Service.Errors.{ServiceError, validation}
use redis_driver_for_per_wor.Statement.{is_some}
use redis_driver_for_per_wor.RowWrite.{Changes, unwrap_or_default}

-- A `MemoryService`: its name, and where its store is.
pub record MemoryService : Type 0 where
  pub name : String
  pub store : ℕ

-- The stores of all services.
pub record Stores : Type 0 where
  pub stores : Assoc Map
  pub next_store : ℕ

abbrev map_or_empty : Option Map → Map
map_or_empty none = []
map_or_empty (some m) = m

unfoldable pub store_of : MemoryService → Stores → Map
store_of this w = map_or_empty (lookup this.store w.stores)

-- What is done under the lock of the store.
abbrev pub on_store : {B : Type 0} → (Map → B × Map) → MemoryService → Stores → B × Stores
on_store f this w =
    let (b, m) = f (store_of this w) in (b, record w { stores = insert this.store m w.stores })

unfoldable pub stub_result : List String → List (List Cell) → ℕ → QueryResult
stub_result columns rows rows_affected = record {
  columns = columns;
  column_types = map (λ column. "string") columns;
  rows = rows;
  untruncated_rows = rows;
  rows_affected = rows_affected;
  has_more = false;
  duration_ns = 0;
  truncated = false;
  document_ids = none;
  statement = none;
  statement_metadata = none;
}

unfoldable pub memory_string_cell : RowValue → Result ServiceError String
memory_string_cell cell =
    if not (kind cell.value == "string")
    then err (
        validation (
          format (
            "column "
            ∷ cell.name
            ∷ " must be a string value (got "
            ∷ kind cell.value
            ∷ " kind)"
            ∷ [])))
    else ok_or (string cell.value)
        (validation (format ("column " ∷ cell.name ∷ ": string kind without a payload" ∷ [])))

-- The loop of `memory_identity`.
unfoldable pub memory_identity_loop :
    List RowValue → Option String → Result ServiceError (Option String)
memory_identity_loop [] found = ok found
memory_identity_loop (cell ∷ cells) found = do
  reject_if (not (cell.name == "key"))
      (validation (format ("unknown key column: " ∷ cell.name ∷ [])))
  reject_if (is_some found) (validation "duplicate key fields")
  key ← memory_string_cell cell
  memory_identity_loop cells (some key)

unfoldable pub memory_identity : Option (List RowValue) → Result ServiceError String
memory_identity none = err (validation "missing key fields")
memory_identity (some cells) = do
  found ← memory_identity_loop cells none
  ok_or found (validation "missing key fields")

unfoldable pub memory_update_cell : RowValue → Changes → Result ServiceError Changes
memory_update_cell cell c =
    if cell.name == "key"
    then (do
      reject_if (is_some c.rename_to) (validation "duplicate column: key")
      dst ← memory_string_cell cell
      reject_if (dst == "") (validation "rename destination must not be empty")
      ok (record c { rename_to = some dst }))
    else if cell.name == "value"
    then (do
      reject_if (is_some c.value) (validation "duplicate column: value")
      text ← memory_string_cell cell
      ok (record c { value = some text }))
    else err (validation (format ("unknown column: " ∷ cell.name ∷ [])))

unfoldable pub memory_update_loop : List RowValue → Changes → Result ServiceError Changes
memory_update_loop [] c = ok c
memory_update_loop (cell ∷ cells) c = do c' ← memory_update_cell cell c; memory_update_loop cells c'

unfoldable pub memory_update_fields :
    Option (List RowValue) → Result ServiceError (Option String × Option String)
memory_update_fields none = err (validation "update requires a values payload")
memory_update_fields (some cells) = do
  c ← memory_update_loop cells (record { rename_to = none; value = none })
  reject_if (not (is_some c.rename_to) && not (is_some c.value))
      (validation "update requires at least one column change")
  ok (c.rename_to, c.value)

-- The variables of the loop over the insert cells.
pub record MemoryCells : Type 0 where
  pub key : Option String
  pub value : Option String

unfoldable pub memory_insert_cell : RowValue → MemoryCells → Result ServiceError MemoryCells
memory_insert_cell cell c =
    if cell.name == "key"
    then (do
      reject_if (is_some c.key) (validation "duplicate column: key")
      text ← memory_string_cell cell
      ok (record c { key = some text }))
    else if cell.name == "value"
    then (do
      reject_if (is_some c.value) (validation "duplicate column: value")
      text ← memory_string_cell cell
      ok (record c { value = some text }))
    else err (validation (format ("unknown column: " ∷ cell.name ∷ [])))

unfoldable pub memory_insert_loop : List RowValue → MemoryCells → Result ServiceError MemoryCells
memory_insert_loop [] c = ok c
memory_insert_loop (cell ∷ cells) c = do c' ← memory_insert_cell cell c; memory_insert_loop cells c'

unfoldable pub memory_insert_fields : Option (List RowValue) → Result ServiceError (String × String)
memory_insert_fields none = err (validation "insert requires a values payload")
memory_insert_fields (some cells) = do
  c ← memory_insert_loop cells (record { key = none; value = none })
  key ← ok_or c.key (validation "insert requires a key column")
  ok (key, unwrap_or_default c.value)
