-- ===== src/RowWrite.antt =====
-- Row writes of src/redis_service.rs: the validation of a request against the `keys` table.
pub mod Identity
pub mod Update
pub mod Insert
pub mod Request
use redis_driver_for_per_wor.Prelude.{
  Bool, true, false, not, ◌&&◌, List, [], ◌∷◌, Option, none, some, String, ◌==◌, Result, ok, err,
  ◌>>=◌, ◌>>◌, ok_or, reject_if, if◌then◌else◌,
}
use redis_driver_for_per_wor.Text.{format}
use redis_driver_for_per_wor.Service.Errors.{ServiceError, validation, unsupported}
use redis_driver_for_per_wor.Dto.Write.{Value, RowValue, RowWriteRequest, kind, string}
use redis_driver_for_per_wor.Statement.{keys_table, is_some}

pub data RowWrite : Type 0 where
  delete : String → RowWrite
  update : String → Option String → Option String → RowWrite
  insert : String → String → RowWrite

-- One cell must be a plain string.
unfoldable pub require_string : RowValue → Result ServiceError String
require_string cell =
    if not (kind cell.value == "string")
    then err (
        validation (
          format (
            "column "
            ∷ cell.name
            ∷ " must be a string value (got "
            ∷ kind cell.value
            ∷ " kind)"
            ∷ [])))
    else ok_or (string cell.value)
        (validation (format ("column " ∷ cell.name ∷ ": string kind without a payload" ∷ [])))

-- The loop of `parse_identity`.
unfoldable pub identity_loop : List RowValue → Option String → Result ServiceError (Option String)
identity_loop [] found = ok found
identity_loop (cell ∷ cells) found = do
  reject_if (not (cell.name == "key"))
      (validation (format ("unknown key column: " ∷ cell.name ∷ [])))
  reject_if (is_some found) (validation "duplicate key fields")
  key ← require_string cell
  identity_loop cells (some key)

unfoldable pub parse_identity : Option (List RowValue) → Result ServiceError String
unfolding identity_loop
parse_identity none = err (validation "missing key fields")
parse_identity (some cells) = do
  found ← identity_loop cells none
  ok_or found (validation "missing key fields")

-- The variables of the loop over the changed columns.
pub record Changes : Type 0 where
  pub rename_to : Option String
  pub value : Option String

unfoldable pub update_cell : RowValue → Changes → Result ServiceError Changes
update_cell cell c =
    if cell.name == "key"
    then (do
      reject_if (is_some c.rename_to) (validation "duplicate column: key")
      destination ← require_string cell
      reject_if (destination == "") (validation "rename destination must not be empty")
      ok (record c { rename_to = some destination }))
    else if cell.name == "value"
    then (do
      reject_if (is_some c.value) (validation "duplicate column: value")
      text ← require_string cell
      ok (record c { value = some text }))
    else if cell.name == "type"
    then err (validation "column type is immutable")
    else err (validation (format ("unknown column: " ∷ cell.name ∷ [])))

unfoldable pub update_loop : List RowValue → Changes → Result ServiceError Changes
update_loop [] c = ok c
update_loop (cell ∷ cells) c = do c' ← update_cell cell c; update_loop cells c'

unfoldable pub parse_update_values :
    List RowValue → Result ServiceError (Option String × Option String)
unfolding update_loop
parse_update_values cells = do
  c ← update_loop cells (record { rename_to = none; value = none })
  reject_if (not (is_some c.rename_to) && not (is_some c.value))
      (validation "update requires at least one column change")
  ok (c.rename_to, c.value)

-- The variables of the loop over the insert cells.
pub record Cells : Type 0 where
  pub key : Option String
  pub value : Option String
  pub type_seen : Bool

unfoldable pub insert_type : RowValue → Result ServiceError String
insert_type cell =
    if kind cell.value == "string"
    then ok_or (string cell.value) (validation "column type: string kind without a payload")
    else err (
        validation
          (format ("column type must be a string value (got " ∷ kind cell.value ∷ " kind)" ∷ [])))

unfoldable pub insert_cell : RowValue → Cells → Result ServiceError Cells
insert_cell cell c =
    if cell.name == "key"
    then (do
      reject_if (is_some c.key) (validation "duplicate column: key")
      text ← require_string cell
      ok (record c { key = some text }))
    else if cell.name == "value"
    then (do
      reject_if (is_some c.value) (validation "duplicate column: value")
      text ← require_string cell
      ok (record c { value = some text }))
    else if cell.name == "type"
    then (do
      reject_if c.type_seen (validation "duplicate column: type")
      type_ ← insert_type cell
      reject_if (not (type_ == "") && not (type_ == "string")) (
          validation
            (format ("cannot insert: type " ∷ type_ ∷ " is not supported (only string)" ∷ [])))
      ok (record c { type_seen = true }))
    else err (validation (format ("unknown column: " ∷ cell.name ∷ [])))

unfoldable pub insert_loop : List RowValue → Cells → Result ServiceError Cells
insert_loop [] c = ok c
insert_loop (cell ∷ cells) c = do c' ← insert_cell cell c; insert_loop cells c'

abbrev pub unwrap_or_default : Option String → String
unwrap_or_default none = ""
unwrap_or_default (some s) = s

unfoldable pub parse_insert_values : List RowValue → Result ServiceError (String × String)
unfolding insert_loop
parse_insert_values cells = do
  c ← insert_loop cells (record { key = none; value = none; type_seen = false })
  key ← ok_or c.key (validation "insert requires a key column")
  ok (key, unwrap_or_default c.value)

-- `values.is_some_and(|v| !v.is_empty())`
abbrev pub has_values : Option (List RowValue) → Bool
has_values none = false
has_values (some []) = false
has_values (some (cell ∷ cells)) = true

unfoldable pub parse_row_write : RowWriteRequest → Result ServiceError RowWrite
parse_row_write request =
    if not (request.table == keys_table)
    then err (unsupported (format ("unknown table: " ∷ request.table ∷ [])))
    else if request.operation == "delete"
    then (do
      reject_if (has_values request.values) (validation "delete does not accept a values payload")
      key ← parse_identity request.key
      ok (delete key))
    else if request.operation == "update"
    then (do
      key ← parse_identity request.key
      values ← ok_or request.values (validation "update requires a values payload")
      changes ← parse_update_values values
      ok (update key changes.0 changes.1))
    else if request.operation == "insert"
    then (do
      reject_if (is_some request.key) (validation "insert does not accept a key identity")
      values ← ok_or request.values (validation "insert requires a values payload")
      cells ← parse_insert_values values
      ok (insert cells.0 cells.1))
    else err (validation (format ("unsupported row_write operation: " ∷ request.operation ∷ [])))
