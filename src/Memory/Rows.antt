-- ===== src/Memory/Rows.antt =====
-- The row writes and the browse of the in-memory service of src/service.rs, on its store.
use redis_driver_for_per_wor.Prelude.{
  ℕ, Bool, false, not, ◌&&◌, List, [], ◌∷◌, Option, none, some, String, ◌==◌, Result, ok, err,
  if◌then◌else◌, map, take, drop, length,
}
use redis_driver_for_per_wor.Text.{format}
use redis_driver_for_per_wor.Text.Map.{Map, get, insert, remove}
use redis_driver_for_per_wor.Text.Sort.{sort_by}
use redis_driver_for_per_wor.Text.SortBy.{pair_leb}
use redis_driver_for_per_wor.Dto.Result.{BrowseOptions, Cell, QueryResult}
use redis_driver_for_per_wor.Dto.Write.{RowWriteRequest}
use redis_driver_for_per_wor.Service.Errors.{ServiceError, operation, unsupported, validation}
use redis_driver_for_per_wor.Statement.{is_some}
use redis_driver_for_per_wor.Redis.Target.{unwrap_or}
use redis_driver_for_per_wor.Memory.{
  memory_identity, memory_insert_fields, memory_update_fields, stub_result,
}
use redis_driver_for_per_wor.Memory.Statement.{removed}

-- The affected count, and the store after the write.
abbrev pub Written : Type 0
Written = Result ServiceError ℕ × Map

-- A write goes on with what was validated; a failed validation leaves the store.
abbrev pub validated : {A : Type 0} → Result ServiceError A → (A → Written) → Map → Written
validated (err e) f m = (err e, m)
validated (ok a) f m = f a

unfoldable pub insert_entry : String → String → Map → Written
insert_entry key value m =
    if is_some (get key m)
    then (err (operation (format ("key already exists: " ∷ key ∷ []))), m)
    else (ok 1, insert key value m)

-- `value.or(old_value)`
abbrev pub or_else : Option String → Option String → Option String
or_else none old = old
or_else (some v) old = some v

-- The row at its destination, if there is a value for it.
abbrev pub reinsert : String → Option String → Map → Map
reinsert destination none m = m
reinsert destination (some stored) m = insert destination stored m

abbrev pub is_taken : String → Option String → Map → Bool
is_taken identity none m = false
is_taken identity (some dst) m = not (dst == identity) && is_some (get dst m)

unfoldable pub update_entry : String → Option String → Option String → Map → Written
update_entry identity rename_to value m =
    let destination = unwrap_or rename_to identity in
    if not (is_some (get identity m))
    then (err (operation (format ("key not found: " ∷ identity ∷ []))), m)
    else if is_taken identity rename_to m
    then (err (operation (format ("destination key already exists: " ∷ destination ∷ []))), m)
    else (ok 1, reinsert destination (or_else value (get identity m)) (remove identity m))

unfoldable pub delete_entry : String → Map → Written
delete_entry identity m = (ok (removed (get identity m)), remove identity m)

unfoldable pub write_row : RowWriteRequest → Map → Written
write_row request m =
    if not (request.table == "kv")
    then (err (unsupported (format ("unknown table: " ∷ request.table ∷ []))), m)
    else if request.operation == "insert"
    then validated (memory_insert_fields request.values) (λ cells. insert_entry cells.0 cells.1 m) m
    else if request.operation == "update"
    then validated (memory_identity request.key)
        (λ identity.
          validated (memory_update_fields request.values)
            (λ changes. update_entry identity changes.0 changes.1 m) m)
        m
    else if request.operation == "delete"
    then validated (memory_identity request.key) (λ identity. delete_entry identity m) m
    else (
      err (validation (format ("unsupported row_write operation: " ∷ request.operation ∷ []))),
      m,
    )

abbrev pub offset_or_zero : Option ℕ → ℕ
offset_or_zero none = 0
offset_or_zero (some n) = n

abbrev pub limit_or : Option ℕ → ℕ → ℕ
limit_or none all = all
limit_or (some n) all = n

abbrev pub entry_row : String × String → List Cell
entry_row (key, value) = some key ∷ some value ∷ []

-- The page of the sorted entries.
unfoldable pub browse_entries : BrowseOptions → Map → QueryResult
browse_entries options m =
    let entries = sort_by pair_leb m in
    let page =
      take (limit_or options.limit (length entries))
        (drop (offset_or_zero options.offset) entries) in
    stub_result ("key" ∷ "value" ∷ []) (map entry_row page) 0
