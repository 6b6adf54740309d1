-- ===== src/Memory/Distinct.antt =====
-- The stores of the in-memory service in src/service.rs hold one entry per key, under every run of
-- the server.
use redis_driver_for_per_wor.Prelude.{
  ℕ, Bool, true, false, List, [], ◌∷◌, Option, none, some, String, Result, ok, err, inl, inr,
  Bool-cases, All, eqb,
}
use redis_driver_for_per_wor.Assoc.{Assoc, insert, lookup, remove}
use redis_driver_for_per_wor.Text.Map.{IsDistinct, Map, insert-IsDistinct, remove-IsDistinct}
use redis_driver_for_per_wor.Text.Words.{join_words, split_whitespace}
use redis_driver_for_per_wor.Service.Errors.{ServiceError}
use redis_driver_for_per_wor.Service.Handlers.{Serde}
use redis_driver_for_per_wor.Dto.Write.{RowWriteRequest}
use redis_driver_for_per_wor.Memory.{MemoryService, Stores, map_or_empty, on_store, store_of}
use redis_driver_for_per_wor.Memory.Rows.{
  Written, browse_entries, delete_entry, insert_entry, reinsert, update_entry, validated, write_row,
}
use redis_driver_for_per_wor.Memory.Service.{
  memory_factory, memory_service, memory_view, new_memory_service, open_memory, written_response,
}
use redis_driver_for_per_wor.Memory.Statement.{
  del_statement, execute_words, get_statement, run_statement, set_statement, sleep_statement,
}
use redis_driver_for_per_wor.Server.{Server}
use redis_driver_for_per_wor.Server.Schedule.{Event, run}
use redis_driver_for_per_wor.Server.Handled.{ServiceKeeps, branch}
use redis_driver_for_per_wor.Server.World.{Leaves, run-world}

-- Every store has one entry per key.
abbrev pub AllDistinct : Stores → Type 0
AllDistinct w = All (λ (entry : ℕ × Map). IsDistinct entry.1) w.stores

All-remove :
    (n : ℕ) (stores : Assoc Map)
    → All (λ (entry : ℕ × Map). IsDistinct entry.1) stores
    → All (λ (entry : ℕ × Map). IsDistinct entry.1) (remove n stores)
unfolding remove
All-remove n [] h = tt
All-remove n ((k, m) ∷ stores) h = elim (Bool-cases (eqb k n)) [
  | inl same ↦ rw (remove, same) (All-remove n stores h.1)
  | inr other ↦ rw (remove, other) (h.0, All-remove n stores h.1)
]

pub lookup-IsDistinct :
    (n : ℕ) (stores : Assoc Map)
    → All (λ (entry : ℕ × Map). IsDistinct entry.1) stores
    → IsDistinct (map_or_empty (lookup n stores))
unfolding lookup
lookup-IsDistinct n [] h = tt
lookup-IsDistinct n ((k, m) ∷ stores) h = elim (Bool-cases (eqb k n)) [
  | inl same ↦ rw (lookup, same) h.0
  | inr other ↦ rw (lookup, other) (lookup-IsDistinct n stores h.1)
]

set_statement-IsDistinct :
    (arguments : List String) (m : Map) → IsDistinct m → IsDistinct (set_statement arguments m).1
set_statement-IsDistinct [] m h = h
set_statement-IsDistinct (key ∷ value) m h = insert-IsDistinct key (join_words value) m h

get_statement-IsDistinct :
    (arguments : List String) (m : Map) → IsDistinct m → IsDistinct (get_statement arguments m).1
get_statement-IsDistinct [] m h = h
get_statement-IsDistinct (key ∷ rest) m h = h

del_statement-IsDistinct :
    (arguments : List String) (m : Map) → IsDistinct m → IsDistinct (del_statement arguments m).1
del_statement-IsDistinct [] m h = h
del_statement-IsDistinct (key ∷ rest) m h = remove-IsDistinct key m h

sleep_statement-IsDistinct :
    (cancelled : Bool) (arguments : List String) (m : Map)
    → IsDistinct m
    → IsDistinct (sleep_statement cancelled arguments m).1
sleep_statement-IsDistinct true arguments m h = h
sleep_statement-IsDistinct false arguments m h = h

execute_words-IsDistinct :
    (cancelled writable : Bool) (statement : String) (parts : List String) (m : Map)
    → IsDistinct m
    → IsDistinct (execute_words cancelled writable statement parts m).1
unfolding execute_words
execute_words-IsDistinct cancelled writable statement parts m h =
    search
      (
        branch IsDistinct,
        set_statement-IsDistinct,
        get_statement-IsDistinct,
        del_statement-IsDistinct,
        sleep_statement-IsDistinct,
      )
      depth 12

reinsert-IsDistinct :
    (destination : String) (stored : Option String) (m : Map)
    → IsDistinct m
    → IsDistinct (reinsert destination stored m)
reinsert-IsDistinct destination none m h = h
reinsert-IsDistinct destination (some v) m h = insert-IsDistinct destination v m h

insert_entry-IsDistinct :
    (key value : String) (m : Map) → IsDistinct m → IsDistinct (insert_entry key value m).1
unfolding insert_entry
insert_entry-IsDistinct key value m h = search (branch IsDistinct, insert-IsDistinct)

update_entry-IsDistinct :
    (identity : String) (rename_to value : Option String) (m : Map)
    → IsDistinct m
    → IsDistinct (update_entry identity rename_to value m).1
unfolding update_entry
update_entry-IsDistinct identity rename_to value m h =
    search (branch IsDistinct, reinsert-IsDistinct, remove-IsDistinct)

delete_entry-IsDistinct :
    (identity : String) (m : Map) → IsDistinct m → IsDistinct (delete_entry identity m).1
unfolding delete_entry
delete_entry-IsDistinct identity m h = remove-IsDistinct identity m h

validated-IsDistinct :
    {A : Type 0} (r : Result ServiceError A) (f : A → Written) (m : Map)
    → IsDistinct m
    → ((a : A) → IsDistinct (f a).1)
    → IsDistinct (validated r f m).1
validated-IsDistinct (ok a) f m h k = k a
validated-IsDistinct (err e) f m h k = h

write_row-IsDistinct :
    (request : RowWriteRequest) (m : Map) → IsDistinct m → IsDistinct (write_row request m).1
unfolding write_row
write_row-IsDistinct request m h =
    search
      (
        branch IsDistinct,
        validated-IsDistinct,
        insert_entry-IsDistinct,
        update_entry-IsDistinct,
        delete_entry-IsDistinct,
      )
      depth 20

written_response-IsDistinct :
    (written : Written) → IsDistinct written.1 → IsDistinct (written_response written).1
written_response-IsDistinct (ok n, m) h = h
written_response-IsDistinct (err e, m) h = h

on_store-AllDistinct :
    {B : Type 0} (f : Map → B × Map) (this : MemoryService) (w : Stores)
    → ((m : Map) → IsDistinct m → IsDistinct (f m).1)
    → AllDistinct w
    → AllDistinct (on_store f this w).1
unfolding store_of insert
on_store-AllDistinct f this w k h =
    (k _ (lookup-IsDistinct this.store w.stores h), All-remove this.store w.stores h)

-- A handler that only reads.
abbrev read : {A : Type 0} → (Map → Result ServiceError A) → Map → Result ServiceError A × Map
read f m = (f m, m)

memory_service-Keeps : (cancelled : Bool) → ServiceKeeps AllDistinct (memory_service cancelled)
unfolding memory_service run_statement
memory_service-Keeps cancelled = record {
  execute = λ r this w.
      on_store-AllDistinct (run_statement cancelled true r.statement) this w
        (execute_words-IsDistinct cancelled true r.statement (split_whitespace r.statement));
  execute_read_only = λ r this w.
      on_store-AllDistinct (run_statement cancelled false r.statement) this w
        (execute_words-IsDistinct cancelled false r.statement (split_whitespace r.statement));
  validate = λ r this w h. h;
  list_schema = λ r this w h. h;
  table_info = λ r this w h. h;
  list_indexes = λ r this w h. h;
  create_index = λ r this w h. h;
  replace_index = λ r this w h. h;
  drop_index = λ r this w h. h;
  list_foreign_keys = λ r this w h. h;
  list_referencing_foreign_keys = λ r this w h. h;
  list_foreign_keys_all = λ r this w h. h;
  list_indexes_all = λ r this w h. h;
  create_foreign_key = λ r this w h. h;
  replace_foreign_key = λ r this w h. h;
  drop_foreign_key = λ r this w h. h;
  alter_column = λ r this w h. h;
  drop_column = λ r this w h. h;
  add_column = λ r this w h. h;
  browse_table = λ r this w.
      on_store-AllDistinct (read (λ m. ok (browse_entries r.options m))) this w (λ m d. d);
  row_write = λ r this w.
      on_store-AllDistinct (λ m. written_response (write_row r m)) this w
        (λ m d. written_response-IsDistinct (write_row r m) (write_row-IsDistinct r m d));
  workspace_view =
      λ r this w. on_store-AllDistinct (read (memory_view cancelled r)) this w (λ m d. d);
  close = λ this w h. h;
}

open_memory-AllDistinct :
    (target : String) (w : Stores) → AllDistinct w → AllDistinct (open_memory target w).1
unfolding open_memory new_memory_service insert
open_memory-AllDistinct target w h = (tt, All-remove w.next_store w.stores h)

-- Whatever the server runs on the in-memory service, if every store holds at most one entry per key
-- before, then every store, those of the sessions that are opened included, does so afterwards. It
-- needs the dropped handlers to leave such stores as well.
pub run-AllDistinct :
    (serde : Serde) (cancelled : Bool) (events : List (Event Stores))
    (s : Server MemoryService Stores)
    → All (Leaves AllDistinct) events
    → AllDistinct s.world
    → AllDistinct (run memory_factory (memory_service cancelled) serde events s).world
unfolding memory_factory
run-AllDistinct serde cancelled events s =
    run-world AllDistinct memory_factory (memory_service cancelled) serde open_memory-AllDistinct
      (memory_service-Keeps cancelled) events s
