-- ===== src/Tests/MemoryRuns.antt =====
-- Runs of the in-memory service of src/service.rs.
use redis_driver_for_per_wor.Prelude.{
  ◌≡◌, ◌↔◌, refl, true, false, List, [], ◌∷◌, none, some, ok, ◌==◌, if◌then◌else◌,
}
use redis_driver_for_per_wor.Dto.Request.{BrowseTableRequest}
use redis_driver_for_per_wor.Dto.Result.{BrowseOptions, QueryResult}
use redis_driver_for_per_wor.Dto.Write.{RowValue, RowWriteRequest}
use redis_driver_for_per_wor.RowWrite.{
  parse_identity, parse_insert_values, parse_row_write, parse_update_values, require_string,
  update_cell,
}
use redis_driver_for_per_wor.Text.{is_whitespace, upper}
use redis_driver_for_per_wor.Text.Map.{Map, get}
use redis_driver_for_per_wor.Text.Words.{join_words}
use redis_driver_for_per_wor.Memory.{
  MemoryService, Stores, store_of, memory_identity, memory_insert_fields, memory_update_fields,
  stub_result,
}
use redis_driver_for_per_wor.Memory.Listing.{IsListing, run-IsListing}
use redis_driver_for_per_wor.Memory.Fields.{memory_fields_mirror}
use redis_driver_for_per_wor.Memory.RoundTrip.{Returns, run_statement-set_get_del}
use redis_driver_for_per_wor.Memory.Rows.{write_row}
use redis_driver_for_per_wor.Memory.Service.{memory_factory, memory_service}
use redis_driver_for_per_wor.Memory.Statement.{run_statement}
use redis_driver_for_per_wor.Memory.Entries.{script_update}
use redis_driver_for_per_wor.Memory.Update.{Agrees, write_row-Agrees}
use redis_driver_for_per_wor.Server.{new_server}
use redis_driver_for_per_wor.Server.Schedule.{Event, finish, flush, receive, run}
use redis_driver_for_per_wor.Tests.Fixtures.{execute, initialize, open_first, serde}
use redis_driver_for_per_wor.Tests.Writes.{text}

abbrev both_changes : List RowValue
both_changes = text "key" "b" ∷ text "value" "2" ∷ []

memory_fields_mirror_example :
    (memory_identity (some (text "key" "a" ∷ [])) ≡ parse_identity (some (text "key" "a" ∷ [])))
    × ((memory_update_fields (some both_changes) ≡ ok (some "b", some "2"))
        ↔ (parse_update_values both_changes ≡ ok (some "b", some "2")))
    × (memory_insert_fields (some both_changes) ≡ parse_insert_values both_changes)
memory_fields_mirror_example =
    memory_fields_mirror (some (text "key" "a" ∷ [])) both_changes both_changes (some "b")
      (some "2") (refl, (refl, tt))

abbrev one_entry : Map
one_entry = ("a", "1") ∷ []

abbrev rename_request : RowWriteRequest
rename_request = record {
  operation = "update";
  table = "kv";
  key = some (text "key" "a" ∷ []);
  values = some (text "key" "b" ∷ text "value" "2" ∷ []);
}

write_row-Agrees_example :
    Agrees (script_update "a" (some "b") (some "2") one_entry) (write_row rename_request one_entry)
unfolding parse_row_write parse_identity require_string parse_update_values update_cell
write_row-Agrees_example =
    write_row-Agrees rename_request "a" (some "b") (some "2") one_entry refl refl refl

abbrev after_set : Map
after_set = (run_statement false true (join_words ("set" ∷ "a" ∷ "x" ∷ "y" ∷ [])) one_entry).1

run_statement-set_get_del_example :
    ((run_statement false true (join_words ("set" ∷ "a" ∷ "x" ∷ "y" ∷ [])) one_entry).0
      ≡ ok (stub_result [] [] 1))
    × Returns "b"
        (if "b" == "a" then some "x y" else get "b" one_entry)
        (run_statement false false (join_words ("GET" ∷ "b" ∷ [])) after_set)
    × ((run_statement false true (join_words ("Del" ∷ "a" ∷ [])) after_set).0
        ≡ ok (stub_result [] [] 1))
    × Returns "b" (if "b" == "a" then none else get "b" one_entry) (
        run_statement false false
          (join_words ("GET" ∷ "b" ∷ []))
          (run_statement false true (join_words ("Del" ∷ "a" ∷ [])) after_set).1)
unfolding is_whitespace upper
run_statement-set_get_del_example =
    run_statement-set_get_del false false "set" "GET" "Del" "a" "b" ("x" ∷ "y" ∷ []) one_entry refl
      refl refl (refl, (refl, (refl, (refl, (refl, (refl, (refl, tt)))))))

abbrev stores : Stores
stores = record { stores = (0, one_entry) ∷ []; next_store = 1 }

-- Open a second session, start a statement on it and let it run.
abbrev events : List (Event Stores)
events =
    receive (some initialize)
    ∷ receive (some open_first)
    ∷ receive (some (execute 3))
    ∷ finish 0
    ∷ flush
    ∷ []

abbrev later : Stores
later = (run memory_factory (memory_service false) serde events (new_server stores)).world

abbrev session : MemoryService
session = record { name = "kv"; store = 0 }

abbrev first_page : BrowseOptions
first_page = record { columns = none; filters = none; sorts = none; offset = none; limit = some 10 }

abbrev browse : BrowseTableRequest
browse = record { table = "kv"; options = first_page }

run-IsListing_example :
    (result : QueryResult) × (((memory_service false).browse_table browse session later).0
      ≡ ok result)
    × IsListing first_page (store_of session later) result
unfolding get
run-IsListing_example =
    run-IsListing serde false events (new_server stores) session browse
      (tt, (tt, (tt, (tt, (tt, tt))))) ((refl, tt), tt)
