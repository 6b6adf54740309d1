-- ===== src/Tests/Writes.antt =====
-- Row writes of src/redis_service.rs.
use redis_driver_for_per_wor.Prelude.{◌≡◌, ◌↔◌, [], ◌∷◌, none, some, String, ok}
use redis_driver_for_per_wor.Dto.Write.{RowValue, RowWriteRequest, no_array, no_object, value}
use redis_driver_for_per_wor.RowWrite.{
  Cells, parse_identity, parse_insert_values, parse_row_write, parse_update_values, update,
  unwrap_or_default,
}
use redis_driver_for_per_wor.RowWrite.Identity.{Holds, parse_identity_iff}
use redis_driver_for_per_wor.RowWrite.Insert.{Records, no_cells, parse_insert_values_iff}
use redis_driver_for_per_wor.RowWrite.Request.{Accepts, parse_row_write_iff}
use redis_driver_for_per_wor.RowWrite.Update.{Form, parse_update_values_iff}

abbrev pub text : String → String → RowValue
text column s = record {
  name = column;
  value = value "string" (some s) none none none none none none no_array no_object;
}

parse_update_values_iff_example :
    (parse_update_values (text "value" "v2" ∷ text "key" "user:2" ∷ [])
      ≡ ok (some "user:2", some "v2"))
    ↔ Form (text "value" "v2" ∷ text "key" "user:2" ∷ []) (some "user:2") (some "v2")
parse_update_values_iff_example =
    parse_update_values_iff (text "value" "v2" ∷ text "key" "user:2" ∷ []) (some "user:2")
      (some "v2")

parse_identity_iff_example :
    (parse_identity (some (text "key" "user:1" ∷ [])) ≡ ok "user:1")
    ↔ ((cell : RowValue) × (text "key" "user:1" ∷ [] ≡ cell ∷ []) × Holds "key" "user:1" cell)
parse_identity_iff_example = parse_identity_iff (text "key" "user:1" ∷ []) "user:1"

parse_insert_values_iff_example :
    (parse_insert_values (text "type" "string" ∷ text "key" "user:1" ∷ []) ≡ ok ("user:1", "")) ↔ (
      (c : Cells) × Records (text "type" "string" ∷ text "key" "user:1" ∷ []) no_cells c
      × (c.key ≡ some "user:1")
      × (unwrap_or_default c.value ≡ ""))
parse_insert_values_iff_example =
    parse_insert_values_iff (text "type" "string" ∷ text "key" "user:1" ∷ []) "user:1" ""

abbrev rename_request : RowWriteRequest
rename_request = record {
  operation = "update";
  table = "keys";
  key = some (text "key" "user:1" ∷ []);
  values = some (text "key" "user:2" ∷ []);
}

parse_row_write_iff_example :
    (parse_row_write rename_request ≡ ok (update "user:1" (some "user:2") none)) ↔ (
      (rename_request.table ≡ "keys")
      × Accepts rename_request (update "user:1" (some "user:2") none))
parse_row_write_iff_example =
    parse_row_write_iff rename_request (update "user:1" (some "user:2") none)
