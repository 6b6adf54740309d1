-- ===== src/Tests/Fixtures.antt =====
-- A small backend and codec to run src/server.rs against: a session is a number, and the world
-- counts what was done to it.
use redis_driver_for_per_wor.Prelude.{
  ℕ, ◌+◌, List, [], ◌∷◌, Option, none, some, String, Result, ok, err, true,
}
use redis_driver_for_per_wor.Json.{
  Json, null, number, string, object, no_members, member, unsigned, get, as_object, as_u64,
}
use redis_driver_for_per_wor.Service.Errors.{ServiceError, operation}
use redis_driver_for_per_wor.Service.Handlers.{SessionService, SessionFactory, Serde}
use redis_driver_for_per_wor.Server.{Server, Task, new_server}
use redis_driver_for_per_wor.Server.Schedule.{Event, receive, flush, run}

abbrev down : {B : Type 0} → ℕ → Result ServiceError B × ℕ
down w = (err (operation "down"), w + 1)

abbrev pub service : SessionService ℕ ℕ
service = record {
  execute = λ request session w. down w;
  execute_read_only = λ request session w. down w;
  validate = λ request session w. down w;
  list_schema = λ request session w. down w;
  table_info = λ request session w. down w;
  list_indexes = λ request session w. down w;
  create_index = λ request session w. down w;
  replace_index = λ request session w. down w;
  drop_index = λ request session w. down w;
  list_foreign_keys = λ request session w. down w;
  list_referencing_foreign_keys = λ request session w. down w;
  list_foreign_keys_all = λ request session w. down w;
  list_indexes_all = λ request session w. down w;
  create_foreign_key = λ request session w. down w;
  replace_foreign_key = λ request session w. down w;
  drop_foreign_key = λ request session w. down w;
  alter_column = λ request session w. down w;
  drop_column = λ request session w. down w;
  add_column = λ request session w. down w;
  browse_table = λ request session w. down w;
  row_write = λ request session w. down w;
  workspace_view = λ request session w. down w;
  close = λ session w. w + 100;
}

abbrev pub factory : SessionFactory ℕ ℕ
factory = record {
  build_target = λ values. record { target = "redis://localhost"; ok = true };
  open_session = λ target w. (ok (record { product = "Redis"; version = "7.2" }, w), w + 10);
}

abbrev number_member : String → Json → Option ℕ
number_member key v = elim (as_object v) [
  | none ↦ none
  | some members ↦ elim (get members key) [ none ↦ none | some n ↦ as_u64 n ]
]

abbrev pub serde : Serde
serde = record {
  initialize_params = number_member "protocol_version";
  cancel_request =
      λ v. elim (number_member "id" v) [ none ↦ none | some n ↦ some (record { id = n }) ];
  form_values = λ v. err "missing field";
  open_request = λ v. ok (record { target = "redis://localhost" });
  close_request = λ v. elim (number_member "session_id" v) [
    | none ↦ err "missing field"
    | some n ↦ ok (record { session_id = n })
  ];
  statement_request = λ v. ok (record { statement = "PING" });
  empty_request = λ v. err "missing field";
  table_request = λ v. err "missing field";
  index_change_request = λ v. err "missing field";
  replace_index_request = λ v. err "missing field";
  drop_request = λ v. err "missing field";
  foreign_key_change_request = λ v. err "missing field";
  replace_foreign_key_request = λ v. err "missing field";
  column_change_request = λ v. err "missing field";
  add_column_request = λ v. err "missing field";
  browse_table_request = λ v. err "missing field";
  workspace_view_request = λ v. err "missing field";
  row_write_request = λ v. err "missing field";
  initialize_result = λ v. null;
  build_target_result = λ v. null;
  open_result = λ v. null;
  unit = λ v. null;
  query_result = λ v. null;
  schema_objects = λ v. null;
  columns = λ v. null;
  indexes = λ v. null;
  foreign_keys = λ v. null;
  referencing_foreign_keys = λ v. null;
  foreign_keys_by_table = λ v. null;
  indexes_by_table = λ v. null;
  row_write_response = λ v. null;
}

abbrev pub params : String → ℕ → Json
params key n = object (member key (number (unsigned n)) no_members)

abbrev pub request : ℕ → String → Json → Json
request id method v = object (
    member "jsonrpc" (string "2.0") (
      member "id" (number (unsigned id))
        (member "method" (string method) (member "params" v no_members))))

abbrev pub initialize : Json
initialize = request 1 "perk/v1/initialize" (params "protocol_version" 1)

abbrev pub open_first : Json
open_first = request 2 "perk/v1/open" null

abbrev pub execute : ℕ → Json
execute id = request id "perk/v1/execute" (params "session_id" 1)

-- Initialize, open a session and start two statements on it.
abbrev pub events : List (Event ℕ)
events =
    receive (some initialize)
    ∷ receive (some open_first)
    ∷ receive (some (execute 3))
    ∷ flush
    ∷ receive (some (execute 4))
    ∷ []

abbrev pub server : Server ℕ ℕ
server = new_server 0

abbrev pub two_tasks : Server ℕ ℕ
two_tasks = run factory service serde events server

abbrev pub task : ℕ → ℕ → Task ℕ
task id token = record {
  method = "perk/v1/execute";
  rest = object no_members;
  session = 0;
  token = token;
  id = unsigned id;
  key = id;
}
