-- ===== src/Server.antt =====
-- src/server.rs: the state of the server and the parts that its handlers share.
pub mod Capabilities
pub mod Methods
pub mod Dispatch
pub mod Schedule
pub mod Steps
pub mod Tally
pub mod Turn
pub mod Answers
pub mod Drain
pub mod Gate
pub mod Sessions
pub mod Cancel
pub mod Shutdown
pub mod Handled
pub mod World
pub mod Requested
use redis_driver_for_per_wor.Prelude.{
  ℕ, suc, ◌+◌, ◌-◌, ◌^◌, ℤ, Bool, true, false, List, [], ◌∷◌, ◌++◌, Option, none, some, String, any,
  eqb, if◌then◌else◌,
}
use redis_driver_for_per_wor.Assoc.{Assoc, lookup, insert, remove}
use redis_driver_for_per_wor.Json.{Json, Number, unsigned, negative, float}
use redis_driver_for_per_wor.Protocol.{
  ErrorKind, Response, error_response, with_provenance, with_guidance,
}
use redis_driver_for_per_wor.Service.Errors.{ServiceError, jsonrpc_code}

abbrev pub plugin : String
plugin = "redis"

abbrev pub session_methods : List String
session_methods =
    "perk/v1/execute" ∷ "perk/v1/execute_read_only" ∷ "perk/v1/validate" ∷ "perk/v1/list_schema"
    ∷ "perk/v1/table_info" ∷ "perk/v1/list_indexes" ∷ "perk/v1/create_index"
    ∷ "perk/v1/replace_index" ∷ "perk/v1/drop_index" ∷ "perk/v1/list_foreign_keys"
    ∷ "perk/v1/list_referencing_foreign_keys" ∷ "perk/v1/list_foreign_keys_all"
    ∷ "perk/v1/list_indexes_all" ∷ "perk/v1/create_foreign_key" ∷ "perk/v1/replace_foreign_key"
    ∷ "perk/v1/drop_foreign_key" ∷ "perk/v1/alter_column" ∷ "perk/v1/drop_column"
    ∷ "perk/v1/add_column" ∷ "perk/v1/browse_table" ∷ "perk/v1/workspace_view" ∷ []

-- The writer's gate and queue. `written` is what has reached stdout, frames as responses.
pub record Sink : Type 0 where
  pub is_open : Bool
  pub queue : List Response
  pub written : List Response

abbrev pub send : Response → Sink → Sink
send frame sink = if sink.is_open then record sink { queue = sink.queue ++ frame ∷ [] } else sink

-- A spawned request: its method, its parameters, the session that it holds, its cancellation token,
-- its id and its registry key.
pub record Task (S : Type 0) : Type 0 where
  pub method : String
  pub rest : Json
  pub session : S
  pub token : ℕ
  pub id : Number
  pub key : ℕ

-- The server with the tasks in flight, the tokens that have been cancelled, and the backend. A token
-- is a number, shared by the registry and its task.
pub record Server (S W : Type 0) : Type 0 where
  pub initialized : Bool
  pub registry : Assoc ℕ
  pub sessions : Assoc S
  pub next_session_id : ℕ
  pub next_token : ℕ
  pub cancelled : List ℕ
  pub tasks : List (Task S)
  pub sink : Sink
  pub world : W

-- `Server::new`, with an open sink.
abbrev pub new_server : {S W : Type 0} → W → Server S W
new_server w = record {
  initialized = false;
  registry = [];
  sessions = [];
  next_session_id = 1;
  next_token = 0;
  cancelled = [];
  tasks = [];
  sink = record { is_open = true; queue = []; written = [] };
  world = w;
}

abbrev pub is_cancelled : ℕ → List ℕ → Bool
is_cancelled token cancelled = any (λ t. eqb t token) cancelled

abbrev pub direct_error : Option Number → ℤ → String → String → ErrorKind → Response
direct_error id code message method kind =
    error_response id (with_provenance code message kind plugin method)

abbrev pub service_error_response : Option Number → String → ServiceError → Response
service_error_response id method e =
    error_response id
      (with_guidance (jsonrpc_code e) e.message e.kind plugin method e.hint e.suggested_statement)

-- `id.as_u64().or_else(|| id.as_i64().map(|i| i as u64)).unwrap_or(0)`
abbrev pub registry_key : Number → ℕ
registry_key (unsigned n) = n
registry_key (negative n) = 2 ^ 64 - suc n
registry_key (float f) = 0
