-- ===== src/Server/Dispatch.antt =====
-- The frame loop's `handle_message` of src/server.rs, with the handlers that it calls.
mod Parts
pub use Parts.*
use redis_driver_for_per_wor.Prelude.{
  ℕ, ◌+◌, ℤ, Bool, true, false, not, [], ◌∷◌, ◌++◌, Option, none, some, String, ◌==◌, any, eqb,
  if◌then◌else◌, Result, ok, err, ◌%◌, ◌^◌,
}
use redis_driver_for_per_wor.Text.{format}
use redis_driver_for_per_wor.Assoc.{lookup, insert, remove}
use redis_driver_for_per_wor.Json
use redis_driver_for_per_wor.Json.{
  Json, Members, Number, unsigned, negative, float, null, number, object, get, as_object, as_str,
  as_u64,
}
use redis_driver_for_per_wor.Protocol.{
  ErrorKind, Response, ServerError, malformed, result_response, err_invalid_params,
  err_invalid_request, err_method_not_found,
}
use redis_driver_for_per_wor.Service.Handlers.{SessionFactory, SessionService, Serde}
use redis_driver_for_per_wor.Server.{
  Server, direct_error, send, service_error_response, session_methods, registry_key,
}
use redis_driver_for_per_wor.Server.Capabilities.{redis_capabilities}

module _ {S W : Type 0} (factory : SessionFactory S W) (service : SessionService S W)
    (serde : Serde) where
  unfoldable pub handle_cancel : Option Json → Server S W → Server S W
  handle_cancel params s = elim params [
    | none ↦ s
    | some p ↦ elim (Serde.cancel_request serde p) [
      | none ↦ s
      | some request ↦ elim (lookup request.id s.registry) [
        | none ↦ s
        | some token ↦ record s { cancelled = token ∷ s.cancelled }
      ]
    ]
  ]

  unfoldable pub handle_initialize : Option Json → Number → Server S W → Server S W
  handle_initialize params id s = elim (initialize_version params) [
    | none ↦
        refuse (some id) err_invalid_params
          "invalid params: initialize requires {\"protocol_version\":1,\"workbench_version\":string}"
          "perk/v1/initialize" s
    | some version ↦
        if eqb version 1
        then reply
            (result_response (some id) (
              Serde.initialize_result serde
                (record { protocol_version = 1; capabilities = redis_capabilities })))
            (record s { initialized = true })
        else refuse (some id) err_invalid_request "unsupported protocol_version"
            "perk/v1/initialize" s
  ]
    where
      initialize_version : Option Json → Option ℕ
      initialize_version none = none
      initialize_version (some p) = Serde.initialize_params serde p

  unfoldable pub handle_build_target : Option Json → Number → Server S W → Server S W
  handle_build_target params id s = elim (decode_params (Serde.form_values serde) params) [
    | err message ↦ refuse (some id) err_invalid_params message "perk/v1/build_target" s
    | ok values ↦
        reply
          (result_response (some id)
            (Serde.build_target_result serde (factory.build_target values)))
          s
  ]

  unfoldable pub handle_open : Option Json → Number → Server S W → Server S W
  handle_open params id s = elim (decode_params (Serde.open_request serde) params) [
    | err message ↦ refuse (some id) err_invalid_params message "perk/v1/open" s
    | ok request ↦
        let (opened, w) = factory.open_session request.target s.world in
        elim opened [
          | err e ↦
              reply (service_error_response (some id) "perk/v1/open" e) (record s { world = w })
          | ok (info, session) ↦
              reply
                (result_response (some id) (
                  Serde.open_result serde (record { session_id = s.next_session_id; info = info })))
                (record s {
                  world = w;
                  next_session_id = (s.next_session_id + 1) % 2 ^ 64;
                  sessions = insert s.next_session_id session s.sessions;
                })
        ]
  ]

  unfoldable pub handle_close : Option Json → Number → Server S W → Server S W
  handle_close params id s = elim (decode_params (Serde.close_request serde) params) [
    | err message ↦ refuse (some id) err_invalid_params message "perk/v1/close" s
    | ok request ↦ elim (lookup request.session_id s.sessions) [
      | some session ↦ reply (result_response (some id) null) (record s {
        sessions = remove request.session_id s.sessions;
        world = service.close session s.world;
      })
      | none ↦
          refuse (some id) err_invalid_params "invalid params: unknown session_id" "perk/v1/close" s
    ]
  ]

  unfoldable pub spawn_session_method : String → Option Json → Number → Server S W → Server S W
  spawn_session_method method params id s = elim (object_params params) [
    | none ↦ refuse (some id) err_invalid_params "invalid params: expected an object" method s
    | some obj ↦ elim (session_id obj) [
      | none ↦
          refuse (some id) err_invalid_params "invalid params: missing or non-integer session_id"
            method s
      | some n ↦ elim (lookup n s.sessions) [
        | none ↦ refuse (some id) err_invalid_params "invalid params: unknown session_id" method s
        | some session ↦ record s {
          registry = insert (registry_key id) s.next_token s.registry;
          next_token = s.next_token + 1;
          tasks =
              s.tasks
              ++ record {
                method = method;
                rest = object (Json.remove obj "session_id");
                session = session;
                token = s.next_token;
                id = id;
                key = registry_key id;
              }
                ∷ [];
        }
      ]
    ]
  ]

  -- The method match of an initialized server.
  unfoldable pub handle_request : String → Option Json → Number → Server S W → Server S W
  handle_request method params id s =
      if method == "perk/v1/initialize"
      then refuse (some id) err_invalid_request "initialize already called" method s
      else if method == "perk/v1/build_target"
      then handle_build_target params id s
      else if method == "perk/v1/open"
      then handle_open params id s
      else if method == "perk/v1/close"
      then handle_close params id s
      else if method == "perk/v1/row_write"
      then spawn_session_method method params id s
      else if method == "perk/v1/document_write"
      then reply
          (direct_error (some id) err_method_not_found
            "method not found: not advertised by write_capabilities" method ErrorKind.unsupported)
          s
      else if any (λ m. m == method) session_methods
      then spawn_session_method method params id s
      else reply
          (direct_error (some id) err_method_not_found (format ("method not found: " ∷ method ∷ []))
            method ErrorKind.unsupported)
          s

  -- A request whose id is an integer.
  unfoldable pub handle_identified : String → Option Json → Number → Server S W → Server S W
  handle_identified method params id s =
      if s.initialized
      then handle_request method params id s
      else if method == "perk/v1/initialize"
      then handle_initialize params id s
      else refuse (some id) err_invalid_request "request before initialization" method s

  unfoldable pub handle_object : Members → Server S W → Server S W
  handle_object obj s =
      let method = text_or_empty (text_member obj "method") in
      let params = get obj "params" in
      elim (request_id (get obj "id")) [
        | invalid ↦
            refuse none err_invalid_request "invalid request: id must be an integer" method s
        | absent ↦
            if not (is_version_2 (text_member obj "jsonrpc"))
            then s
            else if method == ""
            then s
            else if method == "perk/v1/cancel"
            then handle_cancel params s
            else s
        | integer id ↦
            if not (is_version_2 (text_member obj "jsonrpc"))
            then refuse (some id) err_invalid_request "invalid request: jsonrpc must be \"2.0\""
                method s
            else if method == ""
            then refuse (some id) err_invalid_request "invalid request: missing method" method s
            else handle_identified method params id s
      ]

  unfoldable pub handle_message : Json → Server S W → Result ServerError (Server S W)
  handle_message message s = elim (as_object message) [
    | none ↦ err (malformed "frame is not a JSON object")
    | some obj ↦ ok (handle_object obj s)
  ]
