-- ===== src/Redis/Service/Fails.antt =====
-- The session methods of src/server.rs on a Redis session that is closed.
use redis_driver_for_per_wor.Prelude.{
  ℕ, suc, ◌<◌, ◌≡◌, inl, inr, refl, Bool, List, Option, some, String, Result, ok, err, All,
  Result-cases,
}
use redis_driver_for_per_wor.Assoc.{lookup}
use redis_driver_for_per_wor.Json.{Json, Number}
use redis_driver_for_per_wor.Dto.Request.{CloseRequest}
use redis_driver_for_per_wor.Service.Errors.{ServiceError}
use redis_driver_for_per_wor.Service.Handlers.{Handler, Serde, SessionService}
use redis_driver_for_per_wor.Redis.{Crate, RedisService, World}
use redis_driver_for_per_wor.Redis.Action.{Action}
use redis_driver_for_per_wor.Redis.Handlers.{
  browse_table, execute, execute_read_only, list_schema, row_write, workspace_view,
}
use redis_driver_for_per_wor.Redis.Handlers.Closed.{Refused, Refuses}
use redis_driver_for_per_wor.Redis.Service.{ended, redis_factory, session_service}
use redis_driver_for_per_wor.Redis.Service.Closed.{ShutDown, handle_close-Refuses}
use redis_driver_for_per_wor.Redis.Target.{UrlCrate}
use redis_driver_for_per_wor.Redis.Target.Open.{Connector}
use redis_driver_for_per_wor.Redis.View.{Race}
use redis_driver_for_per_wor.Server.{Server}
use redis_driver_for_per_wor.Server.Dispatch.{decode_params, handle_close}
use redis_driver_for_per_wor.Server.Methods.{call, run_session_method}
use redis_driver_for_per_wor.Server.Schedule.{Event, run}
use redis_driver_for_per_wor.Server.World.{Leaves}

-- An outcome that is an error, and leaves the world.
abbrev pub Fails : {W A : Type 0} → W → Result ServiceError A × W → Type 0
Fails w outcome = (e : ServiceError) × (outcome ≡ (err e, w))

ended-Fails :
    {W A : Type 0} (stuck : ServiceError) (m : Action W A) (w : W)
    → Refused m w
    → Fails w (ended stuck w (m w))
ended-Fails stuck m w (e, refused) = (e, rw refused refl)

call-Fails :
    {S W A B : Type 0} (decode : Json → Result String A) (handler : Handler S W A B)
    (encode : B → Json) (rest : Json) (session : S) (w : W)
    → ((request : A) → Fails w (handler request session w))
    → Fails w (call decode handler encode rest session w)
call-Fails decode handler encode rest session w fails = elim (Result-cases (decode rest)) [
  | inr (e, bad) ↦ rw (call, bad) (_, refl)
  | inl (request, good) ↦ let (e, failed) = fails request in rw (call, good, failed) (e, refl)
]

-- The methods whose handlers need the Redis server.
pub data NeedsServer : String → Type 0 where
  executes : NeedsServer "perk/v1/execute"
  reads : NeedsServer "perk/v1/execute_read_only"
  writes : NeedsServer "perk/v1/row_write"
  lists : NeedsServer "perk/v1/list_schema"
  browses : NeedsServer "perk/v1/browse_table"
  views : NeedsServer "perk/v1/workspace_view"

module _ {C B : Type 0} (crate : Crate C B) (fuel : ℕ) (races : String → Race) (locked : Bool)
    (stuck : ServiceError) (serde : Serde) where
  abbrev service : SessionService RedisService (World C B)
  service = session_service crate (suc fuel) races locked stuck

  run_session_method-Fails :
      (method : String) (rest : Json) (this : RedisService) (w : World C B)
      → NeedsServer method
      → Refuses crate this w
      → Fails w (
          run_session_method
            (session_service crate (suc fuel) races locked stuck)
            serde
            method
            rest
            this
            w)
  unfolding run_session_method session_service
  run_session_method-Fails method rest this w executes r =
      call-Fails serde.statement_request service.execute serde.query_result _ this w (λ request.
        ended-Fails stuck (execute crate this (suc fuel) request) w (r.executes fuel request))
  run_session_method-Fails method rest this w reads r =
      call-Fails serde.statement_request service.execute_read_only serde.query_result _ this w
        (λ request.
          ended-Fails stuck (execute_read_only crate this (suc fuel) request) w
            (r.reads fuel request))
  run_session_method-Fails method rest this w writes r =
      call-Fails serde.row_write_request service.row_write serde.row_write_response _ this w
        (λ request. ended-Fails stuck (row_write crate this request) w (r.writes request))
  run_session_method-Fails method rest this w lists r =
      call-Fails serde.empty_request service.list_schema serde.schema_objects _ this w
        (λ request. ended-Fails stuck (list_schema crate this) w (_, r.lists))
  run_session_method-Fails method rest this w browses r =
      call-Fails serde.browse_table_request service.browse_table serde.query_result _ this w
        (λ request.
          ended-Fails stuck (browse_table crate this (suc fuel) request) w (r.browses fuel request))
  run_session_method-Fails method rest this w views r =
      call-Fails serde.workspace_view_request service.workspace_view serde.query_result _ this w
        (λ request.
          ended-Fails stuck (workspace_view crate this races request) w (r.views races request))

module _ {U Client C B : Type 0} (url : UrlCrate U) (connector : Connector Client C B)
    (crate : Crate C B) (fuel : ℕ) (races : String → Race) (locked : Bool) (stuck : ServiceError)
    (serde : Serde) where
  -- Once the server has answered a close of a Redis session, the session stays shut down, whatever
  -- the server receives and runs after it, other opens and closes included: a request of it that is
  -- still in flight for a method that needs the Redis server fails, whatever its parameters, and leaves
  -- the backend and all sessions as they are. It needs the session to have been opened, a browse to
  -- have fuel for one reply, and handlers that are dropped not to reopen the session.
  pub handle_close-Fails :
      (params : Option Json) (id : Number) (s : Server RedisService (World C B))
      (request : CloseRequest) (this : RedisService) (events : List (Event (World C B)))
      (method : String) (rest : Json)
      → decode_params (Serde.close_request serde) params ≡ ok request
      → lookup request.session_id s.sessions ≡ some this
      → this.slot < s.world.next_slot
      → All (Leaves (ShutDown this)) events
      → NeedsServer method
      → let factory = redis_factory url connector crate stuck in
        let service = session_service crate (suc fuel) races locked stuck in
        let later =
          run factory service serde events (handle_close factory service serde params id s) in
        Fails later.world (run_session_method service serde method rest this later.world)
  handle_close-Fails params id s request this events method rest decoded found issued left needs =
      run_session_method-Fails crate fuel races locked stuck serde method rest this _ needs (
        handle_close-Refuses url connector crate (suc fuel) races locked stuck serde params id s
          request this events decoded found issued left)
