-- ===== src/Redis/Service/Closed.antt =====
-- A Redis session that src/server.rs has closed: nothing that is scheduled later opens it again.
use redis_driver_for_per_wor.Prelude.{
  ℕ, ◌<◌, ◌≡◌, ℤ, refl, Bool, false, List, Option, some, String, Result, ok, inl, inr, Bool-cases,
  All, arith, eqb,
}
use redis_driver_for_per_wor.Assoc.{lookup, lookup-insert}
use redis_driver_for_per_wor.Json.{Json, Number}
use redis_driver_for_per_wor.Dto.Request.{CloseRequest}
use redis_driver_for_per_wor.Service.Errors.{ServiceError}
use redis_driver_for_per_wor.Service.Handlers.{SessionFactory, SessionService, Serde}
use redis_driver_for_per_wor.Redis.{Crate, RedisError, RedisService, World, slot_of}
use redis_driver_for_per_wor.Redis.Action.{lift}
use redis_driver_for_per_wor.Redis.Handlers.Closed.{Refuses, closed-Refuses, close-IsClosed}
use redis_driver_for_per_wor.Redis.Handlers.Slots.{handlers_keep}
use redis_driver_for_per_wor.Redis.Keeps.{Keeps, lift-Keeps, pure-Keeps, >>=-Keeps}
use redis_driver_for_per_wor.Redis.Open.{IsClosed}
use redis_driver_for_per_wor.Redis.Query.{close}
use redis_driver_for_per_wor.Redis.Service.{redis_factory, session_service}
use redis_driver_for_per_wor.Redis.Service.Ended.{handler-Kept}
use redis_driver_for_per_wor.Redis.Target.{UrlCrate, read_target}
use redis_driver_for_per_wor.Redis.Target.Open.{Connector, connecting, new_service, open_session}
use redis_driver_for_per_wor.Redis.View.{Race}
use redis_driver_for_per_wor.Server.{Server}
use redis_driver_for_per_wor.Server.Dispatch.{decode_params, handle_close}
use redis_driver_for_per_wor.Server.Schedule.{Event, run}
use redis_driver_for_per_wor.Server.Handled.{ServiceKeeps}
use redis_driver_for_per_wor.Server.World.{Leaves, run-world}

module _ {C B : Type 0} (crate : Crate C B) (P : World C B → Type 0)
    (apart : (w : World C B) (b : B) → P w → P (record w { backend = b })) where
  module _ (fuel : ℕ) (races : String → Race) (locked : Bool) (stuck : ServiceError) where
    session_service-Keeps :
        ((this : RedisService) (w : World C B) → P w → P (close crate this locked w))
        → ServiceKeeps P (session_service crate fuel races locked stuck)
    unfolding session_service
    session_service-Keeps closes =
        let keep = λ (this : RedisService). handlers_keep crate this P apart in
        record {
          execute = λ r this w. handler-Kept P stuck _ w ((keep this).executes fuel r);
          execute_read_only =
              λ r this w. handler-Kept P stuck _ w ((keep this).readers.executes_read_only fuel r);
          validate = λ r this w. handler-Kept P stuck _ w ((keep this).readers.validates r);
          list_schema = λ r this w. handler-Kept P stuck _ w (keep this).readers.lists;
          table_info = λ r this w h. h;
          list_indexes = λ r this w h. h;
          create_index = λ r this w h. h;
          replace_index = λ r this w h. h;
          drop_index = λ r this w h. h;
          list_foreign_keys = λ r this w h. h;
          list_referencing_foreign_keys = λ r this w h. h;
          list_foreign_keys_all = λ r this w h. h;
          list_indexes_all = λ r this w h. h;
          create_foreign_key = λ r this w h. h;
          replace_foreign_key = λ r this w h. h;
          drop_foreign_key = λ r this w h. h;
          alter_column = λ r this w h. h;
          drop_column = λ r this w h. h;
          add_column = λ r this w h. h;
          browse_table = λ r this w. handler-Kept P stuck _ w ((keep this).readers.browses fuel r);
          row_write = λ r this w. handler-Kept P stuck _ w ((keep this).writes r);
          workspace_view = λ r this w. handler-Kept P stuck _ w ((keep this).readers.views races r);
          close = closes;
        }

lt-eqb : (n m : ℕ) → n < m → eqb m n ≡ false
lt-eqb n m h = ground arith

module _ {C B : Type 0} where
  -- The session was opened, and is closed.
  abbrev pub ShutDown : RedisService → World C B → Type 0
  ShutDown this w = (this.slot < w.next_slot) × IsClosed this w

  ShutDown-apart :
      (this : RedisService) (w : World C B) (b : B)
      → ShutDown this w
      → ShutDown this (record w { backend = b })
  unfolding slot_of
  ShutDown-apart this w b h = h

  close-ShutDown :
      (crate : Crate C B) (locked : Bool) (this other : RedisService) (w : World C B)
      → ShutDown this w
      → ShutDown this (close crate other locked w)
  unfolding close slot_of
  close-ShutDown crate locked this other w (issued, shut) =
      elim (Bool-cases (eqb other.slot this.slot)) [
        | inl same ↦ (issued, rw (lookup-insert other.slot this.slot _ w.slots, same) refl)
        | inr apart ↦ (issued, rw (lookup-insert other.slot this.slot _ w.slots, apart) shut)
      ]

module _ (C B : Type 0) where
  new_service-Keeps :
      (this : RedisService) (conn : C) (database : ℤ)
      → Keeps (ShutDown {C = C} {B = B} this) (new_service conn database)
  unfolding Keeps new_service slot_of
  new_service-Keeps this conn database w (issued, shut) = (
    omega (arith, issued),
    rw (lookup-insert w.next_slot this.slot _ w.slots, lt-eqb this.slot w.next_slot issued) shut,
  )

  connecting-Keeps :
      (A : Type 0) (this : RedisService) (call : B → Result RedisError A × B)
      → Keeps (ShutDown {C = C} {B = B} this) (connecting call)
  unfolding Keeps slot_of
  connecting-Keeps A this call w h = h

module _ {U Client C B : Type 0} (url : UrlCrate U) (connector : Connector Client C B)
    (crate : Crate C B) where
  open_session-Keeps :
      (this : RedisService) (target : String)
      → Keeps (ShutDown this) (open_session url connector crate target)
  unfolding open_session
  open_session-Keeps this target =
      let P = ShutDown this in
      >>=-Keeps P (lift (read_target url target)) _ (lift-Keeps P _) (λ read.
        >>=-Keeps P (lift _) _ (lift-Keeps P _) (λ client.
          >>=-Keeps P (connecting (connector.connect client)) _
            (connecting-Keeps C B C this (connector.connect client))
            (λ manager. >>=-Keeps P (connecting _) _ (connecting-Keeps C B String this _) (λ info.
              >>=-Keeps P (new_service manager read.1) _ (new_service-Keeps C B this manager read.1)
                (λ service. pure-Keeps P _)))))

module _ {U Client C B : Type 0} (url : UrlCrate U) (connector : Connector Client C B)
    (crate : Crate C B) (fuel : ℕ) (races : String → Race) (locked : Bool) (stuck : ServiceError)
    (serde : Serde) where
  abbrev factory : SessionFactory RedisService (World C B)
  factory = redis_factory url connector crate stuck

  abbrev service : SessionService RedisService (World C B)
  service = session_service crate fuel races locked stuck

  run-ShutDown :
      (this : RedisService) (events : List (Event (World C B)))
      (s : Server RedisService (World C B))
      → All (Leaves (ShutDown this)) events
      → ShutDown this s.world
      → ShutDown this (run factory service serde events s).world
  unfolding redis_factory
  run-ShutDown this =
      run-world (ShutDown this) factory service serde
        (λ target w.
          handler-Kept (ShutDown this) stuck _ w
            (open_session-Keeps url connector crate this target))
        (session_service-Keeps crate (ShutDown this) (ShutDown-apart this) fuel races locked stuck
          (close-ShutDown crate locked this))

  -- Once the server has answered a close of a Redis session, the session stays shut down, whatever
  -- the server receives and runs after it, other opens and closes included: every handler that a
  -- request of it still in flight runs and that needs the server fails, and changes nothing. It needs
  -- the session to have been opened, and handlers that are dropped not to reopen it.
  pub handle_close-Refuses :
      (params : Option Json) (id : Number) (s : Server RedisService (World C B))
      (request : CloseRequest) (this : RedisService) (events : List (Event (World C B)))
      → decode_params (Serde.close_request serde) params ≡ ok request
      → lookup request.session_id s.sessions ≡ some this
      → this.slot < s.world.next_slot
      → All (Leaves (ShutDown this)) events
      → Refuses crate this
          (run factory service serde events (handle_close factory service serde params id s)).world
  unfolding handle_close session_service close
  handle_close-Refuses params id s request this events decoded found issued left =
      let next = handle_close factory service serde params id s in
      let shut : ShutDown this next.world =
        rw (handle_close, decoded, found) (issued, close-IsClosed crate this locked s.world) in
      closed-Refuses crate this (run factory service serde events next).world
        (run-ShutDown this events next left shut).1
