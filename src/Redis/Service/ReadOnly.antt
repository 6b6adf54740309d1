-- ===== src/Redis/Service/ReadOnly.antt =====
-- A server of src/server.rs that is only asked to read changes nothing that reads keep.
use redis_driver_for_per_wor.Prelude.{ℕ, ◌≡◌, ℤ, true, Bool, List, [], ◌∷◌, String, Result, All}
use redis_driver_for_per_wor.Service.Errors.{ServiceError}
use redis_driver_for_per_wor.Service.Handlers.{Serde}
use redis_driver_for_per_wor.Redis.{Crate, RedisError, RedisService, World}
use redis_driver_for_per_wor.Redis.Action.{lift}
use redis_driver_for_per_wor.Redis.Handlers.Reads.{is_read}
use redis_driver_for_per_wor.Redis.Handlers.Readers.{info_IsRead}
use redis_driver_for_per_wor.Redis.Handlers.ReadOnly.{reading_handlers}
use redis_driver_for_per_wor.Redis.Keeps.{Backend, Keeps, lift-Keeps, pure-Keeps, >>=-Keeps}
use redis_driver_for_per_wor.Redis.Query.{close}
use redis_driver_for_per_wor.Redis.Service.{redis_factory, session_service}
use redis_driver_for_per_wor.Redis.Service.Ended.{handler-Kept}
use redis_driver_for_per_wor.Redis.Target.{UrlCrate, read_target}
use redis_driver_for_per_wor.Redis.Target.Open.{Connector, connecting, new_service, open_session}
use redis_driver_for_per_wor.Redis.View.{Race}
use redis_driver_for_per_wor.Server.{Server}
use redis_driver_for_per_wor.Server.Handled.{Reading, ServiceKeeps, reading, run_reading-Kept}
use redis_driver_for_per_wor.Server.Requested.{Asks, TasksRun}
use redis_driver_for_per_wor.Server.Schedule.{Event, run}
use redis_driver_for_per_wor.Server.World.{AllKeep, Leaves, run-Kept}

connecting-Backend :
    {B : Type 0} (C A : Type 0) (I : B → Type 0) (call : B → Result RedisError A × B)
    → ((b : B) → I b → I (call b).1)
    → Keeps (Backend {C = C} I) (connecting call)
unfolding Keeps
connecting-Backend C A I call keeps w h = keeps w.backend h

new_service-Backend :
    {C B : Type 0} (I : B → Type 0) (conn : C) (database : ℤ)
    → Keeps (Backend I) (new_service conn database)
unfolding Keeps new_service
new_service-Backend I conn database w h = h

module _ {U Client C B : Type 0} (url : UrlCrate U) (connector : Connector Client C B)
    (crate : Crate C B) (I : B → Type 0)
    (reads : (conn : C) (cmd : List String) (b : B)
      → is_read cmd ≡ true
      → I b
      → I (crate.query_async conn cmd b).1)
    (connects : (client : Client) (b : B) → I b → I (connector.connect client b).1) where
  open_session-Backend :
      (target : String) → Keeps (Backend I) (open_session url connector crate target)
  unfolding open_session
  open_session-Backend target =
      let P = Backend {C = C} I in
      >>=-Keeps P (lift (read_target url target)) _ (lift-Keeps P _) (λ read.
        >>=-Keeps P (lift _) _ (lift-Keeps P _) (λ client.
          >>=-Keeps P (connecting (connector.connect client)) _
            (connecting-Backend C C I (connector.connect client) (connects client))
            (λ manager.
              >>=-Keeps P (connecting _) _
                (connecting-Backend C String I _
                  (λ b h. reads manager ("INFO" ∷ "server" ∷ []) b info_IsRead h))
                (λ info.
                  >>=-Keeps P (new_service manager read.1) _ (new_service-Backend I manager read.1)
                    (λ service. pure-Keeps P _)))))

  module _ (fuel : ℕ) (races : String → Race) (locked : Bool) (stuck : ServiceError) where
    session_service-Backend :
        ServiceKeeps (Backend I) (reading (session_service crate fuel races locked stuck))
    unfolding session_service close
    session_service-Backend =
        let P = Backend {C = C} I in
        let keep = λ (this : RedisService). reading_handlers crate this I reads in
        record {
          execute = λ r this w h. h;
          execute_read_only =
              λ r this w. handler-Kept P stuck _ w ((keep this).executes_read_only fuel r);
          validate = λ r this w. handler-Kept P stuck _ w ((keep this).validates r);
          list_schema = λ r this w. handler-Kept P stuck _ w (keep this).lists;
          table_info = λ r this w h. h;
          list_indexes = λ r this w h. h;
          create_index = λ r this w h. h;
          replace_index = λ r this w h. h;
          drop_index = λ r this w h. h;
          list_foreign_keys = λ r this w h. h;
          list_referencing_foreign_keys = λ r this w h. h;
          list_foreign_keys_all = λ r this w h. h;
          list_indexes_all = λ r this w h. h;
          create_foreign_key = λ r this w h. h;
          replace_foreign_key = λ r this w h. h;
          drop_foreign_key = λ r this w h. h;
          alter_column = λ r this w h. h;
          drop_column = λ r this w h. h;
          add_column = λ r this w h. h;
          browse_table = λ r this w. handler-Kept P stuck _ w ((keep this).browses fuel r);
          row_write = λ r this w h. h;
          workspace_view = λ r this w. handler-Kept P stuck _ w ((keep this).views races r);
          close = λ this w h. h;
        }

    -- A property of the Redis server that neither reads nor new connections break holds after every run
    -- of the driver's server in which no message asks for `execute` or `row_write` and no task in
    -- flight at the start runs one of them: whatever else is opened, closed, executed read-only,
    -- browsed, listed, viewed, cancelled or refused, in any order. It needs the dropped handlers to
    -- keep it too.
    pub run-Reads :
        (serde : Serde) (events : List (Event (World C B))) (s : Server RedisService (World C B))
        → All (Leaves (Backend I)) events
        → All (Asks Reading) events
        → TasksRun Reading s.tasks
        → I s.world.backend
        → I
            (run
              (redis_factory url connector crate stuck)
              (session_service crate fuel races locked stuck)
              serde
              events
              s).world.backend
    unfolding redis_factory session_service close
    run-Reads serde events s left asked tasks h =
        let P = Backend {C = C} I in
        let factory = redis_factory url connector crate stuck in
        let service = session_service crate fuel races locked stuck in
        let keeps : AllKeep P Reading factory service serde = record {
          open_session = λ target w. handler-Kept P stuck _ w (open_session-Backend target);
          close = λ session w h. h;
          runs = λ method rest session w.
              run_reading-Kept P service serde method rest session w session_service-Backend;
        } in
        (run-Kept P Reading factory service serde keeps events s left asked
          (record { world = h; tasks = tasks })).world
