-- ===== src/Tests/RedisServer.antt =====
-- Runs of src/server.rs on sessions of src/redis_service.rs.
use redis_driver_for_per_wor.Prelude.{
  ℕ, ◌≡◌, refl, true, false, List, [], ◌∷◌, some, String, ok, arith,
}
use redis_driver_for_per_wor.Assoc.{lookup}
use redis_driver_for_per_wor.Json.{get, unsigned}
use redis_driver_for_per_wor.Service.Errors.{ServiceError, operation}
use redis_driver_for_per_wor.Service.Handlers.{SessionFactory, SessionService}
use redis_driver_for_per_wor.Redis.{RedisService, World}
use redis_driver_for_per_wor.Redis.Service.{redis_factory, session_service}
use redis_driver_for_per_wor.Redis.Service.Fails.{Fails, executes, handle_close-Fails}
use redis_driver_for_per_wor.Redis.Service.ReadOnly.{run-Reads}
use redis_driver_for_per_wor.Redis.Target.Open.{Connector}
use redis_driver_for_per_wor.Redis.View.{Race, replied}
use redis_driver_for_per_wor.Server.{Server, new_server}
use redis_driver_for_per_wor.Server.Dispatch.{handle_close}
use redis_driver_for_per_wor.Server.Methods.{run_session_method}
use redis_driver_for_per_wor.Server.Schedule.{Event, finish, flush, receive, run}
use redis_driver_for_per_wor.Tests.Fixtures.{execute, open_first, params, request, serde}
use redis_driver_for_per_wor.Tests.RedisRuns.{Strings, crate, hello, this, world}
use redis_driver_for_per_wor.Tests.Targets.{url}

abbrev connector : Connector ℕ ℕ Strings
connector = record { open_client = λ uri. ok 0; connect = λ client k. (ok 7, k) }

abbrev stuck : ServiceError
stuck = operation "out of fuel"

abbrev races : String → Race
races section = replied

abbrev factory : SessionFactory RedisService (World ℕ Strings)
factory = redis_factory url connector crate stuck

abbrev service : SessionService RedisService (World ℕ Strings)
service = session_service crate 2 races false stuck

-- One session, open.
abbrev server : Server RedisService (World ℕ Strings)
server = record (new_server world) {
  initialized = true;
  sessions = (1, this) ∷ [];
  next_session_id = 2;
}

abbrev later : List (Event (World ℕ Strings))
later = receive (some open_first) ∷ receive (some (execute 3)) ∷ finish 0 ∷ flush ∷ []

abbrev after_later : Server RedisService (World ℕ Strings)
after_later =
    run factory service serde later
      (handle_close factory service serde (some (params "session_id" 1)) (unsigned 5) server)

handle_close-Fails_example : Fails after_later.world (
    run_session_method service serde "perk/v1/execute"
      (params "session_id" 1)
      this
      after_later.world)
unfolding lookup get
handle_close-Fails_example =
    handle_close-Fails url connector crate 1 races false stuck serde (some (params "session_id" 1))
      (unsigned 5) server (record { session_id = 1 }) this later "perk/v1/execute"
      (params "session_id" 1) refl refl (omega arith) (tt, (tt, (tt, (tt, tt)))) executes

abbrev read_only : List (Event (World ℕ Strings))
read_only =
    receive (some open_first)
    ∷ receive (some (request 3 "perk/v1/execute_read_only" (params "session_id" 1)))
    ∷ finish 0
    ∷ []

run-Reads_example : (run factory service serde read_only server).world.backend ≡ hello
unfolding get
run-Reads_example =
    run-Reads url connector crate (λ k. k ≡ hello) (λ conn cmd k read same. same)
      (λ client k same. same) 2 races false stuck serde read_only server (tt, (tt, (tt, tt)))
      ((refl, refl), ((refl, refl), (tt, tt))) tt refl
