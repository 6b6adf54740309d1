-- ===== src/Redis/Service.antt =====
-- `impl SessionService for RedisService` of src/redis_service.rs as a value of the interface that
-- src/server.rs uses, and its factory. `stuck` stands for the answer of a browse whose SCAN loop has no fuel left.
pub mod Ended
pub mod Closed
pub mod Fails
pub mod ReadOnly
use redis_driver_for_per_wor.Prelude.{ℕ, Bool, [], Option, none, some, String, Result, ok, err}
use redis_driver_for_per_wor.Service.Errors.{ServiceError}
use redis_driver_for_per_wor.Service.Handlers.{SessionFactory, SessionService}
use redis_driver_for_per_wor.Redis.{Crate, RedisService, World}
use redis_driver_for_per_wor.Redis.Handlers.{
  browse_table, execute, execute_read_only, fixed_schema_error, list_indexes, list_indexes_all,
  list_schema, row_write, table_info, validate, workspace_view,
}
use redis_driver_for_per_wor.Redis.Query.{close}
use redis_driver_for_per_wor.Redis.Target.{UrlCrate, build_target}
use redis_driver_for_per_wor.Redis.Target.Open.{Connector, open_session}
use redis_driver_for_per_wor.Redis.View.{Race}

-- The outcome of an action that has ended.
abbrev pub ended :
    {W A : Type 0}
    → ServiceError
    → W
    → Option (Result ServiceError A × W)
    → Result ServiceError A × W
ended stuck w none = (err stuck, w)
ended stuck w (some outcome) = outcome

module _ {C B : Type 0} (crate : Crate C B) (fuel : ℕ) (races : String → Race) (locked : Bool)
    (stuck : ServiceError) where
  abbrev fixed :
      {A : Type 0} → A → RedisService → World C B → Result ServiceError (Unit {0}) × World C B
  fixed request this w = (err fixed_schema_error, w)

  unfoldable pub session_service : SessionService RedisService (World C B)
  session_service = record {
    execute = λ request this w. ended stuck w (execute crate this fuel request w);
    execute_read_only =
        λ request this w. ended stuck w (execute_read_only crate this fuel request w);
    validate = λ request this w. ended stuck w (validate crate this request w);
    list_schema = λ request this w. ended stuck w (list_schema crate this w);
    table_info = λ request this w. (table_info request, w);
    list_indexes = λ request this w. (list_indexes request, w);
    create_index = fixed;
    replace_index = fixed;
    drop_index = fixed;
    list_foreign_keys = λ request this w. (ok [], w);
    list_referencing_foreign_keys = λ request this w. (ok [], w);
    list_foreign_keys_all = λ request this w. (ok [], w);
    list_indexes_all = λ request this w. (list_indexes_all, w);
    create_foreign_key = fixed;
    replace_foreign_key = fixed;
    drop_foreign_key = fixed;
    alter_column = fixed;
    drop_column = fixed;
    add_column = fixed;
    browse_table = λ request this w. ended stuck w (browse_table crate this fuel request w);
    row_write = λ request this w. ended stuck w (row_write crate this request w);
    workspace_view = λ request this w. ended stuck w (workspace_view crate this races request w);
    close = λ this w. close crate this locked w;
  }

-- `RedisFactory`; opening has no loop, so that it never runs out of fuel.
unfoldable pub redis_factory :
    {U Client C B : Type 0}
    → UrlCrate U
    → Connector Client C B
    → Crate C B
    → ServiceError
    → SessionFactory RedisService (World C B)
redis_factory url connector crate stuck = record {
  build_target = build_target url;
  open_session = λ target w. ended stuck w (open_session url connector crate target w);
}
