-- ===== src/Redis/Open.antt =====
-- Open and closed sessions of src/redis_service.rs, and what a command does on each.
use redis_driver_for_per_wor.Prelude.{◌≡◌, refl, true, false, some, Result, err}
use redis_driver_for_per_wor.Service.Errors.{connection}
use redis_driver_for_per_wor.Redis.{Crate, RedisError, RedisService, World, slot_of}
use redis_driver_for_per_wor.Redis.Errors.{mapped}
use redis_driver_for_per_wor.Redis.Query.{with_connection}

module _ {C B : Type 0} where
  -- The session is open on the connection.
  abbrev pub IsOpen : RedisService → C → World C B → Type 0
  IsOpen this conn w = slot_of this w ≡ record { conn = some conn; closed = false }

  abbrev pub IsClosed : RedisService → World C B → Type 0
  IsClosed this w = (slot_of this w).closed ≡ true

module _ {C B A : Type 0} (crate : Crate C B) (this : RedisService)
    (call : C → B → Result RedisError A × B) where
  pub with_connection_open :
      (conn : C) (w : World C B)
      → IsOpen this conn w
      → with_connection crate this call w
        ≡ some (
          mapped "redis: " (call conn w.backend).0,
          record w { backend = (call conn w.backend).1 },
        )
  unfolding with_connection
  with_connection_open conn w is_open = rw is_open refl

  pub with_connection_closed :
      (w : World C B)
      → IsClosed this w
      → with_connection crate this call w ≡ some (err (connection "session closed"), w)
  unfolding with_connection
  with_connection_closed w is_closed = rw is_closed refl
