-- ===== src/Redis/Target/Open.antt =====
-- `RedisFactory::open` of src/redis_service.rs: a session on a new connection.
use redis_driver_for_per_wor.Prelude.{suc, ℤ, false, List, [], ◌∷◌, none, some, String, Result, ok}
use redis_driver_for_per_wor.Assoc.{insert}
use redis_driver_for_per_wor.Text.{strip_prefix, trim}
use redis_driver_for_per_wor.Text.Split.{lines}
use redis_driver_for_per_wor.Dto.Result.{DatabaseInfo}
use redis_driver_for_per_wor.Redis.{Crate, RedisError, RedisService, World}
use redis_driver_for_per_wor.Redis.Action.{Action, lift, pure, ◌>>=◌}
use redis_driver_for_per_wor.Redis.Errors.{mapped}
use redis_driver_for_per_wor.Redis.Query.{convert}
use redis_driver_for_per_wor.Redis.Target.{UrlCrate, read_target}

-- What opens connections: a client of a URI, and the connection manager of a client.
pub record Connector (Client C B : Type 0) : Type 0 where
  pub open_client : String → Result RedisError Client
  pub connect : Client → B → Result RedisError C × B

-- The version that INFO gives: its first line with the field.
abbrev pub version_of : List String → String
version_of [] = "unknown"
version_of (line ∷ rest) = elim (strip_prefix line "redis_version:") [
  | none ↦ version_of rest
  | some version ↦ trim version
]

module _ {C B : Type 0} where
  -- A call on the backend while the connection is made.
  abbrev pub connecting : {A : Type 0} → (B → Result RedisError A × B) → Action (World C B) A
  connecting call w =
      let (r, b) = call w.backend in some (mapped "connect failed: " r, record w { backend = b })

  -- `RedisService::new`
  unfoldable pub new_service : C → ℤ → Action (World C B) RedisService
  new_service conn database w = some (
    ok (record { slot = w.next_slot; database = database }),
    record w {
      slots = insert w.next_slot (record { conn = some conn; closed = false }) w.slots;
      next_slot = suc w.next_slot;
    },
  )

module _ {U Client C B : Type 0} (url : UrlCrate U) (connector : Connector Client C B)
    (crate : Crate C B) where
  unfoldable pub open_session : String → Action (World C B) (DatabaseInfo × RedisService)
  open_session target = do
    (uri, database) ← lift (read_target url target)
    client ← lift (mapped "invalid target: " (connector.open_client uri))
    manager ← connecting (connector.connect client)
    info ←
        connecting
          (λ b. convert crate.from_string (crate.query_async manager ("INFO" ∷ "server" ∷ []) b))
    service ← new_service manager database
    pure (record { product = "Redis"; version = version_of (lines info) }, service)
