-- ===== src/Redis/Handlers/ReadOnly.antt =====
-- The read-only path of src/redis_service.rs sends nothing but reads.
use redis_driver_for_per_wor.Prelude.{ℕ, ◌≡◌, true, List, String, Result}
use redis_driver_for_per_wor.Dto.Request.{StatementRequest}
use redis_driver_for_per_wor.Reply.Value.{Reply}
use redis_driver_for_per_wor.Redis.{Crate, RedisError, RedisService, World}
use redis_driver_for_per_wor.Redis.Handlers.{execute_read_only}
use redis_driver_for_per_wor.Redis.Keeps.{Backend, Keeps, Keeps-run, Kept, query-Keeps}
use redis_driver_for_per_wor.Redis.Handlers.Reads.{is_read}
use redis_driver_for_per_wor.Redis.Handlers.Readers.{ReadersKeep, readers_keep}
use redis_driver_for_per_wor.Redis.Query.{query}

-- What is allowed to be read-only.
abbrev IsReading : List String → Type 0
IsReading cmd = is_read cmd ≡ true

module _ {C B : Type 0} (crate : Crate C B) (this : RedisService) (I : B → Type 0)
    (reads : (conn : C) (cmd : List String) (b : B)
      → is_read cmd ≡ true
      → I b
      → I (crate.query_async conn cmd b).1) where
  read_query-Keeps :
      (A : Type 0) (f : Reply → Result RedisError A) (cmd : List String)
      → IsReading cmd
      → Keeps (Backend I) (query crate this f cmd)
  read_query-Keeps A f cmd r = query-Keeps crate this I f cmd (λ conn b p. reads conn cmd b r p)

  -- All handlers but the two that write.
  pub reading_handlers : ReadersKeep crate this (Backend I)
  reading_handlers = readers_keep crate this (Backend I) IsReading (λ cmd r. r) read_query-Keeps

  -- A property of the server that no read breaks holds after a read-only execution if it held before,
  -- whatever the statement, the replies and the outcome. The reads are the 20 commands of the
  -- allowlist in any letter case, and GETRANGE, HSCAN and SSCAN for the previews.
  pub execute_read_only-Keeps :
      (fuel : ℕ) (request : StatementRequest) (w : World C B)
      → I w.backend
      → Kept (Backend I) (execute_read_only crate this fuel request w)
  execute_read_only-Keeps fuel request w holds =
      Keeps-run (Backend I) (execute_read_only crate this fuel request) w
        (reading_handlers.executes_read_only fuel request) holds
