-- ===== src/Redis/Query.antt =====
-- One command of a session in src/redis_service.rs: `query`, `run_command` and `close`.
use redis_driver_for_per_wor.Prelude.{
  ℕ, ◌-◌, Bool, true, List, none, some, String, if◌then◌else◌, Result, ok, err,
}
use redis_driver_for_per_wor.Assoc.{insert}
use redis_driver_for_per_wor.Reply.Value.{Reply}
use redis_driver_for_per_wor.Service.Errors.{connection}
use redis_driver_for_per_wor.Redis.{Crate, RedisError, RedisService, World, slot_of}
use redis_driver_for_per_wor.Redis.Action.{Action, gets, pure, ◌>>=◌}
use redis_driver_for_per_wor.Redis.Errors.{mapped}

abbrev pub value : Reply → Result RedisError Reply
value reply = ok reply

-- The reply is converted as `query_async::<T>` does.
abbrev converted :
    {A : Type 0} → (Reply → Result RedisError A) → Result RedisError Reply → Result RedisError A
converted f (ok reply) = f reply
converted f (err e) = err e

abbrev pub convert :
    {A B : Type 0}
    → (Reply → Result RedisError A)
    → Result RedisError Reply × B
    → Result RedisError A × B
convert f answer = (converted f answer.0, answer.1)

module _ {C B : Type 0} (crate : Crate C B) (this : RedisService) where
  open crate use {query_async, now}

  -- What a call does on the connection, unless the session is closed.
  unfoldable pub with_connection :
      {A : Type 0} → (C → B → Result RedisError A × B) → Action (World C B) A
  unfolding slot_of
  with_connection call w =
      let slot = slot_of this w in
      if slot.closed then some (err (connection "session closed"), w) else elim slot.conn [
        | none ↦ some (err (connection "session closed"), w)
        | some conn ↦
            let (reply, b) = call conn w.backend in
            some (mapped "redis: " reply, record w { backend = b })
      ]

  unfoldable pub query :
      {A : Type 0} → (Reply → Result RedisError A) → List String → Action (World C B) A
  query f cmd = with_connection (λ conn b. convert f (query_async conn cmd b))

  unfoldable pub run_command : List String → Action (World C B) (ℕ × Reply)
  run_command tokens = do
    start ← gets (λ w. now w.backend)
    reply ← query value tokens
    end ← gets (λ w. now w.backend)
    pure (end - start, reply)

  -- `close`: a command in flight holds the lock, and keeps the connection until it ends.
  unfoldable pub close : Bool → World C B → World C B
  unfolding slot_of
  close locked w =
      let conn = if locked then (slot_of this w).conn else none in
      record w { slots = insert this.slot (record { conn = conn; closed = true }) w.slots }
