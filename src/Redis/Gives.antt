-- ===== src/Redis/Gives.antt =====
-- Actions of src/redis_service.rs that give a result whatever the server answers.
use redis_driver_for_per_wor.Prelude.{◌≡◌, refl, List, String, some, Result, ok}
use redis_driver_for_per_wor.Reply.Value.{Reply}
use redis_driver_for_per_wor.Service.Errors.{ServiceError}
use redis_driver_for_per_wor.Redis.{Crate, RedisError, RedisService, World}
use redis_driver_for_per_wor.Redis.Action.{Action, attempt, pure, ◌>>=◌}
use redis_driver_for_per_wor.Redis.Errors.{mapped}
use redis_driver_for_per_wor.Redis.Open.{IsOpen, with_connection_open}
use redis_driver_for_per_wor.Redis.Query.{query, convert}

abbrev pub Any : {A : Type 0} → A → Type 0
Any a = Unit

module _ {C B : Type 0} where
  -- The action gives a result with the property, and changes at most the backend.
  abbrev pub Gives : {A : Type 0} → World C B → (A → Type 0) → Action (World C B) A → Type 0
  Gives {A} w P m = (a : A) × (after : B) × (m w ≡ some (ok a, record w { backend = after })) × P a

  pub pure-Gives : {A : Type 0} (P : A → Type 0) (w : World C B) (a : A) → P a → Gives w P (pure a)
  pure-Gives P w a p = (a, w.backend, refl, p)

  pub >>=-Gives :
      {A D : Type 0} (P : A → Type 0) (Q : D → Type 0) (w : World C B) (m : Action (World C B) A)
      (f : A → Action (World C B) D)
      → Gives w P m
      → ((a : A) (after : B) → P a → Gives (record w { backend = after }) Q (f a))
      → Gives w Q (m >>= f)
  >>=-Gives P Q w m f (a, after, e, p) next =
      let (d, later, k, q) = next a after p in (d, later, rw e k, q)

  -- A read whose failure the code goes on from.
  pub attempt-query-Gives :
      {A D : Type 0} (Q : D → Type 0) (crate : Crate C B) (this : RedisService) (conn : C)
      (f : Reply → Result RedisError A) (cmd : List String)
      (k : Result ServiceError A → Action (World C B) D) (w : World C B)
      → IsOpen this conn w
      → ((got : Result ServiceError A) (after : B) → Gives (record w { backend = after }) Q (k got))
      → Gives w Q (attempt (query crate this f cmd) >>= k)
  unfolding query
  attempt-query-Gives Q crate this conn f cmd k w is_open next =
      let call : C → B → Result RedisError _ × B = λ c b. convert f (crate.query_async c cmd b) in
      let (d, later, e, q) =
        next (mapped "redis: " (call conn w.backend).0) (call conn w.backend).1 in
      (d, later, rw (with_connection_open crate this call conn w is_open) e, q)
