-- ===== src/Redis/Keeps.antt =====
-- What an action of src/redis_service.rs keeps, whatever its outcome.
use redis_driver_for_per_wor.Prelude.{
  String, Option, none, some, List, Result, ok, err, inl, inr, Bool-cases, Option-cases,
}
use redis_driver_for_per_wor.Reply.Value.{Reply}
use redis_driver_for_per_wor.Service.Errors.{ServiceError}
use redis_driver_for_per_wor.Redis.{Crate, RedisError, RedisService, World, slot_of}
use redis_driver_for_per_wor.Redis.Action.{
  Action, attempt, continue, gets, keep, lift, pure, raise, ◌>>=◌,
}
use redis_driver_for_per_wor.Redis.Query.{query, with_connection}

module _ {W : Type 0} (P : W → Type 0) where
  abbrev pub Kept : {A : Type 0} → Option (Result ServiceError A × W) → Type 0
  Kept none = Unit
  Kept (some (r, w)) = P w

  -- Every world that the action can leave has the property, if the world before has it.
  unfoldable pub Keeps : {A : Type 0} → Action W A → Type 0
  Keeps m = (w : W) → P w → Kept (m w)

module _ {W A : Type 0} (P : W → Type 0) where
  pub Keeps-run : (m : Action W A) (w : W) → Keeps P m → P w → Kept P (m w)
  unfolding Keeps
  Keeps-run m w h p = h w p

  pub lift-Keeps : (r : Result ServiceError A) → Keeps P (lift r)
  unfolding Keeps
  lift-Keeps r w p = p

  pub pure-Keeps : (a : A) → Keeps P (pure a)
  pure-Keeps a = lift-Keeps (ok a)

  pub gets-Keeps : (f : W → A) → Keeps P (gets f)
  unfolding Keeps
  gets-Keeps f w p = p

  keep-Kept : (o : Option (Result ServiceError A × W)) → Kept P o → Kept P (keep o)
  keep-Kept none h = tt
  keep-Kept (some (r, w)) h = h

  pub attempt-Keeps : (m : Action W A) → Keeps P m → Keeps P (attempt m)
  unfolding Keeps
  attempt-Keeps m h w p = keep-Kept (m w) (h w p)

module _ {W : Type 0} (A : Type 0) (P : W → Type 0) where
  pub out_of_fuel-Keeps : Keeps P {A = A} (λ w. none)
  unfolding Keeps
  out_of_fuel-Keeps w p = tt

  pub raise-Keeps : (e : ServiceError) → Keeps P {A = A} (raise e)
  unfolding Keeps
  raise-Keeps e w p = p

module _ {W A D : Type 0} (P : W → Type 0) where
  continue-Kept :
      (o : Option (Result ServiceError A × W)) (f : A → Action W D)
      → Kept P o
      → ((a : A) → Keeps P (f a))
      → Kept P (continue o f)
  unfolding Keeps
  continue-Kept none f h next = tt
  continue-Kept (some (ok a, w)) f h next = next a w h
  continue-Kept (some (err e, w)) f h next = h

  pub >>=-Keeps :
      (m : Action W A) (f : A → Action W D)
      → Keeps P m
      → ((a : A) → Keeps P (f a))
      → Keeps P (m >>= f)
  unfolding Keeps
  >>=-Keeps m f first next w p = continue-Kept (m w) f (first w p) next

module _ {C B : Type 0} (I : B → Type 0) where
  -- The backend has the property.
  abbrev pub Backend : World C B → Type 0
  Backend w = I w.backend

module _ {C B A : Type 0} (crate : Crate C B) (this : RedisService) (I : B → Type 0) where
  pub query-Keeps :
      (f : Reply → Result RedisError A) (cmd : List String)
      → ((conn : C) (b : B) → I b → I (crate.query_async conn cmd b).1)
      → Keeps (Backend I) (query crate this f cmd)
  unfolding Keeps query with_connection
  query-Keeps f cmd reads w p = elim (Bool-cases (slot_of this w).closed) [
    | inl shut ↦ rw shut p
    | inr live ↦ elim (Option-cases (slot_of this w).conn) [
      | inl missing ↦ rw (live, missing) p
      | inr (conn, found) ↦ rw (live, found) (reads conn w.backend p)
    ]
  ]
