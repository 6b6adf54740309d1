-- ===== src/Redis/Ends.antt =====
-- Actions of src/redis_service.rs that end in every world, and what their results have.
use redis_driver_for_per_wor.Prelude.{
  Bool-cases, Option-cases, List, Option, none, some, String, Result, inl, inr,
}
use redis_driver_for_per_wor.Reply.Value.{Reply}
use redis_driver_for_per_wor.Service.Errors.{ServiceError}
use redis_driver_for_per_wor.Redis.{Crate, RedisError, RedisService, slot_of}
use redis_driver_for_per_wor.Redis.Action.{Action, attempt, gets, keep, pure, raise, ◌>>=◌}
use redis_driver_for_per_wor.Redis.Chain.{HoldsAfter, Triple, Triple-run, >>=-Triple, either-Holds}
use redis_driver_for_per_wor.Redis.Query.{query, with_connection}

abbrev pub Anything : {A : Type 0} → A → Type 0
Anything a = Unit

-- The action ends in every world, and a result has the property.
unfoldable pub Ends : {W A : Type 0} → (A → Type 0) → Action W A → Type 0
Ends {W = W} Q m = Triple (λ w. Unit) m (λ a w. Q a) (λ w. Unit)

module _ {W A : Type 0} (Q : A → Type 0) where
  pub Ends-run : (m : Action W A) (w : W) → Ends Q m → HoldsAfter (λ a w. Q a) (λ w. Unit) (m w)
  unfolding Ends
  Ends-run m w h = Triple-run _ _ _ m w h tt

module _ {A : Type 0} (W : Type 0) (Q : A → Type 0) where
  pub pure-Ends : (a : A) → Q a → Ends {W = W} Q (pure a)
  unfolding Ends Triple
  pure-Ends a q w p = q

  pub raise-Ends : (e : ServiceError) → Ends {W = W} Q (raise e)
  unfolding Ends Triple
  raise-Ends e w p = tt

module _ {W A : Type 0} where
  pub gets-Ends : (f : W → A) → Ends Anything (gets f)
  unfolding Ends Triple
  gets-Ends f w p = tt

  keep-Anything :
      (o : Option (Result ServiceError A × W))
      → HoldsAfter (λ a w. Unit) (λ w. Unit) o
      → HoldsAfter {W = W} (λ a w. Unit) (λ w. Unit) (keep o)
  keep-Anything none h = h
  keep-Anything (some (r, w)) h = tt

  pub attempt-Ends : (m : Action W A) → Ends Anything m → Ends Anything (attempt m)
  unfolding Ends Triple
  attempt-Ends m h w p = keep-Anything (m w) (h w p)

module _ {W A D : Type 0} (M : A → Type 0) (Q : D → Type 0) where
  pub >>=-Ends :
      (m : Action W A) (f : A → Action W D)
      → Ends M m
      → ((a : A) → M a → Ends Q (f a))
      → Ends Q (m >>= f)
  unfolding Ends Triple
  >>=-Ends m f first next =
      >>=-Triple (λ w. Unit) (λ a w. M a) (λ d w. Q d) (λ w. Unit) m f first
        (λ a w q. next a q w tt)

module _ {C B A : Type 0} (crate : Crate C B) (this : RedisService) where
  with_connection-Ends :
      (call : C → B → Result RedisError A × B) → Ends Anything (with_connection crate this call)
  unfolding Ends Triple with_connection
  with_connection-Ends call w p = elim (Bool-cases (slot_of this w).closed) [
    | inl shut ↦ rw shut tt
    | inr live ↦ elim (Option-cases (slot_of this w).conn) [
      | inl missing ↦ rw (live, missing) tt
      | inr (conn, found) ↦ rw (live, found) (either-Holds (λ w. Unit) _ _ tt)
    ]
  ]

  pub query-Ends :
      (f : Reply → Result RedisError A) (cmd : List String) → Ends Anything (query crate this f cmd)
  unfolding query
  query-Ends f cmd = with_connection-Ends _
