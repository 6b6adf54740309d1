-- ===== src/Redis/Chain.antt =====
-- Reasoning on the actions of src/redis_service.rs: what holds after an action that succeeds, and
-- after one that fails.
use redis_driver_for_per_wor.Prelude.{
  ◌≡◌, refl, Bool, true, false, Option, none, some, Result, ok, err,
}
use redis_driver_for_per_wor.Service.Errors.{ServiceError}
use redis_driver_for_per_wor.Redis.Action.{Action, continue, lift, pure, reject_if, ◌>>=◌, ◌>>◌}
use redis_driver_for_per_wor.Redis.{Crate, RedisError, RedisService, World}
use redis_driver_for_per_wor.Redis.Errors.{mapped}
use redis_driver_for_per_wor.Redis.Open.{IsOpen, with_connection_open}
use redis_driver_for_per_wor.Redis.Query.{with_connection}

module _ {W A : Type 0} (Q : A → W → Type 0) (E : W → Type 0) where
  -- What is asked of an outcome.
  abbrev pub Holds : Result ServiceError A → W → Type 0
  Holds (ok a) w = Q a w
  Holds (err e) w = E w

  abbrev pub HoldsAfter : Option (Result ServiceError A × W) → Type 0
  HoldsAfter none = ⊥
  HoldsAfter (some (r, w)) = Holds r w

-- From a world with `P`, the action ends: a result leaves `Q` and an error leaves `E`.
unfoldable pub Triple :
    {W A : Type 0} → (W → Type 0) → Action W A → (A → W → Type 0) → (W → Type 0) → Type 0
Triple {W} P m Q E = (w : W) → P w → HoldsAfter Q E (m w)

module _ {W A : Type 0} (P : W → Type 0) (Q : A → W → Type 0) (E : W → Type 0) where
  pub Triple-intro : (m : Action W A) → ((w : W) → P w → HoldsAfter Q E (m w)) → Triple P m Q E
  unfolding Triple
  Triple-intro m h = h

  pub Triple-run : (m : Action W A) (w : W) → Triple P m Q E → P w → HoldsAfter Q E (m w)
  unfolding Triple
  Triple-run m w h p = h w p

  pub lift-Triple :
      (r : Result ServiceError A) → ((w : W) → P w → Holds Q E r w) → Triple P (lift r) Q E
  unfolding Triple
  lift-Triple r h = h

  pub pure-Triple : (a : A) → ((w : W) → P w → Q a w) → Triple P (pure a) Q E
  unfolding Triple
  pure-Triple a h = h

module _ {W A D : Type 0} (P : W → Type 0) (M : A → W → Type 0) (Q : D → W → Type 0)
    (E : W → Type 0) where
  continue-Triple :
      (o : Option (Result ServiceError A × W)) (f : A → Action W D)
      → HoldsAfter M E o
      → ((a : A) → Triple (M a) (f a) Q E)
      → HoldsAfter Q E (continue o f)
  unfolding Triple
  continue-Triple none f h next = absurd h
  continue-Triple (some (ok a, w)) f h next = next a w h
  continue-Triple (some (err e, w)) f h next = h

  pub >>=-Triple :
      (m : Action W A) (f : A → Action W D)
      → Triple P m M E
      → ((a : A) → Triple (M a) (f a) Q E)
      → Triple P (m >>= f) Q E
  unfolding Triple
  >>=-Triple m f first next w p = continue-Triple (m w) f (first w p) next

module _ {W A : Type 0} (P : W → Type 0) (F : Type 0) (Q : A → W → Type 0) (E : W → Type 0) where
  -- What does not depend on the world can be assumed.
  pub fact-Triple : (m : Action W A) → (F → Triple P m Q E) → Triple (λ w. P w × F) m Q E
  unfolding Triple
  fact-Triple m h w (p, f) = h f w p

module _ {W D : Type 0} (P : W → Type 0) (Q : D → W → Type 0) (E : W → Type 0)
    (fails : (w : W) → P w → E w) where
  -- A guard that has let the chain go on.
  pub reject_if-Triple :
      (test : Bool) (e : ServiceError) (m : Action W D)
      → (test ≡ false → Triple P m Q E)
      → Triple P (reject_if test e >> m) Q E
  unfolding Triple
  reject_if-Triple true e m next w p = fails w p
  reject_if-Triple false e m next w p = next refl w p

  -- A conversion that has let the chain go on.
  pub lifted-Triple :
      {A : Type 0} (r : Result ServiceError A) (f : A → Action W D)
      → ((a : A) → r ≡ ok a → Triple P (f a) Q E)
      → Triple P (lift r >>= f) Q E
  unfolding Triple
  lifted-Triple (ok a) f next w p = next a refl w p
  lifted-Triple (err e) f next w p = fails w p

module _ {W : Type 0} (P : W → Type 0) where
  pub guard-Triple : (test : Bool) (e : ServiceError) → Triple P (reject_if test e) (λ u. P) P
  unfolding Triple
  guard-Triple true e w p = p
  guard-Triple false e w p = p

  -- An outcome of a kind that does not matter.
  pub either-Holds : {A : Type 0} (r : Result ServiceError A) (w : W) → P w → Holds (λ a. P) P r w
  either-Holds (ok a) w p = p
  either-Holds (err e) w p = p

module _ {C B A : Type 0} (crate : Crate C B) (this : RedisService) (conn : C)
    (P : World C B → Type 0) (Q : A → World C B → Type 0) (E : World C B → Type 0) where
  -- A call on an open session.
  pub with_connection-Triple :
      (call : C → B → Result RedisError A × B)
      → ((w : World C B) → P w → IsOpen this conn w)
      → ((w : World C B)
          → P w
          → Holds Q E
              (mapped "redis: " (call conn w.backend).0)
              (record w { backend = (call conn w.backend).1 }))
      → Triple P (with_connection crate this call) Q E
  with_connection-Triple call is_open h =
      Triple-intro P Q E _
        (λ w p. rw (with_connection_open crate this call conn w (is_open w p)) (h w p))
