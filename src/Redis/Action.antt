-- ===== src/Redis/Action.antt =====
-- The handlers of src/redis_service.rs as functions on the world: an error keeps what was done before
-- it. `none` means that a loop ran out of fuel.
use redis_driver_for_per_wor.Prelude.{Bool, true, false, Option, none, some, Result, ok, err}
use redis_driver_for_per_wor.Service.Errors.{ServiceError}

abbrev pub Action : Type 0 → Type 0 → Type 0
Action W A = W → Option (Result ServiceError A × W)

module _ {W A : Type 0} where
  abbrev pub pure : A → Action W A
  pure a w = some (ok a, w)

  abbrev pub raise : ServiceError → Action W A
  raise e w = some (err e, w)

  abbrev pub lift : Result ServiceError A → Action W A
  lift r w = some (r, w)

  abbrev pub out_of_fuel : Action W A
  out_of_fuel w = none

  abbrev pub gets : (W → A) → Action W A
  gets f w = some (ok (f w), w)

  abbrev pub keep :
      Option (Result ServiceError A × W) → Option (Result ServiceError (Result ServiceError A) × W)
  keep none = none
  keep (some (r, w)) = some (ok r, w)

  -- The outcome of an action whose error the code goes on from.
  abbrev pub attempt : Action W A → Action W (Result ServiceError A)
  attempt m w = keep (m w)

module _ {W A B : Type 0} where
  abbrev pub continue :
      Option (Result ServiceError A × W) → (A → Action W B) → Option (Result ServiceError B × W)
  continue none f = none
  continue (some (ok a, w)) f = f a w
  continue (some (err e, w)) f = some (err e, w)

  infixl 5 ◌>>=◌
  abbrev pub ◌>>=◌ : Action W A → (A → Action W B) → Action W B
  ◌>>=◌ m f w = continue (m w) f

module _ {W B : Type 0} where
  infixl 5 ◌>>◌
  abbrev pub ◌>>◌ : Action W (Unit {0}) → Action W B → Action W B
  m >> k = m >>= λ _. k

module _ {W : Type 0} where
  abbrev pub reject_if : Bool → ServiceError → Action W (Unit {0})
  reject_if true e = raise e
  reject_if false e = pure tt
