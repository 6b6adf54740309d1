-- ===== src/Redis/Service/Ended.antt =====
-- What an action of src/redis_service.rs keeps, its handler keeps.
use redis_driver_for_per_wor.Prelude.{Option, none, some, Result}
use redis_driver_for_per_wor.Service.Errors.{ServiceError}
use redis_driver_for_per_wor.Redis.Action.{Action}
use redis_driver_for_per_wor.Redis.Keeps.{Keeps, Keeps-run, Kept}
use redis_driver_for_per_wor.Redis.Service.{ended}

ended-Kept :
    {W A : Type 0} (P : W → Type 0) (stuck : ServiceError) (w : W)
    (outcome : Option (Result ServiceError A × W))
    → P w
    → Kept P outcome
    → P (ended stuck w outcome).1
ended-Kept P stuck w none before after = before
ended-Kept P stuck w (some (r, w')) before after = after

-- An action that keeps the property, as a handler.
pub handler-Kept :
    {W A : Type 0} (P : W → Type 0) (stuck : ServiceError) (m : Action W A) (w : W)
    → Keeps P m
    → P w
    → P (ended stuck w (m w)).1
handler-Kept P stuck m w keeps h = ended-Kept P stuck w (m w) h (Keeps-run P m w keeps h)
