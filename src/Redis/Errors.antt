-- ===== src/Redis/Errors.antt =====
-- The classification of Redis errors in src/redis_service.rs.
use Prim.Native.String.{[], ◌∷◌}
use redis_driver_for_per_wor.Prelude.{
  Bool, true, false, ◌||◌, List, Option, none, some, String, ◌==◌, if◌then◌else◌, Result, ok, err,
}
use redis_driver_for_per_wor.Text.{format, strip_prefix}
use redis_driver_for_per_wor.Service.Errors.{
  ServiceError, operation, validation, authentication, connection,
}
use redis_driver_for_per_wor.Redis.{
  RedisError, authentication_failed, io, invalid_client_config, other_kind,
}

abbrev starts : String → String → Bool
starts s prefix = elim (strip_prefix s prefix) [ none ↦ false | some rest ↦ true ]

-- `str::contains`
unfoldable pub contains : String → String → Bool
contains [] part = part == ""
contains (c ∷ s) part = starts (c ∷ s) part || contains s part

abbrev is_auth_code : Option String → Bool
is_auth_code none = false
is_auth_code (some code) = code == "NOAUTH" || code == "WRONGPASS" || code == "NOPERM"

unfoldable pub map_redis_error : RedisError → String → ServiceError
map_redis_error e prefix =
    let message = format (List.◌∷◌ prefix (List.◌∷◌ e.text List.[])) in
    let auth_text = contains e.text "NOAUTH" || contains e.text "WRONGPASS" in
    elim e.kind [
      | authentication_failed ↦ authentication message
      | io ↦ connection message
      | invalid_client_config ↦ validation message
      | other_kind ↦
          if is_auth_code e.code || auth_text then authentication message else operation message
    ]

-- `map_err(|e| map_redis_error(&e, prefix))`
abbrev pub mapped {ℓ} : {A : Type ℓ} → String → Result RedisError A → Result ServiceError A
mapped prefix (ok a) = ok a
mapped prefix (err e) = err (map_redis_error e prefix)
