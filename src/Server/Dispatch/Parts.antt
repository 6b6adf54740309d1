-- ===== src/Server/Dispatch/Parts.antt =====
-- The parts of a message that `handle_message` of src/server.rs reads, and its refusals.
use redis_driver_for_per_wor.Prelude.{
  ℕ, ℤ, Bool, false, [], ◌∷◌, Option, none, some, String, ◌==◌, Result, ok, err,
}
use redis_driver_for_per_wor.Text.{format}
use redis_driver_for_per_wor.Json.{
  Json, Members, Number, float, number, get, as_object, as_str, as_u64,
}
use redis_driver_for_per_wor.Protocol.{ErrorKind, Response}
use redis_driver_for_per_wor.Server.{Server, direct_error, send}

module _ {S W : Type 0} where
  abbrev pub reply : Response → Server S W → Server S W
  reply response s = record s { sink = send response s.sink }

  -- A direct error of kind `validation`.
  abbrev pub refuse : Option Number → ℤ → String → String → Server S W → Server S W
  refuse id code message method s =
      reply (direct_error id code message method ErrorKind.validation) s

-- What an `id` member is: absent, an integer, or anything else.
pub data RequestId : Type 0 where
  absent : RequestId
  integer : Number → RequestId
  invalid : RequestId

abbrev pub request_id : Option Json → RequestId
request_id none = absent
request_id (some (number (float f))) = invalid
request_id (some (number n)) = integer n
request_id (some _) = invalid

abbrev pub decode_params : {A : Type 0} → (Json → Result String A) → Option Json → Result String A
decode_params decode none = err "invalid params: missing params object"
decode_params decode (some p) = elim (decode p) [
  | ok a ↦ ok a
  | err e ↦ err (format ("invalid params: " ∷ e ∷ []))
]

-- `obj.get(key).and_then(Value::as_str)`
abbrev pub text_member : Members → String → Option String
text_member obj key = elim (get obj key) [ none ↦ none | some v ↦ as_str v ]

abbrev pub text_or_empty : Option String → String
text_or_empty none = ""
text_or_empty (some s) = s

abbrev pub is_version_2 : Option String → Bool
is_version_2 none = false
is_version_2 (some v) = v == "2.0"

abbrev pub object_params : Option Json → Option Members
object_params none = none
object_params (some p) = as_object p

-- `obj.get("session_id").and_then(Value::as_u64)`
abbrev pub session_id : Members → Option ℕ
session_id obj = elim (get obj "session_id") [ none ↦ none | some v ↦ as_u64 v ]
