-- ===== src/Redis/Target.antt =====
-- Targets of src/redis_service.rs: `build_redis_uri`, `normalize_target`, `parse_database` and the
-- factory. The url crate and the opening of connections are parameters.
pub mod Open
pub mod RoundTrip
use Prim.Native.Char.{Char, code}
use Prim.Native.String
use redis_driver_for_per_wor.Prelude.{
  ℕ, ◌+◌, ◌^◌, ℤ, pos, negsuc, Bool, true, false, not, ◌&&◌, ◌||◌, List, [], ◌∷◌, Option, none,
  some, String, ◌==◌, eqb, any, if◌then◌else◌, Result, ok, err, ◌>>=◌, ◌>>◌, reject_if,
}
use redis_driver_for_per_wor.Text.{format, strip_prefix, trim}
use redis_driver_for_per_wor.Text.Decimal.{parse_unsigned, show}
use redis_driver_for_per_wor.Text.Signed.{parse_i64}
use redis_driver_for_per_wor.Dto.Capabilities.{FormValues}
use redis_driver_for_per_wor.Dto.Request.{BuildTargetResult}
use redis_driver_for_per_wor.Service.Errors.{ServiceError, validation}
use redis_driver_for_per_wor.Redis.Errors.{contains}

-- What the source calls of the url crate; a setter that fails gives none.
pub record UrlCrate (U : Type 0) : Type 0 where
  pub parse : String → Result String U
  pub set_host : String → U → Option U
  pub set_port : ℕ → U → Option U
  pub set_username : String → U → Option U
  pub set_password : String → U → Option U
  pub set_path : String → U → U
  pub to_string : U → String
  pub scheme : U → String
  pub query_pairs : U → List (String × String)
  pub path : U → String

-- `?` on an option.
abbrev pub and_then : {A D : Type 0} → Option A → (A → Option D) → Option D
and_then none f = none
and_then (some a) f = f a

-- `Result::ok`
abbrev pub to_option : {E A : Type 0} → Result E A → Option A
to_option (ok a) = some a
to_option (err e) = none

abbrev pub nonblank : String → Option String
nonblank s = if s == "" then none else some s

-- A field of the form, trimmed, unless it is blank.
abbrev pub filled : Option String → Option String
filled none = none
filled (some s) = nonblank (trim s)

abbrev pub unwrap_or : Option String → String → String
unwrap_or none fallback = fallback
unwrap_or (some s) fallback = s

abbrev pub starts_with : String → String → Bool
starts_with s prefix = elim (strip_prefix s prefix) [ none ↦ false | some rest ↦ true ]

-- An IPv6 host gets its brackets.
abbrev pub bracketed : String → String
bracketed host =
    if contains host ":" && not (starts_with host "[") then format ("[" ∷ host ∷ "]" ∷ []) else host

-- `port_str.parse()` at `u16`; port 0 is refused.
abbrev pub parse_port : String → Option ℕ
parse_port s = and_then (parse_unsigned (2 ^ 16) s) (λ port. if eqb port 0 then none else some port)

abbrev not_negative : ℤ → Option ℕ
not_negative (pos n) = some n
not_negative (negsuc n) = none

-- `database_str.parse()` at `i64`; a negative database is refused.
unfoldable pub parse_form_database : String → Option ℕ
parse_form_database s = and_then (parse_i64 s) not_negative

-- A setter for a field that may be blank.
abbrev pub set_filled : {U : Type 0} → (String → U → Option U) → Option String → U → Option U
set_filled set none u = some u
set_filled set (some s) u = set s u

module _ {U : Type 0} (url : UrlCrate U) where
  open url use {parse, set_host, set_port, set_username, set_password, set_path, to_string}

  -- The URL of a form with this port and database.
  unfoldable pub build_url : FormValues → ℕ → ℕ → Option U
  build_url values port database = and_then (to_option (parse "redis://localhost/")) (λ base.
      and_then (set_host (bracketed (unwrap_or (filled values.host) "127.0.0.1")) base) (λ hosted.
        and_then (set_port port hosted) (λ ported.
          and_then (set_filled set_username (filled values.user) ported) (λ named.
            and_then (set_filled set_password (filled values.pass) named)
              (λ secured. some (set_path (format ("/" ∷ show database ∷ [])) secured))))))

  unfoldable pub build_redis_uri : FormValues → Option String
  build_redis_uri values = and_then (parse_port (unwrap_or (filled values.port) "6379")) (λ port.
      and_then (parse_form_database (unwrap_or (filled values.database) "0"))
        (λ database. and_then (build_url values port database) (λ u. some (to_string u))))

  abbrev pub built : Option String → BuildTargetResult
  built none = record { target = ""; ok = false }
  built (some uri) = record { target = format ("redis:" ∷ uri ∷ []); ok = true }

  unfoldable pub build_target : FormValues → BuildTargetResult
  build_target values = built (build_redis_uri values)

-- The text after the label `redis:`.
abbrev labelled : Option String → Result ServiceError String
labelled none = err (validation "invalid target: expected a redis:// URI")
labelled (some rest) =
    if trim rest == ""
    then err (validation "invalid target: missing redis:// URI")
    else ok (trim rest)

unfoldable pub normalize_target : String → Result ServiceError String
normalize_target target =
    let trimmed = trim target in
    if starts_with trimmed "redis://" then ok trimmed else labelled (strip_prefix trimmed "redis:")

-- `trim_matches('/')`
unfoldable pub trim_start_slashes : String → String
trim_start_slashes String.[] = String.[]
trim_start_slashes (String.◌∷◌ c s) =
    if eqb (code c) b'/' then trim_start_slashes s else String.◌∷◌ c s

abbrev slashless_cons : Char → String → String
slashless_cons c String.[] = if eqb (code c) b'/' then String.[] else String.◌∷◌ c String.[]
slashless_cons c (String.◌∷◌ d s) = String.◌∷◌ c (String.◌∷◌ d s)

unfoldable pub trim_end_slashes : String → String
trim_end_slashes String.[] = String.[]
trim_end_slashes (String.◌∷◌ c s) = slashless_cons c (trim_end_slashes s)

abbrev pub trim_slashes : String → String
trim_slashes s = trim_end_slashes (trim_start_slashes s)

-- The database that a path names.
unfoldable pub database_of : String → Result ServiceError ℤ
database_of path = if path == "" then ok (pos 0) else elim (parse_form_database path) [
  | some n ↦ ok (pos n)
  | none ↦ err (validation (format ("invalid target: invalid database number: " ∷ path ∷ [])))
]

module _ {U : Type 0} (url : UrlCrate U) where
  open url use {parse, scheme, query_pairs, path}

  unfoldable pub parse_database : U → Result ServiceError ℤ
  parse_database u = database_of (trim_slashes (path u))

  abbrev pub no_tls : ServiceError
  no_tls = validation "invalid target: only plain TCP redis:// targets are supported (no TLS)"

  abbrev asks_tls : String × String → Bool
  asks_tls (k, v) = k == "tls" && (v == "true" || v == "1" || v == "secure")

  abbrev any_tls : List (String × String) → Bool
  any_tls [] = false
  any_tls (pair ∷ pairs) = asks_tls pair || any_tls pairs

  abbrev pub parsed : Result String U → Result ServiceError U
  parsed (ok u) = ok u
  parsed (err e) = err (validation (format ("invalid target: " ∷ e ∷ [])))

  -- The checks of `open` before it connects: the URI, and the database that it names.
  unfoldable pub read_target : String → Result ServiceError (String × ℤ)
  read_target target = do
    uri ← normalize_target target
    u ← parsed (parse uri)
    reject_if (not (scheme u == "redis")) no_tls
    reject_if (any_tls (query_pairs u)) no_tls
    database ← parse_database u
    ok (uri, database)
