-- ===== src/Tests/Targets.antt =====
-- A small url crate, and a form of src/redis_service.rs on it: a URL is the number of its database,
-- and its text has as many letters.
use Prim.Native.String.{◌++◌, char_at, count}
use text.Mathlib.TextLemmas.{length-cons, cons-append, nil-append}
use redis_driver_for_per_wor.Prelude.{
  ℕ, zero, suc, ◌-◌, ◌<◌, ◌≡◌, refl, ap, true, [], Option, none, some, String, Result, ok, err,
  arith, pos,
}
use redis_driver_for_per_wor.Text.{is_whitespace, strip_prefix, trim}
use redis_driver_for_per_wor.Text.Decimal.{parse_unsigned}
use redis_driver_for_per_wor.Text.Prefix.{StartsPlain, strip_prefix-append, trim-append_left}
use redis_driver_for_per_wor.Text.Signed.{i64_limit, parse_i64, parse_i64-show}
use redis_driver_for_per_wor.Dto.Capabilities.{FormValues}
use redis_driver_for_per_wor.Redis.Target.{
  UrlCrate, build_redis_uri, build_target, build_url, filled, parse_form_database, read_target,
  trim_slashes, unwrap_or,
}
use redis_driver_for_per_wor.Redis.Target.RoundTrip.{
  Laws, database_path, read_target-build_target, trim_slashes-database_path,
}

pub unary : ℕ → String
unary zero = "."
unary (suc n) = "x" ++ unary n

abbrev or_zero : Option ℕ → ℕ
or_zero none = 0
or_zero (some n) = n

abbrev from_text : Option String → Result String ℕ
from_text none = err "no scheme"
from_text (some s) = ok (count s - 1)

abbrev pub url : UrlCrate ℕ
url = record {
  parse = λ s. from_text (strip_prefix s "redis://");
  set_host = λ host n. some n;
  set_port = λ port n. some n;
  set_username = λ user n. some n;
  set_password = λ pass n. some n;
  set_path = λ path n. or_zero (parse_form_database (trim_slashes path));
  to_string = λ n. "redis://" ++ unary n;
  scheme = λ n. "redis";
  query_pairs = λ n. [];
  path = database_path;
}

count-unary : (n : ℕ) → count (unary n) ≡ suc n
unfolding unary
count-unary zero = refl
count-unary (suc n) =
    rw (cons-append (char_at "x" 0) "" (unary n), nil-append (unary n), length-cons)
      (ap suc (count-unary n))

StartsPlain-unary : (n : ℕ) → StartsPlain (unary n)
unfolding unary is_whitespace
StartsPlain-unary zero = refl
StartsPlain-unary (suc n) = rw (cons-append (char_at "x" 0) "" (unary n)) refl

trim-unary : (n : ℕ) → trim (unary n) ≡ unary n
unfolding unary is_whitespace trim
trim-unary zero = refl
trim-unary (suc n) = trim-append_left "x" (unary n) refl (StartsPlain-unary n) (trim-unary n)

path_back :
    (n : ℕ)
    → n < i64_limit
    → database_path (or_zero (parse_form_database (trim_slashes (database_path n))))
      ≡ database_path n
unfolding parse_form_database
path_back n h = rw (trim_slashes-database_path n, parse_i64-show n h) refl

url_Laws : Laws url
unfolding is_whitespace
url_Laws = record {
  parse_base = λ u h. (refl, refl);
  set_host_plain = λ s u v p h. (refl, refl);
  set_port_plain = λ n u v p h. (refl, refl);
  set_username_plain = λ s u v p h. (refl, refl);
  set_password_plain = λ s u v p h. (refl, refl);
  set_path_plain = λ n u p. (refl, refl);
  path_set = λ n u h p. path_back n h;
  printed = λ u p. (unary u, refl);
  printed_trim =
      λ u p. trim-append_left "redis://" (unary u) refl (StartsPlain-unary u) (trim-unary u);
  parse_printed = λ u p.
      rw (strip_prefix-append "redis://" (unary u), count-unary u)
        (let same : suc u - 1 ≡ u = omega arith in rw same refl);
}

-- A form with a database and nothing else.
abbrev form : FormValues
form = record {
  host = none;
  port = none;
  user = none;
  pass = none;
  database = some "3";
  tls = none;
  extras = none;
}

form_is_built : (build_target url form).ok ≡ true
unfolding build_target build_redis_uri build_url parse_form_database parse_i64 parse_unsigned
    strip_prefix trim
form_is_built = refl

read_target-build_target_example :
    (uri : String) × (database : ℕ) × (build_redis_uri url form ≡ some uri)
    × (parse_form_database (unwrap_or (filled form.database) "0") ≡ some database)
    × (read_target url (build_target url form).target ≡ ok (uri, pos database))
read_target-build_target_example = read_target-build_target url url_Laws form form_is_built
