-- ===== src/Memory/Statement.antt =====
-- `execute_statement` of src/service.rs.
use redis_driver_for_per_wor.Prelude.{
  ℕ, Bool, not, List, [], ◌∷◌, Option, none, some, String, ◌==◌, Result, ok, err, if◌then◌else◌,
}
use redis_driver_for_per_wor.Text.{format, upper}
use redis_driver_for_per_wor.Text.Decimal.{parse_unsigned, show, usize_limit}
use redis_driver_for_per_wor.Text.Map.{Map, get, insert, remove}
use redis_driver_for_per_wor.Text.Words.{join_words, split_whitespace}
use redis_driver_for_per_wor.Dto.Result.{Cell, QueryResult}
use redis_driver_for_per_wor.Service.Errors.{ServiceError, canceled, unsupported, validation}
use redis_driver_for_per_wor.Memory.{stub_result}

-- The outcome, and the store after it.
abbrev pub Outcome : Type 0
Outcome = Result ServiceError QueryResult × Map

abbrev fails : ServiceError → Map → Outcome
fails e m = (err e, m)

-- The first word in upper case; a blank statement has an empty verb.
abbrev verb_of : List String → String
verb_of [] = ""
verb_of (verb ∷ arguments) = upper verb

abbrev arguments_of : List String → List String
arguments_of [] = []
arguments_of (verb ∷ arguments) = arguments

abbrev pub set_statement : List String → Map → Outcome
set_statement [] m = fails (validation "SET requires a key") m
set_statement (key ∷ value) m = (ok (stub_result [] [] 1), insert key (join_words value) m)

abbrev pub value_row : String → Option String → List (List Cell)
value_row key none = []
value_row key (some v) = (some key ∷ some v ∷ []) ∷ []

abbrev pub get_statement : List String → Map → Outcome
get_statement [] m = fails (validation "GET requires a key") m
get_statement (key ∷ rest) m =
    (ok (stub_result ("key" ∷ "value" ∷ []) (value_row key (get key m)) 0), m)

abbrev pub removed : Option String → ℕ
removed none = 0
removed (some v) = 1

abbrev pub del_statement : List String → Map → Outcome
del_statement [] m = fails (validation "DEL requires a key") m
del_statement (key ∷ rest) m = (ok (stub_result [] [] (removed (get key m))), remove key m)

abbrev unwrap_or_zero : Option ℕ → ℕ
unwrap_or_zero none = 0
unwrap_or_zero (some n) = n

-- `parts.next().and_then(|p| p.parse::<u64>().ok()).unwrap_or(0)`
abbrev milliseconds : List String → ℕ
milliseconds [] = 0
milliseconds (p ∷ rest) = unwrap_or_zero (parse_unsigned usize_limit p)

abbrev pub sleep_statement : Bool → List String → Map → Outcome
sleep_statement cancelled arguments m =
    if cancelled
    then fails (canceled "request canceled") m
    else (ok (stub_result ("slept" ∷ []) ((some (show (milliseconds arguments)) ∷ []) ∷ []) 0), m)

-- `cancelled` tells whether the cancellation comes before the end of a sleep.
unfoldable pub execute_words : Bool → Bool → String → List String → Map → Outcome
execute_words cancelled writable statement parts m =
    let verb = verb_of parts in
    let arguments = arguments_of parts in
    if verb == "SET"
    then (if not writable
        then fails (unsupported "read-only: SET is not allowed") m
        else set_statement arguments m)
    else if verb == "GET"
    then get_statement arguments m
    else if verb == "DEL"
    then (if not writable
        then fails (unsupported "read-only: DEL is not allowed") m
        else del_statement arguments m)
    else if verb == "SLEEP"
    then sleep_statement cancelled arguments m
    else fails (unsupported (format ("unsupported statement: " ∷ statement ∷ []))) m

unfoldable pub run_statement : Bool → Bool → String → Map → Outcome
run_statement cancelled writable statement m =
    execute_words cancelled writable statement (split_whitespace statement) m
