-- ===== src/Statement.antt =====
-- Statements of src/redis_service.rs: parsing, the virtual-table SELECT, and statement metadata.
pub mod Verbs
pub mod Grammar
pub mod Metadata
pub mod Select
pub mod Terminator
pub mod Shell
pub mod Written
use redis_driver_for_per_wor.Prelude.{
  ℕ, suc, ◌≡◌, ◌<◌, Bool, true, false, not, ◌&&◌, ◌||◌, List, [], ◌∷◌, Option, none, some, String,
  ◌==◌, drop, get_elem?, length, ltb, eqb, Result, ok, err, ◌>>=◌, ◌>>◌, reject_if, if◌then◌else◌,
}
use redis_driver_for_per_wor.Text.{format, upper, eq_ignore_case, trim, strip_suffix}
use redis_driver_for_per_wor.Text.Decimal.{usize_limit, show, parse_unsigned}
use redis_driver_for_per_wor.Service.Errors.{ServiceError, validation}
use redis_driver_for_per_wor.Dto.Result.{StatementMetadata, redis_metadata}
use Verbs.{sensitive_commands, safe_write_commands, contains, is_read_only}

abbrev pub keys_table : String
keys_table = "keys"

pub data Statement : Type 0 where
  redis : List String → Statement
  select_keys : ℕ → Option ℕ → Statement

-- The closure `bad` of `parse_select`.
abbrev pub bad : String → ServiceError
bad message = validation (format ("invalid statement: " ∷ message ∷ []))

-- One LIMIT or OFFSET value as a `usize`.
unfoldable pub parse_page_size : Option String → String → Result ServiceError ℕ
parse_page_size none clause = err (bad (format (clause ∷ " requires a value" ∷ [])))
parse_page_size (some value) clause = elim (parse_unsigned usize_limit value) [
  | some n ↦ ok n
  | none ↦ err (bad (format (clause ∷ " requires a non-negative integer, got " ∷ value ∷ [])))
]

-- The mutable variables of the clause loop.
pub record Paging : Type 0 where
  pub offset : ℕ
  pub limit : Option ℕ
  pub offset_seen : Bool

abbrev pub is_some {ℓ} : {A : Type ℓ} → Option A → Bool
is_some none = false
is_some (some a) = true

abbrev pub unpaged : Paging
unpaged = record { offset = 0; limit = none; offset_seen = false }

-- The `match` on one clause word, in upper case, with the token that follows it.
unfoldable pub apply_clause : String → Option String → Paging → Result ServiceError Paging
unfolding parse_page_size
apply_clause word next p =
    if word == "LIMIT"
    then (do
      value ← parse_page_size next "LIMIT"
      reject_if (is_some p.limit) (bad "duplicate LIMIT clause")
      ok (record p { limit = some value }))
    else if word == "OFFSET"
    then (do
      value ← parse_page_size next "OFFSET"
      reject_if p.offset_seen (bad "duplicate OFFSET clause")
      ok (record p { offset = value; offset_seen = true }))
    else err (bad (format ("unsupported SELECT clause: " ∷ word ∷ [])))

-- The clause loop, over the tokens from the index on.
unfoldable pub clauses : List String → Paging → Result ServiceError Paging
unfolding apply_clause
clauses [] p = ok p
clauses (token ∷ []) p = if token == ";" then ok p else apply_clause (upper token) none p
clauses (token ∷ value ∷ rest) p =
    if token == ";"
    then err (bad "unsupported clause after ;")
    else do q ← apply_clause (upper token) (some value) p; clauses rest q

-- A `;` glued to the last token goes, unless nothing else is left of the token.
unfoldable pub strip_terminator : List String → List String
strip_terminator [] = []
strip_terminator (token ∷ []) = elim (strip_suffix b';' token) [
  | none ↦ token ∷ []
  | some stripped ↦ (if stripped == "" then token else stripped) ∷ []
]
strip_terminator (token ∷ next ∷ tokens) = token ∷ strip_terminator (next ∷ tokens)

abbrev is_from : Option String → Bool
is_from none = false
is_from (some t) = eq_ignore_case t "FROM"

abbrev check_table : Option String → Result ServiceError (Unit {0})
check_table none = err (bad "expected a table name after FROM")
check_table (some table) =
    reject_if (not (eq_ignore_case table keys_table))
      (bad (format ("unknown table: " ∷ table ∷ [])))

-- `parse_select` after its copy of the tokens has lost the terminator.
unfoldable pub select_tokens : List String → Result ServiceError Statement
select_tokens tokens = do
  reject_if (not (is_from (get_elem? tokens 2))) (bad "expected FROM after SELECT *")
  check_table (get_elem? tokens 3)
  p ← clauses (drop 4 tokens) unpaged
  ok (select_keys p.offset p.limit)

unfoldable pub parse_select : List String → Result ServiceError Statement
unfolding select_tokens clauses strip_terminator eq_ignore_case
parse_select tokens = select_tokens (strip_terminator tokens)

-- `SELECT *`: Redis's own SELECT takes a database index.
unfoldable pub is_select_all : List String → Bool
unfolding eq_ignore_case
is_select_all (first ∷ second ∷ tokens) = eq_ignore_case first "SELECT" && second == "*"
is_select_all _ = false

-- `shell_words_split` is `shell_words::split`, whose error is taken by its text.
unfoldable pub parse_statement :
    (String → Result String (List String)) → String → Result ServiceError Statement
parse_statement shell_words_split statement =
    if trim statement == ""
    then err (validation "empty statement")
    else elim (shell_words_split statement) [
      | err e ↦ err (validation (format ("invalid statement: " ∷ e ∷ [])))
      | ok tokens ↦ if is_select_all tokens then parse_select tokens else ok (redis tokens)
    ]

-- The pseudo-command that a browse of the keys table reports.
unfoldable pub select_statement : ℕ → Option ℕ → String
select_statement offset limit =
    let statement = format ("SELECT * FROM \"" ∷ keys_table ∷ "\"" ∷ []) in
    let limited : String = elim limit [
      | none ↦ statement
      | some n ↦ format (statement ∷ " LIMIT " ∷ show n ∷ [])
    ] in
    if ltb 0 offset || is_some limit
    then format (limited ∷ " OFFSET " ∷ show offset ∷ [])
    else limited

unfoldable pub command_metadata : List String → StatementMetadata
command_metadata [] = redis_metadata false true
command_metadata (token ∷ arguments) =
    let verb = upper token in
    if verb == "PING"
    then redis_metadata (eqb (length (token ∷ arguments)) 1) (ltb 1 (length (token ∷ arguments)))
    else if is_read_only verb
    then redis_metadata true false
    else if contains sensitive_commands verb
    then redis_metadata false true
    else if contains safe_write_commands verb
    then redis_metadata true false
    else redis_metadata false true
