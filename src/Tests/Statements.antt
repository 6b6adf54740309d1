-- ===== src/Tests/Statements.antt =====
-- Statements of src/redis_service.rs.
use redis_driver_for_per_wor.Prelude.{
  ◌≡◌, ◌↔◌, refl, not, List, [], ◌∷◌, none, some, String, ok, arith,
}
use redis_driver_for_per_wor.Text.{strip_suffix, upper}
use redis_driver_for_per_wor.Dto.Result.{redis_metadata}
use redis_driver_for_per_wor.Statement.{
  command_metadata, parse_select, parse_statement, select_keys, select_statement, strip_terminator,
  clauses,
}
use redis_driver_for_per_wor.Statement.Terminator.{Terminated}
use redis_driver_for_per_wor.Statement.Grammar.{IsSelect, parse_select_iff}
use redis_driver_for_per_wor.Statement.Metadata.{command_metadata_lem, embeds_payload}
use redis_driver_for_per_wor.Statement.Select.{parse_statement-select_statement}
use redis_driver_for_per_wor.Tests.Shells.{shell_split, shell_split-Splits}

abbrev tokens : List String
tokens = "select" ∷ "*" ∷ "From" ∷ "keys" ∷ "offset" ∷ "20" ∷ "LIMIT" ∷ "10;" ∷ []

parse_select_iff_example :
    (parse_select tokens ≡ ok (select_keys 20 (some 10)))
    ↔ ((words : List String) × Terminated tokens words × IsSelect words 20 (some 10))
parse_select_iff_example = parse_select_iff tokens 20 (some 10)

-- A last token of two semicolons is accepted as well.
two_semicolons :
    parse_select ("SELECT" ∷ "*" ∷ "FROM" ∷ "keys" ∷ ";;" ∷ []) ≡ ok (select_keys 0 none)
unfolding parse_select strip_terminator clauses upper strip_suffix
two_semicolons = refl

parse_statement-select_statement_example :
    parse_statement shell_split (select_statement 20 (some 10)) ≡ ok (select_keys 20 (some 10))
parse_statement-select_statement_example =
    parse_statement-select_statement shell_split 20 (some 10) (omega arith) (omega arith)
      shell_split-Splits

command_metadata_lem_example :
    command_metadata ("set" ∷ "user" ∷ "secret" ∷ [])
    ≡ redis_metadata
        (not (embeds_payload (upper "set") ("user" ∷ "secret" ∷ [])))
        (embeds_payload (upper "set") ("user" ∷ "secret" ∷ []))
command_metadata_lem_example = command_metadata_lem "set" ("user" ∷ "secret" ∷ [])
