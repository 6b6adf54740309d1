-- ===== src/Statement/Metadata.antt =====
-- The metadata of native commands: `command_metadata` of src/redis_service.rs.
use redis_driver_for_per_wor.Prelude.{
  ◌≡◌, refl, inl, inr, Bool, true, false, not, ◌&&◌, ◌||◌, List, [], ◌∷◌, String, ◌==◌, eq_iff,
  arith, all, Bool-cases,
}
use redis_driver_for_per_wor.Text.{upper, eq_ignore_case}
use redis_driver_for_per_wor.Dto.Result.{redis_metadata}
use redis_driver_for_per_wor.Statement.Verbs.{
  sensitive_commands, safe_write_commands, contains, is_read_only,
}
use redis_driver_for_per_wor.Statement.{command_metadata}

-- What holds of every entry of a table holds of a verb that the table contains.
all-contains :
    (p : String → Bool) (commands : List String) (verb : String)
    → all p commands ≡ true
    → contains commands verb ≡ true
    → p verb ≡ true
unfolding contains
all-contains p [] verb h k = cc
all-contains p (c ∷ commands) verb h k = elim (Bool-cases (c == verb)) [
  | inl same ↦ let e : c ≡ verb = (eq_iff c verb).0 same in rw (← e) (ground arith)
  | inr other ↦ all-contains p commands verb (ground arith) (unfold contains in ground arith)
]

-- No value-bearing command is in another table.
abbrev is_benign : String → Bool
is_benign verb = verb == "PING" || is_read_only verb || contains safe_write_commands verb

sensitive_disjoint : all (λ verb. not (is_benign verb)) sensitive_commands ≡ true
unfolding contains is_read_only eq_ignore_case
sensitive_disjoint = refl

-- Whether the statement may hold a stored value or a payload, by the two tables of benign commands.
abbrev pub embeds_payload : String → List String → Bool
embeds_payload verb [] =
    not (verb == "PING") && not (is_read_only verb || contains safe_write_commands verb)
embeds_payload verb (argument ∷ arguments) =
    verb == "PING" || not (is_read_only verb || contains safe_write_commands verb)

sensitive-not_benign :
    (verb : String)
    → contains sensitive_commands verb ≡ true
    → (is_read_only verb ≡ false) × (contains safe_write_commands verb ≡ false)
sensitive-not_benign verb h =
    let fact : not (is_benign verb) ≡ true =
      all-contains (λ v. not (is_benign v)) sensitive_commands verb sensitive_disjoint h in
    ground arith

-- The metadata of a native command, whatever its letter case: it is replayable exactly when it holds
-- no value, and sensitive exactly when it may hold one. A PING holds none without arguments; any other
-- command holds none exactly when it is read-only or in the table of safe writes. The table of
-- value-bearing commands changes nothing.
pub command_metadata_lem :
    (token : String) (arguments : List String)
    → command_metadata (token ∷ arguments)
      ≡ redis_metadata
          (not (embeds_payload (upper token) arguments))
          (embeds_payload (upper token) arguments)
unfolding command_metadata
command_metadata_lem token [] = ground (arith, sensitive-not_benign (upper token))
command_metadata_lem token (argument ∷ arguments) =
    ground (arith, sensitive-not_benign (upper token))
