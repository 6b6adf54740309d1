-- ===== src/Statement/Select.antt =====
-- The pseudo-command of a browse and its parse: `select_statement` and `parse_statement` of
-- src/redis_service.rs.
use Prim.Native.Char.{Char, char}
use redis_driver_for_per_wor.Statement.Shell.{Splits}
use redis_driver_for_per_wor.Statement.Written.{
  base_pieces, limit_pieces, offset_pieces, base_pieces-IsPiece, limit_pieces-IsPiece,
  offset_pieces-IsPiece, select_statement-first, select_statement-none, select_statement-some,
}
use redis_driver_for_per_wor.Text.Trim.{Starts, Starts-append, trim-ne-empty}
use redis_driver_for_per_wor.Prelude.{
  ℕ, ◌≡◌, ◌<◌, refl, ◌++◌, inl, inr, Bool, true, false, ◌||◌, List, [], ◌∷◌, Option, none, some,
  String, ◌==◌, arith, ltb, Result, ok, if◌then◌else◌, Bool-cases,
}
use redis_driver_for_per_wor.Text.{format, upper, trim, strip_suffix, is_whitespace}
use redis_driver_for_per_wor.Text.Decimal.{
  usize_limit, show, parse_unsigned-show, strip_suffix-show,
}
use redis_driver_for_per_wor.Statement.{
  select_keys, is_some, parse_select, is_select_all, parse_statement, select_statement,
}

abbrev limit_words : Option ℕ → List String
limit_words none = []
limit_words (some n) = "LIMIT" ∷ show n ∷ []

abbrev offset_words : ℕ → Option ℕ → List String
offset_words offset limit =
    if ltb 0 offset || is_some limit then "OFFSET" ∷ show offset ∷ [] else []

-- The words of the pseudo-command: its text split at spaces, the quotes taken off.
pub select_words : ℕ → Option ℕ → List String
select_words offset limit =
    "SELECT" ∷ "*" ∷ "FROM" ∷ "keys" ∷ (limit_words limit ++ offset_words offset limit)

abbrev pub Fits : Option ℕ → Type 0
Fits none = Unit
Fits (some n) = n < usize_limit

parse_select-select_words :
    (offset : ℕ) (limit : Option ℕ)
    → offset < usize_limit
    → Fits limit
    → parse_select (select_words offset limit) ≡ ok (select_keys offset limit)
unfolding parse_select select_words upper strip_suffix
parse_select-select_words offset none h k = elim (Bool-cases (ltb 0 offset)) [
  | inl pos ↦
      rw (pos, strip_suffix-show b';' offset refl)
        (ground (arith, parse_unsigned-show usize_limit offset h))
  | inr zer ↦ rw zer (ground arith)
]
parse_select-select_words offset (some n) h k = elim (Bool-cases (ltb 0 offset)) [
  | inl pos ↦
      rw (pos, strip_suffix-show b';' offset refl)
        (ground
          (arith, parse_unsigned-show usize_limit offset h, parse_unsigned-show usize_limit n k))
  | inr zer ↦
      rw (zer, strip_suffix-show b';' offset refl)
        (ground
          (arith, parse_unsigned-show usize_limit offset h, parse_unsigned-show usize_limit n k))
]

abbrev letter_s : Char
letter_s = char b'S' tt

Starts-if :
    (b : Bool) (s t : String)
    → Starts letter_s s
    → Starts letter_s t
    → Starts letter_s (if b then s else t)
Starts-if true s t p q = p
Starts-if false s t p q = q

select_statement-Starts :
    (offset : ℕ) (limit : Option ℕ) → Starts letter_s (select_statement offset limit)
unfolding select_statement
select_statement-Starts offset none =
    Starts-if _ _ _ (Starts-append letter_s "SELECT * FROM \"keys\"" _ base) base
  where
    base : Starts letter_s "SELECT * FROM \"keys\""
    base = ("ELECT * FROM \"keys\"", refl)
select_statement-Starts offset (some n) =
    Starts-if _ _ _ (Starts-append letter_s _ _ limited) limited
  where
    limited : Starts letter_s (format ("SELECT * FROM \"keys\"" ∷ " LIMIT " ∷ show n ∷ []))
    limited = Starts-append letter_s "SELECT * FROM \"keys\"" _ ("ELECT * FROM \"keys\"", refl)

-- The splitter cuts the pseudo-command into its words.
split-select_statement :
    (shell_words_split : String → Result String (List String)) (offset : ℕ) (limit : Option ℕ)
    → Splits shell_words_split
    → shell_words_split (select_statement offset limit) ≡ ok (select_words offset limit)
unfolding select_words
split-select_statement split offset none splits = elim (Bool-cases (ltb 0 offset)) [
  | inl positive ↦
      rw (select_statement-none offset positive, positive)
        (splits (base_pieces (offset_pieces offset))
          (base_pieces-IsPiece (offset_pieces offset) (offset_pieces-IsPiece offset)))
  | inr first ↦
      rw (select_statement-first offset first, first)
        (splits (base_pieces []) (base_pieces-IsPiece [] tt))
]
split-select_statement split offset (some n) splits =
    let pieces = limit_pieces n (offset_pieces offset) in
    let cut = splits (base_pieces pieces) (
      base_pieces-IsPiece pieces
        (limit_pieces-IsPiece n (offset_pieces offset) (offset_pieces-IsPiece offset))) in
    rw (select_statement-some offset n) (elim (Bool-cases (ltb 0 offset)) [
      | inl positive ↦ rw positive cut
      | inr first ↦ rw first cut
    ])

-- The pseudo-command that a browse reports is a statement that parses to the page that it was made
-- from, for an offset and a limit below 2 ^ 64. The shell splitter is one that cuts plain words and
-- words in double quotes apart at the spaces between them and takes the quotes off.
pub parse_statement-select_statement :
    (shell_words_split : String → Result String (List String)) (offset : ℕ) (limit : Option ℕ)
    → offset < usize_limit
    → Fits limit
    → Splits shell_words_split
    → parse_statement shell_words_split (select_statement offset limit)
      ≡ ok (select_keys offset limit)
unfolding parse_statement
parse_statement-select_statement shell_words_split offset limit h k splits =
    let e = split-select_statement shell_words_split offset limit splits in
    let text : (trim (select_statement offset limit) == "") ≡ false =
      trim-ne-empty letter_s (select_statement offset limit) (unfold is_whitespace in refl)
        (select_statement-Starts offset limit) in
    let routed : is_select_all (select_words offset limit) ≡ true =
      unfold is_select_all select_words in refl in
    rw (text, e, routed) (parse_select-select_words offset limit h k)
