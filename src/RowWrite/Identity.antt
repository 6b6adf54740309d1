-- ===== src/RowWrite/Identity.antt =====
-- The primary-key cells of a row write in src/redis_service.rs.
use redis_driver_for_per_wor.Prelude.{
  ◌≡◌, ◌↔◌, ap, refl, inl, inr, true, List, [], ◌∷◌, Option, some, String, ◌==◌, eq_iff, arith, ok,
  Bool-cases, Result-cases,
}
use redis_driver_for_per_wor.Dto.Write.{RowValue, kind, string}
use redis_driver_for_per_wor.RowWrite.{require_string, identity_loop, parse_identity}

-- The cell names the column and holds the text.
pub record Holds (column text : String) (cell : RowValue) : Type 0 where
  pub named : cell.name ≡ column
  pub is_string : kind cell.value ≡ "string"
  pub holds : string cell.value ≡ some text

pub require_string-Holds :
    (column : String) (cell : RowValue) (text : String)
    → (cell.name == column) ≡ true
    → require_string cell ≡ ok text
    → Holds column text cell
unfolding require_string
require_string-Holds column cell text n h = record {
  named = (eq_iff cell.name column).0 n;
  is_string = ground (arith, eq_iff (kind cell.value) "string");
  holds = ground arith;
}

-- A test of the cell's name is a test of the column.
pub Holds-name :
    {column text : String} (cell : RowValue)
    → Holds column text cell
    → (other : String) → (cell.name == other) ≡ (column == other)
Holds-name cell h other = ap (λ n. n == other) h.named

pub require_string_of_Holds :
    {column text : String} (cell : RowValue)
    → Holds column text cell
    → require_string cell ≡ ok text
unfolding require_string
require_string_of_Holds cell h = ground (arith, eq_iff (kind cell.value) "string")

identity_loop_again :
    (cells : List RowValue) (k : String) (found : Option String)
    → identity_loop cells (some k) ≡ ok found
    → (cells ≡ []) × (found ≡ some k)
unfolding identity_loop
identity_loop_again [] k found h = (refl, ground arith)
identity_loop_again (cell ∷ cells) k found h = absurd (ground arith)

identity_sound :
    (cells : List RowValue) (key : String)
    → parse_identity (some cells) ≡ ok key
    → (cell : RowValue) × (cells ≡ cell ∷ []) × Holds "key" key cell
unfolding parse_identity identity_loop
identity_sound [] key h = absurd (ground arith)
identity_sound (cell ∷ cells) key h = elim (Bool-cases (cell.name == "key")) [
  | inr other ↦ absurd (ground arith)
  | inl named ↦ elim (Result-cases (require_string cell)) [
    | inr (e, failed) ↦ absurd (ground arith)
    | inl (text, holds) ↦ elim (Result-cases (identity_loop cells (some text))) [
      | inr (e, failed) ↦ absurd (ground arith)
      | inl (found, ran) ↦
          let (last, kept) = identity_loop_again cells text found ran in
          let same : text ≡ key = ground arith in
          (cell, cc last, rw (← same) (require_string-Holds "key" cell text named holds))
    ]
  ]
]

identity_complete :
    (cell : RowValue) (key : String)
    → Holds "key" key cell
    → parse_identity (some (cell ∷ [])) ≡ ok key
unfolding parse_identity
identity_complete cell key h =
    ground (arith, require_string_of_Holds cell h, eq_iff cell.name "key")

-- An identity is accepted exactly when it is one string cell named `key`; its text, empty or not, is
-- the key.
pub parse_identity_iff :
    (cells : List RowValue) (key : String)
    → (parse_identity (some cells) ≡ ok key)
      ↔ ((cell : RowValue) × (cells ≡ cell ∷ []) × Holds "key" key cell)
parse_identity_iff cells key =
    (identity_sound cells key, λ s. rw s.1 (identity_complete s.0 key s.2))
