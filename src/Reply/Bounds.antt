-- ===== src/Reply/Bounds.antt =====
-- The wire result of src/redis_service.rs is bounded, whatever the reply.
use Prim.Native.String.{count}
use text.Mathlib.TextLemmas.{length-nil, length-cons, length-append}
use redis_driver_for_per_wor.Prelude.{
  ℕ, zero, suc, ◌-◌, ◌≤◌, ◌<◌, ◌≡◌, ◌↔◌, refl, sym, inl, inr, ap, Bool, true, false, List, [], ◌∷◌,
  map, Option, none, some, String, arith, ltb, length, length-map, length-take, length-replicate,
  take, take_all, All, Bool-cases, if◌then◌else◌,
}
use redis_driver_for_per_wor.Dto.Result.{Cell, QueryResult, StatementMetadata}
use redis_driver_for_per_wor.Reply.{max_rows, max_cell, take_chars, cap_cell, cap_row, finalize}

count-take_chars : (n : ℕ) (s : String) → count (take_chars n s) ≤ n
unfolding take_chars
count-take_chars zero s = omega (arith, length-nil)
count-take_chars (suc n) String.[] = omega (arith, length-nil)
count-take_chars (suc n) (String.◌∷◌ c s) = rw length-cons (omega (arith, count-take_chars n s))

pub cap_cell-le : (s : String) → count (cap_cell s) ≤ max_cell
unfolding cap_cell
cap_cell-le s = elim (Bool-cases (ltb max_cell (count s))) [
  | inl long ↦
      rw (long, length-append (take_chars (max_cell - 1) s) "…")
        (let one : count "…" ≡ 1 = refl in omega (arith, one, count-take_chars 299 s))
  | inr short ↦ rw short (ground arith)
]

cap_cell_short : (s : String) → count s ≤ max_cell → cap_cell s ≡ s
unfolding cap_cell
cap_cell_short s h = ground arith

-- A cell is absent or holds at most that many characters.
abbrev pub CellFits : Cell → Type 0
CellFits none = Unit
CellFits (some s) = count s ≤ max_cell

cap_row-Fits : (row : List Cell) → All CellFits (cap_row row)
cap_row-Fits [] = tt
cap_row-Fits (none ∷ row) = (tt, cap_row-Fits row)
cap_row-Fits (some s ∷ row) = (cap_cell-le s, cap_row-Fits row)

cap_row_short : (row : List Cell) → All CellFits row → cap_row row ≡ row
cap_row_short [] h = refl
cap_row_short (none ∷ row) h = ap (λ r. none ∷ r) (cap_row_short row h.1)
cap_row_short (some s ∷ row) h = λ i. some (cap_cell_short s h.0 i) ∷ cap_row_short row h.1 i

length-cap_row : (row : List Cell) → length (cap_row row) ≡ length row
length-cap_row [] = refl
length-cap_row (none ∷ row) = ap suc (length-cap_row row)
length-cap_row (some s ∷ row) = ap suc (length-cap_row row)

-- What the wire result promises of its rows.
pub record IsBounded (full_rows : List (List Cell)) (r : QueryResult) : Type 0 where
  pub few : length r.rows ≤ max_rows
  pub short : All (All CellFits) r.rows
  pub full : r.untruncated_rows ≡ take max_rows full_rows
  pub capped : r.rows ≡ map cap_row r.untruncated_rows
  pub parallel : length r.rows ≡ length r.untruncated_rows
  pub cut : (r.truncated ≡ true) ↔ (max_rows < length full_rows)
  pub typed : length r.column_types ≡ length r.columns

pub shown_eq_take :
    (rows : List (List Cell))
    → (if ltb max_rows (length rows) then take max_rows rows else rows) ≡ take max_rows rows
shown_eq_take rows = elim (Bool-cases (ltb max_rows (length rows))) [
  | inl long ↦ rw long
  | inr short ↦ rw short (sym (take_all max_rows rows (ground arith)))
]

All-map_cap_row : (rows : List (List Cell)) → All (All CellFits) (map cap_row rows)
All-map_cap_row [] = tt
All-map_cap_row (row ∷ rows) = (cap_row-Fits row, All-map_cap_row rows)

map-cap_row_short : (rows : List (List Cell)) → All (All CellFits) rows → map cap_row rows ≡ rows
map-cap_row_short [] h = refl
map-cap_row_short (row ∷ rows) h = λ i. cap_row_short row h.0 i ∷ map-cap_row_short rows h.1 i

module _ (columns : List String) (full_rows : List (List Cell)) (duration : ℕ) (has_more : Bool)
    (statement : Option String) (statement_metadata : Option StatementMetadata) where
  -- Whatever the rows, the wire result has at most 500 of them with at most 300 characters in each
  -- cell; the full values of exactly the first 500 rows stand beside them; `truncated` tells whether
  -- more were cut; and there is a column type for each column.
  pub finalize-IsBounded :
      IsBounded full_rows
        (finalize columns full_rows duration has_more statement statement_metadata)
  unfolding finalize
  finalize-IsBounded = record {
    few = omega (
      arith,
      length-map cap_row (take max_rows full_rows),
      length-take max_rows full_rows,
      ap (λ shown. length (map cap_row shown)) (shown_eq_take full_rows),
    );
    short = All-map_cap_row _;
    full = shown_eq_take full_rows;
    capped = refl;
    parallel = length-map cap_row _;
    cut = ground arith;
    typed = length-replicate (length columns) "string";
  }

  -- Rows within the bounds reach the wire unchanged.
  pub finalize_within :
      length full_rows ≤ max_rows
      → All (All CellFits) full_rows
      → ((finalize columns full_rows duration has_more statement statement_metadata).rows
          ≡ full_rows)
        × ((finalize columns full_rows duration has_more statement statement_metadata).truncated
            ≡ false)
  unfolding finalize
  finalize_within few short =
      let same : ltb max_rows (length full_rows) ≡ false = ground arith in
      (rw same (map-cap_row_short full_rows short), same)
