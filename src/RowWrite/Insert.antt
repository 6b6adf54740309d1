-- ===== src/RowWrite/Insert.antt =====
-- The insert cells and the whole row-write request in src/redis_service.rs.
use redis_driver_for_per_wor.Prelude.{
  ◌≡◌, ◌↔◌, ◌⊎◌, refl, inl, inr, true, false, List, [], ◌∷◌, none, some, String, ◌==◌, eq_iff,
  arith, ok, Bool-cases, Result-cases, >>=-ok,
}
use redis_driver_for_per_wor.Dto.Write.{RowValue, kind}
use redis_driver_for_per_wor.RowWrite.{
  Cells, require_string, insert_cell, insert_loop, insert_type, parse_insert_values,
  unwrap_or_default,
}
use redis_driver_for_per_wor.RowWrite.Identity.{
  Holds, Holds-name, require_string-Holds, require_string_of_Holds,
}

-- What one accepted insert cell records: the key, the value, or a `type` that is blank or `string`.
pub data Recorded (x : RowValue) (c c' : Cells) : Type 0 where
  keyed :
      (k : String)
      → Holds "key" k x
      → c.key ≡ none
      → c' ≡ record c { key = some k }
      → Recorded x c c'
  valued :
      (v : String)
      → Holds "value" v x
      → c.value ≡ none
      → c' ≡ record c { value = some v }
      → Recorded x c c'
  typed :
      (t : String)
      → Holds "type" t x
      → (t ≡ "") ⊎ (t ≡ "string")
      → c.type_seen ≡ false
      → c' ≡ record c { type_seen = true }
      → Recorded x c c'

-- The cells one after the other: no column twice, no other column.
pub data Records : List RowValue → Cells → Cells → Type 0 where
  stop : {c : Cells} → Records [] c c
  then_cell :
      {x : RowValue} {xs : List RowValue} {c m c' : Cells}
      → Recorded x c m
      → Records xs m c'
      → Records (x ∷ xs) c c'

insert_type-Holds :
    (x : RowValue) (t : String)
    → (x.name == "type") ≡ true
    → insert_type x ≡ ok t
    → Holds "type" t x
unfolding insert_type
insert_type-Holds x t n h = record {
  named = (eq_iff x.name "type").0 n;
  is_string = ground (arith, eq_iff (kind x.value) "string");
  holds = ground arith;
}

insert_cell-Recorded : (x : RowValue) (c c' : Cells) → insert_cell x c ≡ ok c' → Recorded x c c'
unfolding insert_cell
insert_cell-Recorded x c c' h = elim (Bool-cases (x.name == "key")) [
  | inl key ↦ elim (Result-cases (require_string x)) [
    | inr (e, failed) ↦ absurd (ground arith)
    | inl (text, holds) ↦
        keyed text (require_string-Holds "key" x text key holds) (ground arith) (ground arith)
  ]
  | inr other ↦ elim (Bool-cases (x.name == "value")) [
    | inl value ↦ elim (Result-cases (require_string x)) [
      | inr (e, failed) ↦ absurd (ground arith)
      | inl (text, holds) ↦
          valued text (require_string-Holds "value" x text value holds) (ground arith)
            (ground arith)
    ]
    | inr neither ↦ elim (Bool-cases (x.name == "type")) [
      | inr unknown ↦ absurd (ground arith)
      | inl type_ ↦ elim (Result-cases (insert_type x)) [
        | inr (e, failed) ↦ absurd (ground arith)
        | inl (t, holds) ↦
            typed t (insert_type-Holds x t type_ holds)
              (ground (arith, eq_iff t "", eq_iff t "string")) (ground arith) (ground arith)
      ]
    ]
  ]
]

insert_cell_of_Recorded : (x : RowValue) (c c' : Cells) → Recorded x c c' → insert_cell x c ≡ ok c'
unfolding insert_cell insert_type
insert_cell_of_Recorded x c c' (keyed k h fresh e) =
    ground (arith, require_string_of_Holds x h, Holds-name x h "key")
insert_cell_of_Recorded x c c' (valued v h fresh e) =
    ground (arith, require_string_of_Holds x h, Holds-name x h "key", Holds-name x h "value")
insert_cell_of_Recorded x c c' (typed t h blank fresh e) = ground (
  arith,
  Holds-name x h "key",
  Holds-name x h "value",
  Holds-name x h "type",
  eq_iff (kind x.value) "string",
  eq_iff t "",
  eq_iff t "string",
)

insert_loop_sound :
    (cells : List RowValue) (c c' : Cells) → insert_loop cells c ≡ ok c' → Records cells c c'
unfolding insert_loop
insert_loop_sound [] c c' h = let e : c ≡ c' = cc in rw (← e) stop
insert_loop_sound (x ∷ xs) c c' h =
    let (m, p, q) = >>=-ok (insert_loop xs) (insert_cell x c) h in
    then_cell (insert_cell-Recorded x c m p) (insert_loop_sound xs m c' q)

insert_loop_complete :
    {cells : List RowValue} {c c' : Cells} → Records cells c c' → insert_loop cells c ≡ ok c'
unfolding insert_loop
insert_loop_complete stop = refl
insert_loop_complete (then_cell {x} {c} {m} p q) =
    rw (insert_cell_of_Recorded x c m p) (insert_loop_complete q)

abbrev pub no_cells : Cells
no_cells = record { key = none; value = none; type_seen = false }

-- Insert cells are accepted exactly when each is a `key`, a `value` or a blank or `string` `type`, no
-- column twice, and the key is there; an absent value is the empty text.
pub parse_insert_values_iff :
    (cells : List RowValue) (key value : String)
    → (parse_insert_values cells ≡ ok (key, value)) ↔ (
        (c : Cells) × Records cells no_cells c
        × (c.key ≡ some key)
        × (unwrap_or_default c.value ≡ value))
unfolding parse_insert_values
parse_insert_values_iff cells key value = (sound, complete)
  where
    sound :
        parse_insert_values cells ≡ ok (key, value)
        → (c : Cells) × Records cells no_cells c
          × (c.key ≡ some key)
          × (unwrap_or_default c.value ≡ value)
    sound h = elim (Result-cases (insert_loop cells no_cells)) [
      | inr (e, failed) ↦ absurd (ground arith)
      | inl (c, ran) ↦ (c, insert_loop_sound cells no_cells c ran, ground arith, ground arith)
    ]

    complete :
        ((c : Cells) × Records cells no_cells c
          × (c.key ≡ some key)
          × (unwrap_or_default c.value ≡ value))
        → parse_insert_values cells ≡ ok (key, value)
    complete (c, r, k, v) = rw (insert_loop_complete r, k, v)
