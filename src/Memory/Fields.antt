-- ===== src/Memory/Fields.antt =====
-- The cells of the in-memory row writes of src/service.rs, against the rules of src/redis_service.rs.
use redis_driver_for_per_wor.Prelude.{
  ◌≡◌, ◌↔◌, refl, false, List, [], ◌∷◌, Option, none, some, String, ◌==◌, ok, err, Result, arith,
  All, inl, inr, Bool-cases, Result-cases, >>=-ok,
}
use redis_driver_for_per_wor.Dto.Write.{RowValue}
use redis_driver_for_per_wor.Service.Errors.{ServiceError}
use redis_driver_for_per_wor.RowWrite.{
  Cells, Changes, identity_loop, insert_cell, insert_loop, parse_identity, parse_insert_values,
  parse_update_values, require_string, update_cell, update_loop,
}
use redis_driver_for_per_wor.Memory.{
  MemoryCells, memory_identity, memory_identity_loop, memory_insert_cell, memory_insert_fields,
  memory_insert_loop, memory_string_cell, memory_update_cell, memory_update_fields,
  memory_update_loop,
}

memory_string_cell-require_string :
    (cell : RowValue) → memory_string_cell cell ≡ require_string cell
unfolding memory_string_cell require_string
memory_string_cell-require_string cell = refl

memory_identity_loop-identity_loop :
    (cells : List RowValue) (found : Option String)
    → memory_identity_loop cells found ≡ identity_loop cells found
unfolding memory_identity_loop identity_loop
memory_identity_loop-identity_loop [] found = refl
memory_identity_loop-identity_loop (cell ∷ cells) found =
    elim (Result-cases (require_string cell)) [
      | inl (key, good) ↦ ground (
        arith,
        memory_string_cell-require_string cell,
        memory_identity_loop-identity_loop cells (some key),
      )
      | inr (e, bad) ↦ ground (arith, memory_string_cell-require_string cell)
    ]

-- The identity is read by one rule, errors included.
pub memory_identity-parse_identity :
    (cells : Option (List RowValue)) → memory_identity cells ≡ parse_identity cells
unfolding memory_identity parse_identity
memory_identity-parse_identity none = refl
memory_identity-parse_identity (some cells) =
    rw (memory_identity_loop-identity_loop cells none) refl

-- An update accepts the same cells; only the refusal of a `type` cell reads differently.
memory_update_cell_iff :
    (cell : RowValue) (c c' : Changes)
    → (memory_update_cell cell c ≡ ok c') ↔ (update_cell cell c ≡ ok c')
unfolding memory_update_cell update_cell
memory_update_cell_iff cell c c' = elim (Bool-cases (cell.name == "key")) [
  | inl key ↦ rw (key, memory_string_cell-require_string cell) ((λ h. h), λ h. h)
  | inr other ↦ elim (Bool-cases (cell.name == "value")) [
    | inl value ↦ rw (other, value, memory_string_cell-require_string cell) ((λ h. h), λ h. h)
    | inr unknown ↦ ground arith
  ]
]

memory_update_loop_iff :
    (cells : List RowValue) (c c' : Changes)
    → (memory_update_loop cells c ≡ ok c') ↔ (update_loop cells c ≡ ok c')
unfolding memory_update_loop update_loop
memory_update_loop_iff [] c c' = ((λ h. h), λ h. h)
memory_update_loop_iff (cell ∷ cells) c c' = (
  λ h.
      let (d, one, rest) = >>=-ok (memory_update_loop cells) (memory_update_cell cell c) h in
      rw ((memory_update_cell_iff cell c d).0 one) ((memory_update_loop_iff cells d c').0 rest),
  λ h.
      let (d, one, rest) = >>=-ok (update_loop cells) (update_cell cell c) h in
      rw ((memory_update_cell_iff cell c d).1 one) ((memory_update_loop_iff cells d c').1 rest),
)

pub memory_update_fields_iff :
    (cells : List RowValue) (rename_to value : Option String)
    → (memory_update_fields (some cells) ≡ ok (rename_to, value))
      ↔ (parse_update_values cells ≡ ok (rename_to, value))
unfolding memory_update_fields parse_update_values
memory_update_fields_iff cells r v =
    let start : Changes = record { rename_to = none; value = none } in
    (
      λ h.
          let (c, ran, checked) = >>=-ok _ (memory_update_loop cells start) h in
          rw ((memory_update_loop_iff cells start c).0 ran) checked,
      λ h.
          let (c, ran, checked) = >>=-ok _ (update_loop cells start) h in
          rw ((memory_update_loop_iff cells start c).1 ran) checked,
    )

-- An insert has no column `type` to fill, which is all that tells the rules apart.
abbrev pub IsUntyped : List RowValue → Type 0
IsUntyped cells = All (λ cell. (RowValue.name cell == "type") ≡ false) cells

abbrev typed : MemoryCells → Cells
typed c = record { key = c.key; value = c.value; type_seen = false }

-- The two loops with their variables side by side.
abbrev typed_result : Result ServiceError MemoryCells → Result ServiceError Cells
typed_result (ok c) = ok (typed c)
typed_result (err e) = err e

memory_insert_cell-insert_cell :
    (cell : RowValue) (c : MemoryCells)
    → (cell.name == "type") ≡ false
    → typed_result (memory_insert_cell cell c) ≡ insert_cell cell (typed c)
unfolding memory_insert_cell insert_cell
memory_insert_cell-insert_cell cell c untyped = elim (Result-cases (require_string cell)) [
  | inl (text, good) ↦ ground (arith, memory_string_cell-require_string cell)
  | inr (e, bad) ↦ ground (arith, memory_string_cell-require_string cell)
]

memory_insert_loop-insert_loop :
    (cells : List RowValue) (c : MemoryCells)
    → IsUntyped cells
    → typed_result (memory_insert_loop cells c) ≡ insert_loop cells (typed c)
unfolding memory_insert_loop insert_loop
memory_insert_loop-insert_loop [] c h = refl
memory_insert_loop-insert_loop (cell ∷ cells) c h =
    rw (← memory_insert_cell-insert_cell cell c h.0)
      (elim (Result-cases (memory_insert_cell cell c)) [
        | inl (d, good) ↦ rw good (memory_insert_loop-insert_loop cells d h.1)
        | inr (e, bad) ↦ rw bad refl
      ])

memory_insert_fields-parse_insert_values :
    (cells : List RowValue)
    → IsUntyped cells
    → memory_insert_fields (some cells) ≡ parse_insert_values cells
unfolding memory_insert_fields parse_insert_values
memory_insert_fields-parse_insert_values cells h =
    let start : MemoryCells = record { key = none; value = none } in
    rw (← memory_insert_loop-insert_loop cells start h)
      (elim (Result-cases (memory_insert_loop cells start)) [
        | inl (c, good) ↦ rw good refl
        | inr (e, bad) ↦ rw bad refl
      ])

-- The cells of a row write are validated as the Redis session validates them: the identity is read the
-- same, errors included; the changed columns of an update are accepted for the same new key and new
-- value; and the cells of an insert, unless one is named `type`, are read the same, errors included.
pub memory_fields_mirror :
    (identity : Option (List RowValue)) (changes cells : List RowValue)
    (rename_to value : Option String)
    → IsUntyped cells
    → (memory_identity identity ≡ parse_identity identity)
      × ((memory_update_fields (some changes) ≡ ok (rename_to, value))
          ↔ (parse_update_values changes ≡ ok (rename_to, value)))
      × (memory_insert_fields (some cells) ≡ parse_insert_values cells)
memory_fields_mirror identity changes cells r v untyped = (
  memory_identity-parse_identity identity,
  memory_update_fields_iff changes r v,
  memory_insert_fields-parse_insert_values cells untyped,
)
