-- ===== src/RowWrite/Request.antt =====
-- The whole row-write request in src/redis_service.rs: what `parse_row_write` accepts.
use redis_driver_for_per_wor.Prelude.{
  ◌≡◌, ◌↔◌, refl, inl, inr, true, false, List, [], ◌∷◌, Option, none, some, String, ◌==◌, eq_iff,
  arith, ok, Bool-cases, Option-cases, Result-cases,
}
use redis_driver_for_per_wor.Dto.Write.{RowValue, RowWriteRequest}
use redis_driver_for_per_wor.RowWrite.{
  RowWrite, delete, update, insert, Cells, has_values, parse_identity, parse_insert_values,
  parse_row_write, parse_update_values, unwrap_or_default,
}
use redis_driver_for_per_wor.RowWrite.Identity.{Holds, parse_identity_iff}
use redis_driver_for_per_wor.RowWrite.Insert.{Records, no_cells, parse_insert_values_iff}
use redis_driver_for_per_wor.RowWrite.Update.{Form, parse_update_values_iff}

-- The identity is one string cell named `key`.
abbrev pub Identifies : Option (List RowValue) → String → Type 0
Identifies cells key = (cell : RowValue) × (cells ≡ some (cell ∷ [])) × Holds "key" key cell

-- The requests of each operation on the `keys` table.
pub data Accepts (r : RowWriteRequest) : RowWrite → Type 0 where
  deletes :
      (key : String)
      → r.operation ≡ "delete"
      → Identifies r.key key
      → has_values r.values ≡ false
      → Accepts r (delete key)
  updates :
      (key : String) (rename_to value : Option String) (cells : List RowValue)
      → r.operation ≡ "update"
      → Identifies r.key key
      → r.values ≡ some cells
      → Form cells rename_to value
      → Accepts r (update key rename_to value)
  inserts :
      (key value : String) (cells : List RowValue) (c : Cells)
      → r.operation ≡ "insert"
      → r.key ≡ none
      → r.values ≡ some cells
      → Records cells no_cells c
      → c.key ≡ some key
      → unwrap_or_default c.value ≡ value
      → Accepts r (insert key value)

identity_of :
    (cells : Option (List RowValue)) (key : String)
    → parse_identity cells ≡ ok key
    → Identifies cells key
unfolding parse_identity
identity_of none key h = cc
identity_of (some cells) key h =
    let (cell, one, holds) = (parse_identity_iff cells key).0 h in (cell, cc one, holds)

identity_complete_of :
    (cells : Option (List RowValue)) (key : String)
    → Identifies cells key
    → parse_identity cells ≡ ok key
identity_complete_of cells key (cell, one, holds) =
    rw one ((parse_identity_iff (cell ∷ []) key).1 (cell, refl, holds))

insert_sound :
    (r : RowWriteRequest) (w : RowWrite)
    → (r.table == "keys") ≡ true
    → (r.operation == "delete") ≡ false
    → (r.operation == "update") ≡ false
    → parse_row_write r ≡ ok w
    → Accepts r w
unfolding parse_row_write
insert_sound r w keys not_delete not_update h = elim (Option-cases r.key) [
  | inr (cells, identity) ↦ absurd (ground arith)
  | inl no_key ↦ elim (Option-cases r.values) [
    | inl missing ↦ absurd (ground arith)
    | inr (cells, given) ↦ elim (Result-cases (parse_insert_values cells)) [
      | inr (e, failed) ↦ absurd (ground arith)
      | inl ((key, value), read) ↦
          let (c, records, has_key, has_value) = (parse_insert_values_iff cells key value).0 read in
          let same : insert key value ≡ w = ground arith in
          let is_insert : r.operation ≡ "insert" = ground (arith, eq_iff r.operation "insert") in
          rw (← same) (inserts key value cells c is_insert no_key given records has_key has_value)
    ]
  ]
]

row_write_sound :
    (r : RowWriteRequest) (w : RowWrite)
    → parse_row_write r ≡ ok w
    → (r.table ≡ "keys") × Accepts r w
unfolding parse_row_write
row_write_sound r w h = elim (Bool-cases (r.table == "keys")) [
  | inr other ↦ absurd (ground arith)
  | inl keys ↦ (
    (eq_iff r.table "keys").0 keys,
    elim (Bool-cases (r.operation == "delete")) [
      | inl is_delete ↦ elim (Bool-cases (has_values r.values)) [
        | inl payload ↦ absurd (ground arith)
        | inr bare ↦ elim (Result-cases (parse_identity r.key)) [
          | inr (e, failed) ↦ absurd (ground arith)
          | inl (key, ran) ↦
              let same : delete key ≡ w = ground arith in
              rw (← same) (
                deletes key ((eq_iff r.operation "delete").0 is_delete) (identity_of r.key key ran)
                  bare)
        ]
      ]
      | inr not_delete ↦ elim (Bool-cases (r.operation == "update")) [
        | inl is_update ↦ elim (Result-cases (parse_identity r.key)) [
          | inr (e, failed) ↦ absurd (ground arith)
          | inl (key, ran) ↦ elim (Option-cases r.values) [
            | inl missing ↦ absurd (ground arith)
            | inr (cells, given) ↦ elim (Result-cases (parse_update_values cells)) [
              | inr (e, failed) ↦ absurd (ground arith)
              | inl ((rename_to, value), read) ↦
                  let same : update key rename_to value ≡ w = ground arith in
                  rw (← same) (
                    updates key rename_to value cells ((eq_iff r.operation "update").0 is_update)
                      (identity_of r.key key ran) given
                      ((parse_update_values_iff cells rename_to value).0 read))
            ]
          ]
        ]
        | inr not_update ↦ insert_sound r w keys not_delete not_update h
      ]
    ],
  )
]

row_write_complete :
    (r : RowWriteRequest) (w : RowWrite) → r.table ≡ "keys" → Accepts r w → parse_row_write r ≡ ok w
unfolding parse_row_write
row_write_complete r w t (deletes key o i bare) =
    rw (parse_row_write, t, o, bare, identity_complete_of r.key key i) refl
row_write_complete r w t (updates key rename_to value cells o i given form) =
    rw
      (
        parse_row_write,
        t,
        o,
        identity_complete_of r.key key i,
        given,
        (parse_update_values_iff cells rename_to value).1 form,
      )
      refl
row_write_complete r w t (inserts key value cells c o no_key given records k v) =
    rw
      (
        parse_row_write,
        t,
        o,
        no_key,
        given,
        (parse_insert_values_iff cells key value).1 (c, records, k, v),
      )
      refl

-- A row write is accepted exactly when it is on the `keys` table and is one of three: a delete of one
-- identified key without values; an update of one identified key with changed columns in one of the
-- accepted forms; an insert without an identity and with insert cells. The accepted write holds just
-- what the request names.
pub parse_row_write_iff :
    (r : RowWriteRequest) (w : RowWrite)
    → (parse_row_write r ≡ ok w) ↔ ((r.table ≡ "keys") × Accepts r w)
parse_row_write_iff r w = (row_write_sound r w, λ h. row_write_complete r w h.0 h.1)
