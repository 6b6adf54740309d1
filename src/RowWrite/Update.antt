-- ===== src/RowWrite/Update.antt =====
-- The changed columns of an update in src/redis_service.rs.
use redis_driver_for_per_wor.Prelude.{
  ℕ, ◌+◌, ◌≤◌, ◌≡◌, ◌≢◌, ◌↔◌, ◌⊎◌, refl, inl, inr, List, [], ◌∷◌, Option, none, some, String, ◌==◌,
  eq_iff, arith, ok, Bool-cases, Result-cases, >>=-ok, if◌then◌else◌,
}
use redis_driver_for_per_wor.Dto.Write.{RowValue}
use redis_driver_for_per_wor.Statement.{is_some}
use redis_driver_for_per_wor.RowWrite.{
  Changes, require_string, update_cell, update_loop, parse_update_values,
}
use redis_driver_for_per_wor.RowWrite.Identity.{
  Holds, Holds-name, require_string-Holds, require_string_of_Holds,
}

-- The accepted lists of changed columns: a new nonempty key, a new value, or both in either order.
pub data Form : List RowValue → Option String → Option String → Type 0 where
  rename : {c : RowValue} (k : String) → k ≢ "" → Holds "key" k c → Form (c ∷ []) (some k) none
  replace : {c : RowValue} (v : String) → Holds "value" v c → Form (c ∷ []) none (some v)
  rename_replace :
      {c d : RowValue} (k v : String)
      → k ≢ ""
      → Holds "key" k c
      → Holds "value" v d
      → Form (c ∷ d ∷ []) (some k) (some v)
  replace_rename :
      {c d : RowValue} (k v : String)
      → k ≢ ""
      → Holds "key" k c
      → Holds "value" v d
      → Form (d ∷ c ∷ []) (some k) (some v)

-- What one accepted cell changes.
data Changed (cell : RowValue) (c c' : Changes) : Type 0 where
  renamed :
      (k : String)
      → k ≢ ""
      → Holds "key" k cell
      → c.rename_to ≡ none
      → c' ≡ record c { rename_to = some k }
      → Changed cell c c'
  replaced :
      (v : String)
      → Holds "value" v cell
      → c.value ≡ none
      → c' ≡ record c { value = some v }
      → Changed cell c c'

update_cell-Changed :
    (cell : RowValue) (c c' : Changes) → update_cell cell c ≡ ok c' → Changed cell c c'
unfolding update_cell
update_cell-Changed cell c c' h = elim (Result-cases (require_string cell)) [
  | inr (e, failed) ↦ absurd (ground arith)
  | inl (text, holds) ↦ elim (Bool-cases (cell.name == "key")) [
    | inl key ↦
        renamed text (ground (arith, eq_iff text ""))
          (require_string-Holds "key" cell text key holds) (ground arith) (ground arith)
    | inr other ↦ elim (Bool-cases (cell.name == "value")) [
      | inl value ↦
          replaced text (require_string-Holds "value" cell text value holds) (ground arith)
            (ground arith)
      | inr unknown ↦ absurd (ground arith)
    ]
  ]
]

-- How many of the two columns have changed.
abbrev filled : Changes → ℕ
filled c = (if is_some c.rename_to then 1 else 0) + (if is_some c.value then 1 else 0)

Changed-filled : {x : RowValue} {c c' : Changes} → Changed x c c' → filled c' ≡ filled c + 1
Changed-filled (renamed k _ _ fresh e) = ground arith
Changed-filled (replaced v _ fresh e) = ground arith

filled_le : (c : Changes) → filled c ≤ 2
filled_le c = ground arith

abbrev unchanged : Changes
unchanged = record { rename_to = none; value = none }

one_cell : {x : RowValue} {c : Changes} → Changed x unchanged c → Form (x ∷ []) c.rename_to c.value
one_cell (renamed k nonempty h _ e) = rw e (rename k nonempty h)
one_cell (replaced v h _ e) = rw e (replace v h)

two_cells :
    {x y : RowValue} {m c : Changes}
    → Changed x unchanged m
    → Changed y m c
    → Form (x ∷ y ∷ []) c.rename_to c.value
two_cells (renamed k p h _ e) (renamed j q i fresh e') = absurd (ground arith)
two_cells (renamed k p h _ e) (replaced v i fresh e') = rw (e', e) (rename_replace k v p h i)
two_cells (replaced v i _ e) (renamed k p h fresh e') = rw (e', e) (replace_rename k v p h i)
two_cells (replaced v h _ e) (replaced w i fresh e') = absurd (ground arith)

update_loop-step :
    (x : RowValue) (xs : List RowValue) (c c' : Changes)
    → update_loop (x ∷ xs) c ≡ ok c'
    → (m : Changes) × Changed x c m × (update_loop xs m ≡ ok c')
unfolding update_loop
update_loop-step x xs c c' h =
    let (m, p, q) = >>=-ok (update_loop xs) (update_cell x c) h in
    (m, update_cell-Changed x c m p, q)

update_loop_sound :
    (cells : List RowValue) (c : Changes)
    → update_loop cells unchanged ≡ ok c
    → (c ≡ unchanged) ⊎ Form cells c.rename_to c.value
unfolding update_loop
update_loop_sound [] c h = inl (ground arith)
update_loop_sound (x ∷ []) c h =
    let (m, p, q) = update_loop-step x [] unchanged c h in
    let e : m ≡ c = ground arith in inr (one_cell (rw e at p))
update_loop_sound (x ∷ y ∷ []) c h =
    let (m, p, q) = update_loop-step x (y ∷ []) unchanged c h in
    let (n, p', q') = update_loop-step y [] m c q in
    let e : n ≡ c = ground arith in inr (two_cells p (rw e at p'))
update_loop_sound (x ∷ y ∷ z ∷ rest) c h =
    let (m, p, q) = update_loop-step x (y ∷ z ∷ rest) unchanged c h in
    let (n, p', q') = update_loop-step y (z ∷ rest) m c q in
    let (o, p'', q'') = update_loop-step z rest n c q' in
    absurd (omega (arith, Changed-filled p, Changed-filled p', Changed-filled p'', filled_le o))

update_sound :
    (cells : List RowValue) (r v : Option String)
    → parse_update_values cells ≡ ok (r, v)
    → Form cells r v
unfolding parse_update_values
update_sound cells r v h = elim (Result-cases (update_loop cells unchanged)) [
  | inr (e, failed) ↦ absurd (ground arith)
  | inl (c, ran) ↦
      let e : c.rename_to ≡ r = ground arith in
      let e' : c.value ≡ v = ground arith in
      elim (update_loop_sound cells c ran) [
        | inl none_changed ↦ absurd (ground arith)
        | inr form ↦ rw (← e, ← e') form
      ]
]

update_cell_key :
    (x : RowValue) (k : String) (c : Changes)
    → k ≢ ""
    → Holds "key" k x
    → c.rename_to ≡ none
    → update_cell x c ≡ ok (record c { rename_to = some k })
unfolding update_cell
update_cell_key x k c nonempty h fresh =
    ground (arith, require_string_of_Holds x h, Holds-name x h "key", eq_iff k "")

update_cell_value :
    (x : RowValue) (v : String) (c : Changes)
    → Holds "value" v x
    → c.value ≡ none
    → update_cell x c ≡ ok (record c { value = some v })
unfolding update_cell
update_cell_value x v c h fresh =
    ground (arith, require_string_of_Holds x h, Holds-name x h "key", Holds-name x h "value")

update_complete :
    {cells : List RowValue} {r v : Option String}
    → Form cells r v
    → parse_update_values cells ≡ ok (r, v)
unfolding parse_update_values update_loop
update_complete (rename {c} k p h) = rw (update_cell_key c k unchanged p h refl)
update_complete (replace {c} v h) = rw (update_cell_value c v unchanged h refl)
update_complete (rename_replace {c} {d} k v p h i) = rw (
  update_cell_key c k unchanged p h refl,
  update_cell_value d v (record { rename_to = some k; value = none }) i refl,
)
update_complete (replace_rename {c} {d} k v p h i) = rw (
  update_cell_value d v unchanged i refl,
  update_cell_key c k (record { rename_to = none; value = some v }) p h refl,
)

-- The changed columns of an update are accepted exactly in four forms: a new key that is not empty,
-- a new value, or both in either order, each a plain string; the result holds just those.
pub parse_update_values_iff :
    (cells : List RowValue) (rename_to value : Option String)
    → (parse_update_values cells ≡ ok (rename_to, value)) ↔ Form cells rename_to value
parse_update_values_iff cells r v = (update_sound cells r v, update_complete)
