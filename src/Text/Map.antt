-- ===== src/Text/Map.antt =====
-- `HashMap<String, String>` by its entries: insertion replaces, removal drops the key.
use redis_driver_for_per_wor.Prelude.{
  ◌≡◌, refl, List, [], ◌∷◌, Option, none, some, String, ◌==◌, eq_iff, arith, if◌then◌else◌, inl,
  inr, Bool-cases,
}

abbrev pub Map : Type 0
Map = List (String × String)

unfoldable pub get : String → Map → Option String
get key [] = none
get key ((k, v) ∷ m) = let rest = get key m in if k == key then some v else rest

unfoldable pub remove : String → Map → Map
remove key [] = []
remove key ((k, v) ∷ m) = let rest = remove key m in if k == key then rest else (k, v) ∷ rest

unfoldable pub insert : String → String → Map → Map
insert key value m = (key, value) ∷ remove key m

pub get-remove :
    (key other : String) (m : Map)
    → get other (remove key m) ≡ (if other == key then none else get other m)
unfolding get remove
get-remove key other [] = ground arith
get-remove key other ((k, v) ∷ m) =
    ground (arith, get-remove key other m, eq_iff k key, eq_iff k other, eq_iff other key)

pub get-insert :
    (key value other : String) (m : Map)
    → get other (insert key value m) ≡ (if other == key then some value else get other m)
unfolding get insert
get-insert key value other m =
    ground (arith, get-remove key other m, eq_iff key other, eq_iff other key)

-- No two entries have one key.
abbrev pub IsDistinct : Map → Type 0
IsDistinct [] = Unit
IsDistinct ((k, v) ∷ m) = (get k m ≡ none) × IsDistinct m

pub remove-IsDistinct : (key : String) (m : Map) → IsDistinct m → IsDistinct (remove key m)
unfolding remove
remove-IsDistinct key [] h = tt
remove-IsDistinct key ((k, v) ∷ m) h = elim (Bool-cases (k == key)) [
  | inl same ↦ rw (remove, same) (remove-IsDistinct key m h.1)
  | inr other ↦ rw (remove, other) (rw (get-remove key k m, other) h.0, remove-IsDistinct key m h.1)
]

pub insert-IsDistinct :
    (key value : String) (m : Map) → IsDistinct m → IsDistinct (insert key value m)
unfolding insert
insert-IsDistinct key value m h =
    (rw (get-remove key key m, (eq_iff key key).1 refl) refl, remove-IsDistinct key m h)
