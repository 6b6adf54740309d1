-- ===== src/Text/Sort.antt =====
-- `slice::sort` on texts, and that its result is the one sorted rearrangement.
use mathlib.Core.List.{Perm, foldr}
use mathlib.Core.List.Perm
use mathlib.Core.HLevel.{hedberg}
use redis_driver_for_per_wor.Prelude.{
  ◌≡◌, refl, Bool, true, List, [], ◌∷◌, String, if◌then◌else◌, arith, All, Bool-cases, inl, inr,
  length, suc, ap, sym, ◌∙◌, ◌==◌, eq_iff,
}
use redis_driver_for_per_wor.Text.Order.{
  text_leb, text_leb_total, text_leb_trans, text_leb_antisymm,
}

unfoldable pub insert_sorted : String → List String → List String
insert_sorted s [] = s ∷ []
insert_sorted s (t ∷ rest) =
    let later = insert_sorted s rest in if text_leb s t then s ∷ t ∷ rest else t ∷ later

unfoldable pub sort : List String → List String
sort [] = []
sort (s ∷ rest) = insert_sorted s (sort rest)

-- `slice::sort_by`: a stable sort by a test for at most.
module _ {A : Type 0} (at_most : A → A → Bool) where
  unfoldable pub insert_by : A → List A → List A
  insert_by a [] = a ∷ []
  insert_by a (b ∷ rest) =
      let later = insert_by a rest in if at_most a b then a ∷ b ∷ rest else b ∷ later

  unfoldable pub sort_by : List A → List A
  unfolding insert_by
  sort_by [] = []
  sort_by (a ∷ rest) = insert_by a (sort_by rest)

-- `slice::sort_by_key` with a text as the key.
abbrev pub sort_by_key : {A : Type 0} → (A → String) → List A → List A
sort_by_key key = sort_by (λ a b. text_leb (key a) (key b))

-- Each text is before all that follow it.
abbrev pub IsSorted : List String → Type 0
IsSorted [] = Unit
IsSorted (s ∷ rest) = All (λ t. text_leb s t ≡ true) rest × IsSorted rest

insert_sorted-Perm : (s : String) (l : List String) → Perm (insert_sorted s l) (s ∷ l)
unfolding insert_sorted
insert_sorted-Perm s [] = Perm.rfl
insert_sorted-Perm s (t ∷ rest) = elim (Bool-cases (text_leb s t)) [
  | inl le ↦ rw (insert_sorted, le) Perm.rfl
  | inr gt ↦
      rw (insert_sorted, gt)
        (Perm.trans (Perm.cons t (insert_sorted-Perm s rest)) (Perm.swap s t rest))
]

-- Sorting rearranges.
pub sort-Perm : (l : List String) → Perm (sort l) l
unfolding sort
sort-Perm [] = Perm.rfl
sort-Perm (s ∷ rest) = Perm.trans (insert_sorted-Perm s (sort rest)) (Perm.cons s (sort-Perm rest))

All-insert_sorted :
    (P : String → Type 0) (s : String) (l : List String) → P s → All P l → All P (insert_sorted s l)
unfolding insert_sorted
All-insert_sorted P s [] p h = (p, tt)
All-insert_sorted P s (t ∷ rest) p h = elim (Bool-cases (text_leb s t)) [
  | inl le ↦ rw (insert_sorted, le) (p, h)
  | inr gt ↦ rw (insert_sorted, gt) (h.0, All-insert_sorted P s rest p h.1)
]

All-text_leb :
    (s t : String) (l : List String)
    → text_leb s t ≡ true
    → All (λ u. text_leb t u ≡ true) l
    → All (λ u. text_leb s u ≡ true) l
All-text_leb s t [] h a = tt
All-text_leb s t (u ∷ l) h a = (text_leb_trans s t u h a.0, All-text_leb s t l h a.1)

insert_sorted-IsSorted : (s : String) (l : List String) → IsSorted l → IsSorted (insert_sorted s l)
unfolding insert_sorted
insert_sorted-IsSorted s [] h = (tt, tt)
insert_sorted-IsSorted s (t ∷ rest) h = elim (Bool-cases (text_leb s t)) [
  | inl le ↦ rw (insert_sorted, le) ((le, All-text_leb s t rest le h.0), h)
  | inr gt ↦
      rw (insert_sorted, gt)
        (All-insert_sorted _ s rest (text_leb_total s t gt) h.0, insert_sorted-IsSorted s rest h.1)
]

pub sort-IsSorted : (l : List String) → IsSorted (sort l)
unfolding sort
sort-IsSorted [] = tt
sort-IsSorted (s ∷ rest) = insert_sorted-IsSorted s (sort rest) (sort-IsSorted rest)

insert_sorted_comm :
    (s t : String) (l : List String)
    → insert_sorted s (insert_sorted t l) ≡ insert_sorted t (insert_sorted s l)
unfolding insert_sorted
insert_sorted_comm s t [] = ground (arith, text_leb_total s t, text_leb_antisymm s t)
insert_sorted_comm s t (u ∷ l) = ground (
  arith,
  insert_sorted_comm s t l,
  text_leb_total s t,
  text_leb_antisymm s t,
  text_leb_total s u,
  text_leb_total t u,
  text_leb_trans s t u,
  text_leb_trans t s u,
)

sort-foldr : (l : List String) → sort l ≡ foldr insert_sorted [] l
unfolding sort
sort-foldr [] = refl
sort-foldr (s ∷ l) = ap (insert_sorted s) (sort-foldr l)

String-discrete : Discrete String
String-discrete s t = elim (Bool-cases (s == t)) [
  | inl same ↦ yes ((eq_iff s t).0 same)
  | inr other ↦ no (λ e. ground (arith, eq_iff s t, e))
]

texts_set : IsSet (List String)
texts_set = let String-set : IsSet String = hedberg String-discrete in hlevel String-set

-- Lists with the same texts sort to the same list, in whatever order the texts come.
pub sort_of_Perm : (l r : List String) → Perm l r → sort l ≡ sort r
sort_of_Perm l r p =
    sort-foldr l
    ∙ Perm.foldr-eq texts_set insert_sorted insert_sorted_comm p []
    ∙ sym (sort-foldr r)

length-insert_sorted : (s : String) (l : List String) → length (insert_sorted s l) ≡ suc (length l)
unfolding insert_sorted
length-insert_sorted s [] = refl
length-insert_sorted s (t ∷ l) = ground (arith, length-insert_sorted s l)

pub length-sort : (l : List String) → length (sort l) ≡ length l
unfolding sort
length-sort [] = refl
length-sort (s ∷ l) = length-insert_sorted s (sort l) ∙ ap suc (length-sort l)
