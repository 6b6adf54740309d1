-- ===== src/Text/SortBy.antt =====
-- What a sort by a test gives: the same elements, in order.
use redis_driver_for_per_wor.Prelude.{
  ◌≡◌, Bool, true, false, List, [], ◌∷◌, All, Bool-cases, inl, inr, String, ◌==◌, eq_iff, arith,
  if◌then◌else◌,
}
use redis_driver_for_per_wor.Text.Order.{
  text_leb, text_leb_total, text_leb_trans, text_leb_antisymm,
}
use redis_driver_for_per_wor.Text.Sort.{insert_by, sort_by}

module _ {A : Type 0} (at_most : A → A → Bool) where
  module _ (P : A → Type 0) where
    All-insert_by : (a : A) (l : List A) → P a → All P l → All P (insert_by at_most a l)
    unfolding insert_by
    All-insert_by a [] p h = (p, tt)
    All-insert_by a (b ∷ rest) p h = elim (Bool-cases (at_most a b)) [
      | inl le ↦ rw (insert_by, le) (p, h)
      | inr gt ↦ rw (insert_by, gt) (h.0, All-insert_by a rest p h.1)
    ]

    pub All-sort_by : (l : List A) → All P l → All P (sort_by at_most l)
    unfolding sort_by
    All-sort_by [] h = tt
    All-sort_by (a ∷ rest) h = All-insert_by a (sort_by at_most rest) h.0 (All-sort_by rest h.1)

  -- Each element is at most all that follow it.
  abbrev pub IsSortedBy : List A → Type 0
  IsSortedBy [] = Unit
  IsSortedBy (a ∷ rest) = All (λ b. at_most a b ≡ true) rest × IsSortedBy rest

  module _ (total : (a b : A) → at_most a b ≡ false → at_most b a ≡ true)
      (trans : (a b c : A) → at_most a b ≡ true → at_most b c ≡ true → at_most a c ≡ true) where
    All-at_most :
        (a b : A) (l : List A)
        → at_most a b ≡ true
        → All (λ c. at_most b c ≡ true) l
        → All (λ c. at_most a c ≡ true) l
    All-at_most a b [] h all = tt
    All-at_most a b (c ∷ l) h all = (trans a b c h all.0, All-at_most a b l h all.1)

    insert_by-IsSortedBy : (a : A) (l : List A) → IsSortedBy l → IsSortedBy (insert_by at_most a l)
    unfolding insert_by
    insert_by-IsSortedBy a [] h = (tt, tt)
    insert_by-IsSortedBy a (b ∷ rest) h = elim (Bool-cases (at_most a b)) [
      | inl le ↦ rw (insert_by, le) ((le, All-at_most a b rest le h.0), h)
      | inr gt ↦
          rw (insert_by, gt)
            (All-insert_by _ a rest (total a b gt) h.0, insert_by-IsSortedBy a rest h.1)
    ]

    pub sort_by-IsSortedBy : (l : List A) → IsSortedBy (sort_by at_most l)
    unfolding sort_by
    sort_by-IsSortedBy [] = tt
    sort_by-IsSortedBy (a ∷ rest) =
        insert_by-IsSortedBy a (sort_by at_most rest) (sort_by-IsSortedBy rest)

-- The order of pairs of texts.
abbrev pub pair_leb : String × String → String × String → Bool
pair_leb (a, b) (c, d) = if a == c then text_leb b d else text_leb a c

pub pair_leb_total : (p q : String × String) → pair_leb p q ≡ false → pair_leb q p ≡ true
pair_leb_total (a, b) (c, d) h =
    ground (arith, eq_iff a c, eq_iff c a, text_leb_total a c, text_leb_total b d)

pub pair_leb_trans :
    (p q r : String × String) → pair_leb p q ≡ true → pair_leb q r ≡ true → pair_leb p r ≡ true
pair_leb_trans (a, b) (c, d) (e, f) h k = ground (
  arith,
  eq_iff a c,
  eq_iff c e,
  eq_iff a e,
  text_leb_trans a c e,
  text_leb_trans b d f,
  text_leb_antisymm a c,
  text_leb_antisymm c e,
  text_leb_trans c e a,
  text_leb_trans e a c,
)
