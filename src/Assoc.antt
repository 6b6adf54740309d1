-- ===== src/Assoc.antt =====
-- Maps with number keys, `HashMap<u64, _>` of the server: insertion replaces, removal drops the key.
use redis_driver_for_per_wor.Prelude.{
  ℕ, ◌≡◌, ◌<◌, refl, List, [], ◌∷◌, Option, none, some, arith, eqb, if◌then◌else◌,
}

abbrev pub Assoc {ℓ} : Type ℓ → Type ℓ
Assoc V = List (ℕ × V)

module _ {ℓ} {V : Type ℓ} where
  unfoldable pub lookup : ℕ → Assoc V → Option V
  lookup k [] = none
  lookup k ((j, v) ∷ m) = if eqb j k then some v else lookup k m

  unfoldable pub remove : ℕ → Assoc V → Assoc V
  remove k [] = []
  remove k ((j, v) ∷ m) = let rest = remove k m in if eqb j k then rest else (j, v) ∷ rest

  unfoldable pub insert : ℕ → V → Assoc V → Assoc V
  unfolding remove
  insert k v m = (k, v) ∷ remove k m

  pub lookup-remove :
      (k j : ℕ) (m : Assoc V) → lookup j (remove k m) ≡ (if eqb k j then none else lookup j m)
  unfolding lookup remove
  lookup-remove k j [] = ground arith
  lookup-remove k j ((i, v) ∷ m) = ground (arith, lookup-remove k j m)

  pub lookup-insert :
      (k j : ℕ) (v : V) (m : Assoc V)
      → lookup j (insert k v m) ≡ (if eqb k j then some v else lookup j m)
  unfolding lookup insert
  lookup-insert k j v m = ground (arith, lookup-remove k j m)

  -- Every key is below the bound.
  abbrev pub Below : ℕ → Assoc V → Type 0
  Below n [] = Unit
  Below n ((k, v) ∷ m) = (k < n) × Below n m

  pub Below-remove : (n k : ℕ) (m : Assoc V) → Below n m → Below n (remove k m)
  unfolding remove
  Below-remove n k [] h = tt
  Below-remove n k ((j, v) ∷ m) h = ground (arith, Below-remove n k m)

  pub Below-suc : (n k : ℕ) (m : Assoc V) → n < k → Below n m → Below k m
  Below-suc n k [] h b = tt
  Below-suc n k ((j, v) ∷ m) h b = (omega arith, Below-suc n k m h b.1)

  pub lookup-Below : (n : ℕ) (m : Assoc V) → Below n m → lookup n m ≡ none
  unfolding lookup
  lookup-Below n [] h = refl
  lookup-Below n ((j, v) ∷ m) h = ground (arith, lookup-Below n m)

  pub lookup-lt : (n k : ℕ) (m : Assoc V) (v : V) → Below k m → lookup n m ≡ some v → n < k
  unfolding lookup
  lookup-lt n k [] v b h = cc
  lookup-lt n k ((j, u) ∷ m) v b h = ground (arith, lookup-lt n k m v b.1)
