-- ===== src/Text/Case.antt =====
-- Folding to upper case a second time changes nothing.
use Prim.Native.Char.{Char, code}
use Prim.Native.String.{[], ◌∷◌, char_at}
use redis_driver_for_per_wor.Prelude.{
  ℕ, zero, suc, ◌+◌, ◌-◌, ◌<◌, ◌≡◌, refl, inl, inr, Bool, true, false, ◌&&◌, String, arith, eqb,
  leb, eqb_iff, Bool-cases,
}
use redis_driver_for_per_wor.Text.{upper_char, upper}

abbrev letter : ℕ → Char
letter k = char_at "ABCDEFGHIJKLMNOPQRSTUVWXYZ" k

-- Whether the first letters of the table have the codes from 65 on.
letters_in_order : ℕ → Bool
letters_in_order zero = true
letters_in_order (suc k) = letters_in_order k && eqb (code (letter k)) (65 + k)

code-letter_below : (n k : ℕ) → letters_in_order n ≡ true → k < n → code (letter k) ≡ 65 + k
unfolding letters_in_order
code-letter_below zero k ordered small = absurd (omega arith)
code-letter_below (suc n) k ordered small =
    ground (arith, code-letter_below n k, eqb_iff (code (letter k)) (65 + k))

code-letter : (k : ℕ) → k < 26 → code (letter k) ≡ 65 + k
code-letter k = code-letter_below 26 k (unfold letters_in_order in refl)

upper_char_idem : (c : Char) → upper_char (upper_char c) ≡ upper_char c
unfolding upper_char
upper_char_idem c = elim (Bool-cases (leb b'a' (code c) && leb (code c) b'z')) [
  | inl lower ↦
      let capital : leb b'a' (code (letter (code c - b'a')))
            && leb (code (letter (code c - b'a'))) b'z'
          ≡ false =
        ground (arith, code-letter (code c - b'a')) in
      rw (lower, capital)
  | inr other ↦ rw (other, other)
]

pub upper_idem : (s : String) → upper (upper s) ≡ upper s
unfolding upper
upper_idem [] = refl
upper_idem (c ∷ s) = λ i. upper_char_idem c i ∷ upper_idem s i
