-- ===== src/Text/Trim.antt =====
-- A text that begins with a character other than whitespace does not trim to nothing.
use Prim.Native.Char.{Char}
use Prim.Native.String.{[], ◌∷◌, ◌++◌}
use text.Mathlib.TextLemmas.{cons-append, cons-ne-nil}
use redis_driver_for_per_wor.Prelude.{
  ◌≡◌, false, String, ◌==◌, eq_iff, inl, inr, Bool-cases, ap, ◌∙◌,
}
use redis_driver_for_per_wor.Text.{trim, trim_end, trim_end_cons, is_whitespace}

-- The text begins with the character.
abbrev pub Starts : Char → String → Type 0
Starts c s = (t : String) × (s ≡ c ∷ t)

pub Starts-append : (c : Char) (s t : String) → Starts c s → Starts c (s ++ t)
Starts-append c s t (r, e) = (r ++ t, ap (λ (x : String). x ++ t) e ∙ cons-append c r t)

pub cons-ne-empty : (c : Char) (s : String) → (c ∷ s == "") ≡ false
cons-ne-empty c s = elim (Bool-cases (c ∷ s == "")) [
  | inl same ↦ absurd (cons-ne-nil c s ((eq_iff (c ∷ s) "").0 same))
  | inr other ↦ other
]

trim_end_cons-ne-empty :
    (c : Char) (s : String) → is_whitespace c ≡ false → (trim_end_cons c s == "") ≡ false
trim_end_cons-ne-empty c [] h = rw h (cons-ne-empty c [])
trim_end_cons-ne-empty c (d ∷ s) h = cons-ne-empty c (d ∷ s)

pub trim-ne-empty :
    (c : Char) (s : String) → is_whitespace c ≡ false → Starts c s → (trim s == "") ≡ false
unfolding trim
trim-ne-empty c s h (t, e) = rw (e, h) (trim_end_cons-ne-empty c (trim_end t) h)
