-- ===== src/Text/Prefix.antt =====
-- A text in front of another: what `strip_prefix` and `trim` make of it.
use Prim.Native.Char.{Char, code}
use Prim.Native.String.{[], ◌∷◌, ◌++◌}
use text.Mathlib.TextLemmas.{nil-append, cons-append}
use redis_driver_for_per_wor.Prelude.{
  ◌≡◌, refl, ap, sym, ◌∙◌, Bool, true, false, not, ◌&&◌, some, String, eqb_refl, arith,
}
use redis_driver_for_per_wor.Text.{
  is_whitespace, strip_prefix, trim, trim_end, trim_end_cons, trim_start,
}

pub strip_prefix-append : (p s : String) → strip_prefix (p ++ s) p ≡ some s
unfolding strip_prefix
strip_prefix-append [] s = rw (nil-append s) refl
strip_prefix-append (c ∷ p) s = rw (cons-append c p s, eqb_refl (code c)) (strip_prefix-append p s)

-- A common beginning is passed over.
pub strip_prefix_common : (p s q : String) → strip_prefix (p ++ s) (p ++ q) ≡ strip_prefix s q
unfolding strip_prefix
strip_prefix_common [] s q = rw (nil-append s, nil-append q) refl
strip_prefix_common (c ∷ p) s q =
    rw (cons-append c p s, cons-append c p q, eqb_refl (code c)) (strip_prefix_common p s q)

abbrev pub no_space : String → Bool
no_space [] = true
no_space (c ∷ p) = not (is_whitespace c) && no_space p

-- The text begins with a character that is not whitespace.
abbrev pub StartsPlain : String → Type 0
StartsPlain [] = ⊥
StartsPlain (c ∷ s) = is_whitespace c ≡ false

trim_plain : (c : Char) (s : String) → is_whitespace c ≡ false → trim (c ∷ s) ≡ trim_end (c ∷ s)
unfolding trim
trim_plain c s plain = ap trim_end (trim_start_plain c s plain)
  where
    trim_start_plain :
        (c : Char) (s : String) → is_whitespace c ≡ false → trim_start (c ∷ s) ≡ c ∷ s
    trim_start_plain c s plain = unfold trim_start in rw plain refl

trim-cons :
    (c : Char) (s : String)
    → is_whitespace c ≡ false
    → StartsPlain s
    → trim s ≡ s
    → trim (c ∷ s) ≡ c ∷ s
unfolding trim_end
trim-cons c [] plain starts h = absurd starts
trim-cons c (d ∷ s) plain starts h =
    trim_plain c (d ∷ s) plain ∙ ap (trim_end_cons c) (sym (trim_plain d s starts) ∙ h)

StartsPlain-append : (p s : String) → no_space p ≡ true → StartsPlain s → StartsPlain (p ++ s)
StartsPlain-append [] s h starts = rw (nil-append s) starts
StartsPlain-append (c ∷ p) s h starts = rw (cons-append c p s) (ground arith)

pub trim-append_left :
    (p s : String) → no_space p ≡ true → StartsPlain s → trim s ≡ s → trim (p ++ s) ≡ p ++ s
trim-append_left [] s h starts trimmed = rw (nil-append s) trimmed
trim-append_left (c ∷ p) s h starts trimmed =
    let plain : is_whitespace c ≡ false = ground arith in
    let rest : no_space p ≡ true = ground arith in
    rw (cons-append c p s) (
      trim-cons c (p ++ s) plain (StartsPlain-append p s rest starts)
        (trim-append_left p s rest starts trimmed))
