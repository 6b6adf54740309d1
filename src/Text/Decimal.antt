-- ===== src/Text/Decimal.antt =====
-- Decimal numbers: `to_string` and `str::parse` of the unsigned integers, and their round trip.
use Prim.Native.Char.{Char, code}
use Prim.Native.String.{[], ◌∷◌, char_at}
use redis_driver_for_per_wor.Text.{strip_suffix}
use redis_driver_for_per_wor.Prelude.{
  ℕ, zero, suc, ◌+◌, ◌-◌, ◌*◌, ◌/◌, ◌%◌, ◌^◌, ◌<◌, ◌≡◌, refl, true, ◌&&◌, Option, none, some,
  String, arith, leb, ltb, eqb, if◌then◌else◌, Bool-cases, Option-cases, inl, inr, ◌||◌, ◌∙◌, ap,
}

-- One past the largest `usize` and `u64` of a 64-bit target.
abbrev pub usize_limit : ℕ
usize_limit = 2 ^ 64

digit_char : ℕ → Char
digit_char d = char_at "0123456789" d

show_onto : ℕ → ℕ → String → String
unfolding digit_char
show_onto zero n acc = acc
show_onto (suc fuel) n acc =
    let longer = show_onto fuel (n / 10) (digit_char (n % 10) ∷ acc) in
    if ltb n 10 then digit_char n ∷ acc else longer

-- `n.to_string()`; a number has fewer digits than its value plus one.
unfoldable pub show : ℕ → String
unfolding show_onto
show n = show_onto (suc n) n []

-- The digits of a number below `limit`, with `n` read so far; an overflow is an error.
unfoldable pub scan : ℕ → String → ℕ → Option ℕ
scan limit [] n = some n
scan limit (c ∷ s) n =
    let next = n * 10 + (code c - b'0') in
    if leb b'0' (code c) && leb (code c) b'9' && ltb next limit then scan limit s next else none

-- `s.parse()` at an unsigned type: one optional `+`, then at least one digit.
unfoldable pub parse_unsigned : ℕ → String → Option ℕ
unfolding scan
parse_unsigned limit [] = none
parse_unsigned limit (c ∷ []) = scan limit (c ∷ []) 0
parse_unsigned limit (c ∷ d ∷ s) =
    if eqb (code c) b'+' then scan limit (d ∷ s) 0 else scan limit (c ∷ d ∷ s) 0

code-digit_char : (d : ℕ) → d < 10 → code (digit_char d) ≡ 48 + d
unfolding digit_char
code-digit_char zero h = refl
code-digit_char (suc zero) h = refl
code-digit_char (suc (suc zero)) h = refl
code-digit_char (suc (suc (suc zero))) h = refl
code-digit_char (suc (suc (suc (suc zero)))) h = refl
code-digit_char (suc (suc (suc (suc (suc zero))))) h = refl
code-digit_char (suc (suc (suc (suc (suc (suc zero)))))) h = refl
code-digit_char (suc (suc (suc (suc (suc (suc (suc zero))))))) h = refl
code-digit_char (suc (suc (suc (suc (suc (suc (suc (suc zero)))))))) h = refl
code-digit_char (suc (suc (suc (suc (suc (suc (suc (suc (suc zero))))))))) h = refl
code-digit_char (suc (suc (suc (suc (suc (suc (suc (suc (suc (suc d)))))))))) h =
    absurd (omega arith)

scan-digit :
    (limit d n : ℕ) (s : String)
    → d < 10
    → n * 10 + d < limit
    → scan limit (digit_char d ∷ s) n ≡ scan limit s (n * 10 + d)
unfolding scan
scan-digit limit d n s h k =
    rw (code-digit_char d h) (let e : 48 + d - 48 ≡ d = omega arith in rw e (ground arith))

scan-show_onto :
    (limit fuel n : ℕ) (acc : String)
    → n < fuel
    → n < limit
    → scan limit (show_onto fuel n acc) 0 ≡ scan limit acc n
unfolding show_onto
scan-show_onto limit zero n acc h k = elim h [ ]
scan-show_onto limit (suc fuel) n acc h k = elim (Bool-cases (ltb n 10)) [
  | inl small ↦
      rw small
        (scan-digit limit n 0 acc (ground arith) (omega arith) ∙ ap (scan limit acc) (omega arith))
  | inr large ↦
      let half : n / 10 < fuel = ground arith in
      rw large (
        scan-show_onto limit fuel (n / 10) (digit_char (n % 10) ∷ acc) half (omega arith)
        ∙ scan-digit limit (n % 10) (n / 10) acc (omega arith) (omega arith)
        ∙ ap (scan limit acc) (omega arith))
]

-- A text with a first character.
abbrev pub IsCons : String → Type 0
IsCons [] = ⊥
IsCons (c ∷ s) = Unit

show_onto-IsCons : (fuel n : ℕ) (c : Char) (acc : String) → IsCons (show_onto fuel n (c ∷ acc))
unfolding show_onto
show_onto-IsCons zero n c acc = tt
show_onto-IsCons (suc fuel) n c acc = elim (Bool-cases (ltb n 10)) [
  | inl small ↦ rw small tt
  | inr large ↦ rw large (show_onto-IsCons fuel (n / 10) (digit_char (n % 10)) (c ∷ acc))
]

pub show-IsCons : (n : ℕ) → IsCons (show n)
unfolding show
show-IsCons n = elim (Bool-cases (ltb n 10)) [
  | inl small ↦ rw small tt
  | inr large ↦ rw large (show_onto-IsCons n (n / 10) (digit_char (n % 10)) [])
]

parse_unsigned-scan :
    (limit n : ℕ) (s : String)
    → IsCons s
    → scan limit s 0 ≡ some n
    → parse_unsigned limit s ≡ some n
unfolding parse_unsigned
parse_unsigned-scan limit n [] h e = absurd h
parse_unsigned-scan limit n (c ∷ []) h e = e
parse_unsigned-scan limit n (c ∷ d ∷ s) h e = elim (Bool-cases (eqb (code c) b'+')) [
  | inl plus ↦ let digit : leb b'0' (code c) ≡ true = unfold scan in ground arith in ground arith
  | inr other ↦ rw other e
]

-- Printing a number and parsing it gives it back, below the limit of the parsed type.
pub parse_unsigned-show : (limit n : ℕ) → n < limit → parse_unsigned limit (show n) ≡ some n
unfolding show scan
parse_unsigned-show limit n h =
    parse_unsigned-scan limit n (show n) (show-IsCons n)
      (scan-show_onto limit (suc n) n [] (omega arith) h)

-- The text of a number has no other character at its end than a digit.
scan-strip_suffix :
    (limit e n : ℕ) (s r : String)
    → ltb e b'0' || ltb b'9' e ≡ true
    → strip_suffix e s ≡ some r
    → scan limit s n ≡ none
unfolding scan strip_suffix
scan-strip_suffix limit e n [] r h k = cc
scan-strip_suffix limit e n (c ∷ []) r h k = ground arith
scan-strip_suffix limit e n (c ∷ d ∷ s) r h k = elim (Option-cases (strip_suffix e (d ∷ s))) [
  | inl missing ↦ absurd (ground arith)
  | inr (t, found) ↦
      ground (arith, scan-strip_suffix limit e (n * 10 + (code c - b'0')) (d ∷ s) t h found)
]

pub scan-show : (n : ℕ) → scan (suc n) (show n) 0 ≡ some n
unfolding show scan
scan-show n = scan-show_onto (suc n) (suc n) n [] (omega arith) (omega arith)

pub strip_suffix-show : (e n : ℕ) → ltb e b'0' || ltb b'9' e ≡ true → strip_suffix e (show n) ≡ none
strip_suffix-show e n h = elim (Option-cases (strip_suffix e (show n))) [
  | inl missing ↦ missing
  | inr (r, found) ↦ absurd (cc (scan-show n, scan-strip_suffix (suc n) e 0 (show n) r h found))
]
