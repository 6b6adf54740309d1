-- ===== src/Text/Signed.antt =====
-- `str::parse` at `i64`.
use Prim.Native.Char.{Char, code}
use Prim.Native.String.{[], ◌∷◌}
use redis_driver_for_per_wor.Prelude.{
  ℕ, zero, suc, ◌+◌, ◌-◌, ◌*◌, ◌^◌, ◌<◌, ◌≡◌, refl, ℤ, pos, negsuc, Bool, true, false, ◌⊎◌, Option,
  none, some, String, arith, eqb, leb, if◌then◌else◌, inl, inr,
}
use redis_driver_for_per_wor.Text.Decimal.{
  IsCons, parse_unsigned, parse_unsigned-show, scan, scan-show, show, show-IsCons,
}

-- One past the largest `i64`.
abbrev pub i64_limit : ℕ
i64_limit = 2 ^ 63

abbrev positive : Option ℕ → Option ℤ
positive none = none
positive (some n) = some (pos n)

abbrev negated : Option ℕ → Option ℤ
negated none = none
negated (some zero) = some (pos 0)
negated (some (suc n)) = some (negsuc n)

-- The digits after a minus sign: at least one, and no second sign.
abbrev parse_negative : String → Option ℤ
parse_negative [] = none
parse_negative (c ∷ s) = negated (scan (suc i64_limit) (c ∷ s) 0)

unfoldable pub parse_i64 : String → Option ℤ
parse_i64 [] = none
parse_i64 (c ∷ s) =
    if eqb (code c) b'-' then parse_negative s else positive (parse_unsigned i64_limit (c ∷ s))

module _ (limit : ℕ) where
  -- What is read of a text has digits only, and stays below the limit.
  pub scan-cons :
      (c : Char) (s : String) (a n : ℕ)
      → scan limit (c ∷ s) a ≡ some n
      → (leb b'0' (code c) ≡ true)
        × (leb (code c) b'9' ≡ true)
        × (a * 10 + (code c - b'0') < limit)
        × (scan limit s (a * 10 + (code c - b'0')) ≡ some n)
  unfolding scan
  scan-cons c s a n h = ground arith

  pub scan-lt : (s : String) (a n : ℕ) → a < limit → scan limit s a ≡ some n → n < limit
  unfolding scan
  scan-lt [] a n small h = let same : a ≡ n = cc in omega (arith, same)
  scan-lt (c ∷ s) a n small h =
      let (low, high, next, rest) = scan-cons c s a n h in scan-lt s _ n next rest

either {ℓ} :
    {A : Type ℓ} (test : Bool) (x y z : A) → (if test then x else y) ≡ z → (x ≡ z) ⊎ (y ≡ z)
either true x y z h = inl h
either false x y z h = inr h

parse_unsigned-lt :
    (limit n : ℕ) (s : String) → 0 < limit → parse_unsigned limit s ≡ some n → n < limit
unfolding parse_unsigned
parse_unsigned-lt limit n [] small h = cc
parse_unsigned-lt limit n (c ∷ []) small h = scan-lt limit (c ∷ []) 0 n small h
parse_unsigned-lt limit n (c ∷ d ∷ s) small h =
    elim (either (eqb (code c) b'+') (scan limit (d ∷ s) 0) (scan limit (c ∷ d ∷ s) 0) (some n) h) [
      | inl after_sign ↦ scan-lt limit (d ∷ s) 0 n small after_sign
      | inr whole ↦ scan-lt limit (c ∷ d ∷ s) 0 n small whole
    ]

negated-pos : (o : Option ℕ) (n : ℕ) → negated o ≡ some (pos n) → n ≡ 0
negated-pos none n h = cc
negated-pos (some zero) n h = cc
negated-pos (some (suc m)) n h = cc

positive-pos : (o : Option ℕ) (n : ℕ) → positive o ≡ some (pos n) → o ≡ some n
positive-pos none n h = cc
positive-pos (some m) n h = cc

parse_negative-zero : (s : String) (n : ℕ) → parse_negative s ≡ some (pos n) → n ≡ 0
parse_negative-zero [] n h = cc
parse_negative-zero (c ∷ s) n h = negated-pos (scan (suc i64_limit) (c ∷ s) 0) n h

-- A number that is not negative is below the limit.
pub parse_i64-lt : (n : ℕ) (s : String) → parse_i64 s ≡ some (pos n) → n < i64_limit
unfolding parse_i64
parse_i64-lt n [] h = cc
parse_i64-lt n (c ∷ s) h =
    elim (either (eqb (code c) b'-') (parse_negative s)
      (positive (parse_unsigned i64_limit (c ∷ s))) (some (pos n)) h) [
        | inl minus ↦ let nothing = parse_negative-zero s n minus in omega (arith, nothing)
        | inr plain ↦
            parse_unsigned-lt i64_limit n (c ∷ s) (omega arith)
              (positive-pos (parse_unsigned i64_limit (c ∷ s)) n plain)
      ]

-- Digits without a sign are read as an unsigned number.
parse_i64_digits :
    (limit n m : ℕ) (s : String)
    → IsCons s
    → scan limit s 0 ≡ some m
    → parse_unsigned i64_limit s ≡ some n
    → parse_i64 s ≡ some (pos n)
unfolding parse_i64
parse_i64_digits limit n m [] cons digits h = absurd cons
parse_i64_digits limit n m (c ∷ s) cons digits h =
    let (low, high, next, rest) = scan-cons limit c s 0 m digits in
    let digit : eqb (code c) b'-' ≡ false = ground (arith, low) in rw (digit, h) refl

-- A printed number below the limit is read back.
pub parse_i64-show : (n : ℕ) → n < i64_limit → parse_i64 (show n) ≡ some (pos n)
parse_i64-show n h =
    parse_i64_digits (suc n) n n (show n) (show-IsCons n) (scan-show n)
      (parse_unsigned-show i64_limit n h)
