-- ===== src/Tests/Shells.antt =====
-- A small shell splitter: words apart at white space, without the quotes around them.
use Prim.Native.Char.{Char, code}
use Prim.Native.String.{[], ◌∷◌, ◌++◌, char_at}
use text.Mathlib.TextLemmas.{nil-append, cons-append}
use redis_driver_for_per_wor.Prelude.{
  ◌≡◌, refl, sym, subst, ap, ◌∙◌, true, false, not, ◌&&◌, List, Option, none, some, String, Result,
  ok, eqb, arith, map, ◌≤◌, Bool-cases, inl, inr, All, if◌then◌else◌,
}
use redis_driver_for_per_wor.Text.{is_whitespace, strip_suffix}
use redis_driver_for_per_wor.Text.Prefix.{no_space}
use redis_driver_for_per_wor.Text.Words.{
  IsWord, words_from, split_whitespace, split_whitespace-join_words,
}
use redis_driver_for_per_wor.Statement.Shell.{
  Piece, plain, quoted, render, word_of, is_ordinary, ordinary, IsPiece, Splits,
}

abbrev inside : Option String → String → String
inside none s = s
inside (some r) s = r

-- A word without the double quotes around it.
pub unquote : String → String
unfolding strip_suffix
unquote [] = []
unquote (c ∷ s) = if eqb (code c) b'"' then inside (strip_suffix b'"' s) s else c ∷ s

abbrev pub shell_split : String → Result String (List String)
shell_split s = ok (map unquote (split_whitespace s))

strip_suffix-quote : (word : String) → strip_suffix b'"' (word ++ "\"") ≡ some word
unfolding strip_suffix
strip_suffix-quote [] = subst (λ t. strip_suffix b'"' t ≡ some []) (sym (nil-append "\"")) refl
strip_suffix-quote (c ∷ []) =
    let last : (c ∷ []) ++ "\"" ≡ c ∷ "\"" =
      cons-append c [] "\"" ∙ ap (λ w. c ∷ w) (nil-append "\"") in
    subst (λ t. strip_suffix b'"' t ≡ some (c ∷ [])) (sym last) refl
strip_suffix-quote (c ∷ d ∷ s) =
    let rest : strip_suffix b'"' (d ∷ (s ++ "\"")) ≡ some (d ∷ s) =
      rw (← cons-append d s "\"") (strip_suffix-quote (d ∷ s)) in
    rw (cons-append c (d ∷ s) "\"", cons-append d s "\"", rest) refl

opening : (s : String) → "\"" ++ s ≡ char_at "\"" 0 ∷ s
opening s = cons-append (char_at "\"" 0) "" s ∙ ap (λ w. char_at "\"" 0 ∷ w) (nil-append s)

unquote-render : (p : Piece) → IsPiece p → unquote (render p) ≡ word_of p
unfolding unquote
unquote-render (plain []) h = absurd h.0
unquote-render (plain (c ∷ s)) h =
    let other : eqb (code c) b'"' ≡ false = ground (arith, h.1) in rw other refl
unquote-render (quoted s) h = rw (opening (s ++ "\""), strip_suffix-quote s) refl

ordinary_range : (c : Char) → is_ordinary c ≡ true → (42 ≤ code c) × (code c ≤ 122)
ordinary_range c h = (ground arith, ground arith)

range-is_whitespace : (c : Char) → 42 ≤ code c → code c ≤ 122 → is_whitespace c ≡ false
unfolding is_whitespace
range-is_whitespace c low high = ground (arith, low, high)

ordinary-no_space : (s : String) → ordinary s ≡ true → no_space s ≡ true
ordinary-no_space [] h = refl
ordinary-no_space (c ∷ s) h = elim (Bool-cases (is_ordinary c)) [
  | inr other ↦ absurd (cc (subst (λ b. b && ordinary s ≡ true) other h))
  | inl fine ↦
      let (low, high) = ordinary_range c fine in
      let others : ordinary s ≡ true = subst (λ b. b && ordinary s ≡ true) fine h in
      rw (range-is_whitespace c low high) (ordinary-no_space s others)
]

no_space-quote : (s : String) → no_space s ≡ true → no_space (s ++ "\"") ≡ true
no_space-quote [] h =
    subst (λ t. no_space t ≡ true) (sym (nil-append "\"")) (unfold is_whitespace in refl)
no_space-quote (c ∷ s) h = elim (Bool-cases (is_whitespace c)) [
  | inl space ↦ absurd (cc (subst (λ b. not b && no_space s ≡ true) space h))
  | inr word ↦
      let others : no_space s ≡ true = subst (λ b. not b && no_space s ≡ true) word h in
      rw (cons-append c s "\"", word) (no_space-quote s others)
]

render-IsWord : (p : Piece) → IsPiece p → IsWord (render p)
render-IsWord (plain []) h = absurd h.0
render-IsWord (plain (c ∷ s)) h = ordinary-no_space (c ∷ s) h.1
render-IsWord (quoted s) h =
    rw (opening (s ++ "\"")) (unfold is_whitespace in no_space-quote s (ordinary-no_space s h))

All-IsWord : (ps : List Piece) → All IsPiece ps → All IsWord (map render ps)
All-IsWord List.[] h = tt
All-IsWord (List.◌∷◌ p ps) h = (render-IsWord p h.0, All-IsWord ps h.1)

map-unquote : (ps : List Piece) → All IsPiece ps → map unquote (map render ps) ≡ map word_of ps
map-unquote List.[] h = refl
map-unquote (List.◌∷◌ p ps) h = rw (unquote-render p h.0, map-unquote ps h.1) refl

pub shell_split-Splits : Splits shell_split
unfolding split_whitespace words_from
shell_split-Splits List.[] h = refl
shell_split-Splits (List.◌∷◌ p ps) h =
    rw
      (split_whitespace-join_words (render p) (map render ps) (render-IsWord p h.0)
        (All-IsWord ps h.1))
      (ap ok (map-unquote (List.◌∷◌ p ps) h))
