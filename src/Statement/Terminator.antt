-- ===== src/Statement/Terminator.antt =====
-- The terminator that `parse_select` of src/redis_service.rs takes off its last token.
use Prim.Native.Char.{Char, code}
use Prim.Native.String.{[], ◌∷◌, ◌++◌, char_at}
use text.Mathlib.TextEquality.{Char-path}
use text.Mathlib.TextLemmas.{nil-append, cons-append}
use redis_driver_for_per_wor.Prelude.{
  ◌≡◌, ◌≢◌, refl, sym, subst, ap, ◌∙◌, List, Option, none, some, String, ◌==◌, eq_iff, eqb, eqb_iff,
  inl, inr, Bool-cases, Option-cases, arith, false,
}
use redis_driver_for_per_wor.Text.{strip_suffix}
use redis_driver_for_per_wor.Statement.{strip_terminator}

-- The tokens without a `;` that is glued to a word at their end. A last token that is `;` alone, or
-- that does not end in `;`, stays, and so does every token before the last.
pub data Terminated : List String → List String → Type 0 where
  empty : Terminated List.[] List.[]
  glued :
      {token : String} (word : String)
      → word ≢ ""
      → token ≡ word ++ ";"
      → Terminated (List.◌∷◌ token List.[]) (List.◌∷◌ word List.[])
  bare :
      {token : String}
      → ((word : String) → word ≢ "" → token ≢ word ++ ";")
      → Terminated (List.◌∷◌ token List.[]) (List.◌∷◌ token List.[])
  later :
      {token next : String} {rest words : List String}
      → Terminated (List.◌∷◌ next rest) words
      → Terminated (List.◌∷◌ token (List.◌∷◌ next rest)) (List.◌∷◌ token words)

abbrev semicolon : Char
semicolon = char_at ";" 0

strip_suffix-semicolon : (word : String) → strip_suffix b';' (word ++ ";") ≡ some word
unfolding strip_suffix
strip_suffix-semicolon [] = subst (λ t. strip_suffix b';' t ≡ some []) (sym (nil-append ";")) refl
strip_suffix-semicolon (c ∷ []) =
    let last : (c ∷ []) ++ ";" ≡ c ∷ ";" =
      cons-append c [] ";" ∙ ap (λ w. c ∷ w) (nil-append ";") in
    subst (λ t. strip_suffix b';' t ≡ some (c ∷ [])) (sym last) refl
strip_suffix-semicolon (c ∷ d ∷ s) =
    let rest : strip_suffix b';' (d ∷ (s ++ ";")) ≡ some (d ∷ s) =
      rw (← cons-append d s ";") (strip_suffix-semicolon (d ∷ s)) in
    rw (cons-append c (d ∷ s) ";", cons-append d s ";", rest) refl

semicolon-strip_suffix : (s word : String) → strip_suffix b';' s ≡ some word → s ≡ word ++ ";"
unfolding strip_suffix
semicolon-strip_suffix [] word h = cc
semicolon-strip_suffix (c ∷ []) word h = elim (Bool-cases (eqb (code c) b';')) [
  | inl semi ↦
      let same : c ≡ semicolon = Char-path c semicolon ((eqb_iff (code c) b';').0 semi) in
      let none_left : "" ≡ word = ground arith in
      ap (λ d. d ∷ "") same ∙ sym (nil-append ";") ∙ ap (λ w. w ++ ";") none_left
  | inr other ↦ absurd (ground arith)
]
semicolon-strip_suffix (c ∷ d ∷ s) word h = elim (Option-cases (strip_suffix b';' (d ∷ s))) [
  | inl missing ↦ absurd (ground arith)
  | inr (t, found) ↦
      let left : c ∷ t ≡ word = ground arith in
      ap (λ w. c ∷ w) (semicolon-strip_suffix (d ∷ s) t found)
      ∙ sym (cons-append c t ";")
      ∙ ap (λ w. w ++ ";") left
]

-- What is done with the last token.
last_token :
    (token : String) (o : Option String)
    → strip_suffix b';' token ≡ o
    → Terminated (List.◌∷◌ token List.[]) (strip_terminator (List.◌∷◌ token List.[]))
unfolding strip_terminator
last_token token none e =
    rw (strip_terminator, e) (bare λ word full same. cc (same, strip_suffix-semicolon word, e))
last_token token (some word) e = elim (Bool-cases (word == "")) [
  | inl alone ↦
      rw (strip_terminator, e, alone)
        (bare λ other full same.
          let equal : some other ≡ some word =
            sym (strip_suffix-semicolon other) ∙ ap (strip_suffix b';') (sym same) ∙ e in
          let left : word ≡ "" = (eq_iff word "").0 alone in full (cc (equal, left)))
  | inr more ↦
      rw (strip_terminator, e, more)
        (glued word (ground (arith, eq_iff word "")) (semicolon-strip_suffix token word e))
]

pub strip_terminator-Terminated :
    (tokens : List String) → Terminated tokens (strip_terminator tokens)
unfolding strip_terminator
strip_terminator-Terminated List.[] = empty
strip_terminator-Terminated (List.◌∷◌ token List.[]) =
    last_token token (strip_suffix b';' token) refl
strip_terminator-Terminated (List.◌∷◌ token (List.◌∷◌ next rest)) =
    later (strip_terminator-Terminated (List.◌∷◌ next rest))

last_token_kept :
    (token : String) (o : Option String)
    → ((word : String) → word ≢ "" → token ≢ word ++ ";")
    → strip_suffix b';' token ≡ o
    → strip_terminator (List.◌∷◌ token List.[]) ≡ List.◌∷◌ token List.[]
unfolding strip_terminator
last_token_kept token none other e = rw (strip_terminator, e) refl
last_token_kept token (some word) other e = elim (Bool-cases (word == "")) [
  | inl alone ↦ rw (strip_terminator, e, alone) refl
  | inr more ↦
      absurd (other word (ground (arith, eq_iff word "")) (semicolon-strip_suffix token word e))
]

pub Terminated-strip_terminator :
    {tokens words : List String} → Terminated tokens words → strip_terminator tokens ≡ words
unfolding strip_terminator
Terminated-strip_terminator empty = refl
Terminated-strip_terminator (glued {token} word full e) =
    let found : strip_suffix b';' token ≡ some word = rw e (strip_suffix-semicolon word) in
    let more : (word == "") ≡ false = ground (arith, eq_iff word "") in
    rw (strip_terminator, found, more) refl
Terminated-strip_terminator (bare {token} other) =
    last_token_kept token (strip_suffix b';' token) other refl
Terminated-strip_terminator (later {token} t) = ap (List.◌∷◌ token) (Terminated-strip_terminator t)
