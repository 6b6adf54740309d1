-- ===== src/Text/Words.antt =====
-- `str::split_whitespace`, and `join(" ")` back.
use Prim.Native.String.{[], ◌∷◌, ◌++◌, char_at}
use text.Mathlib.TextLemmas.{nil-append, cons-append, append-nil}
use redis_driver_for_per_wor.Prelude.{
  ◌≡◌, refl, subst, true, false, List, String, if◌then◌else◌, arith, All,
}
use redis_driver_for_per_wor.Text.{is_whitespace}
use redis_driver_for_per_wor.Text.Prefix.{no_space}

-- A word that ends here, unless it is empty.
abbrev end_word : String → List String → List String
end_word [] words = words
end_word (c ∷ s) words = List.◌∷◌ (c ∷ s) words

-- The first word, which whatever stands before the text may extend, and the words after it.
unfoldable pub words_from : String → String × List String
words_from [] = ([], List.[])
words_from (c ∷ s) =
    let (word, words) = words_from s in
    if is_whitespace c then ([], end_word word words) else (c ∷ word, words)

unfoldable pub split_whitespace : String → List String
split_whitespace s = let (word, words) = words_from s in end_word word words

-- `join(" ")`
abbrev pub join_words : List String → String
join_words List.[] = []
join_words (List.◌∷◌ s List.[]) = s
join_words (List.◌∷◌ s (List.◌∷◌ t rest)) = s ++ " " ++ join_words (List.◌∷◌ t rest)

-- A word has characters, and none of them is whitespace.
abbrev pub IsWord : String → Type 0
IsWord [] = ⊥
IsWord (c ∷ s) = no_space (c ∷ s) ≡ true

words_from-append :
    (word rest : String)
    → no_space word ≡ true
    → words_from (word ++ rest) ≡ (word ++ (words_from rest).0, (words_from rest).1)
unfolding words_from
words_from-append [] rest h = rw (nil-append rest, nil-append (words_from rest).0) refl
words_from-append (c ∷ word) rest h =
    let plain : is_whitespace c ≡ false = ground arith in
    let others : no_space word ≡ true = ground arith in
    rw (cons-append c word rest, words_from-append word rest others, plain)
      (rw (cons-append c word (words_from rest).0) refl)

IsWord-no_space : (word : String) → IsWord word → no_space word ≡ true
IsWord-no_space [] h = absurd h
IsWord-no_space (c ∷ s) h = h

IsWord-end_word :
    (word : String) (words : List String) → IsWord word → end_word word words ≡ List.◌∷◌ word words
IsWord-end_word [] words h = absurd h
IsWord-end_word (c ∷ s) words h = refl

words_from-space :
    (s : String) → words_from (" " ++ s) ≡ ("", end_word (words_from s).0 (words_from s).1)
unfolding words_from is_whitespace
words_from-space s = rw (cons-append (char_at " " 0) "" s, nil-append s) refl

words_from-join_words :
    (word : String) (words : List String)
    → IsWord word
    → All IsWord words
    → words_from (join_words (List.◌∷◌ word words)) ≡ (word, words)
unfolding words_from
words_from-join_words word List.[] h hs =
    subst (λ w. words_from w ≡ (w, List.[])) (append-nil word)
      (words_from-append word "" (IsWord-no_space word h))
words_from-join_words word (List.◌∷◌ next rest) h hs =
    rw
      (
        words_from-append word (" " ++ join_words (List.◌∷◌ next rest)) (IsWord-no_space word h),
        words_from-space (join_words (List.◌∷◌ next rest)),
        words_from-join_words next rest hs.0 hs.1,
        append-nil word,
      )
      (rw (IsWord-end_word next rest hs.0) refl)

-- Words that are joined are split again.
pub split_whitespace-join_words :
    (word : String) (words : List String)
    → IsWord word
    → All IsWord words
    → split_whitespace (join_words (List.◌∷◌ word words)) ≡ List.◌∷◌ word words
unfolding split_whitespace
split_whitespace-join_words word words h hs =
    rw (words_from-join_words word words h hs) (IsWord-end_word word words h)
