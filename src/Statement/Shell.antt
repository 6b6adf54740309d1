-- ===== src/Statement/Shell.antt =====
-- What `shell_words::split`, which src/redis_service.rs calls on a statement, is documented to do with
-- plain and quoted words.
use Prim.Native.Char.{Char, code}
use Prim.Native.String.{[], ◌∷◌, ◌++◌}
use redis_driver_for_per_wor.Prelude.{
  ℕ, suc, ◌+◌, ◌-◌, ◌*◌, ◌≡◌, refl, Bool, true, ◌&&◌, ◌||◌, List, some, String, Result, ok, leb,
  eqb, arith, map, All,
}
use redis_driver_for_per_wor.Text.Decimal.{IsCons, scan, scan-show, show, show-IsCons}
use redis_driver_for_per_wor.Text.Signed.{scan-cons}
use redis_driver_for_per_wor.Text.Words.{join_words}

-- A word of a shell line as it is written: as it stands, or in double quotes.
pub data Piece : Type 0 where
  plain quoted : String → Piece

abbrev pub render : Piece → String
render (plain s) = s
render (quoted s) = "\"" ++ s ++ "\""

abbrev pub word_of : Piece → String
word_of (plain s) = s
word_of (quoted s) = s

-- Letters, digits and `*`, which mean nothing to the splitter.
abbrev pub is_ordinary : Char → Bool
is_ordinary c =
    leb b'A' (code c) && leb (code c) b'Z'
    || leb b'a' (code c) && leb (code c) b'z'
    || leb b'0' (code c) && leb (code c) b'9'
    || eqb (code c) b'*'

abbrev pub ordinary : String → Bool
ordinary [] = true
ordinary (c ∷ s) = is_ordinary c && ordinary s

abbrev pub IsPiece : Piece → Type 0
IsPiece (plain s) = IsCons s × (ordinary s ≡ true)
IsPiece (quoted s) = ordinary s ≡ true

-- Words with a space between them are cut apart, and double quotes around a word are taken off.
abbrev pub Splits : (String → Result String (List String)) → Type 0
Splits split =
    (pieces : List Piece)
    → All IsPiece pieces
    → split (join_words (map render pieces)) ≡ ok (map word_of pieces)

ordinary-scan : (limit a n : ℕ) (s : String) → scan limit s a ≡ some n → ordinary s ≡ true
ordinary-scan limit a n [] h = refl
ordinary-scan limit a n (c ∷ s) h =
    let (low, high, next, rest) = scan-cons limit c s a n h in
    let others = ordinary-scan limit (a * 10 + (code c - b'0')) n s rest in
    ground (arith, low, high, others)

pub show-IsPiece : (n : ℕ) → IsPiece (plain (show n))
show-IsPiece n = (show-IsCons n, ordinary-scan (suc n) 0 n (show n) (scan-show n))
